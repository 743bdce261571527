-- ===== src/ProgramRunner/Steps.antt =====
-- What the loop over the candidates keeps, from what one saved lead does.
use lead_finder.Prelude.{
  suc, ◌≡◌, ◌⊎◌, refl, subst, Bool, true, false, Option, none, some, List, [], ◌∷◌, arith,
  eq_of_some, Option-cases, Bool-cases, inl, inr, if◌then◌else◌,
}
use lead_finder.Prelude.Int.{pos, leb_ℤ, ◌≤ℤ◌}
use lead_finder.Prelude.Text.{Text, text, truthy, or_empty}
use lead_finder.Json.{Json, Fields, get}
use lead_finder.Models.{Program}
use lead_finder.PainSaver.{or_else, field_of, extract_pain_texts}
use lead_finder.Qualifier.Prompt.{Candidate}
use lead_finder.Qualifier.Qualify.{Answer, qualify_lead}
use lead_finder.ProgramRunner.{
  Run, LeadData, Step, is_below, score_of, or_null, or_empty_obj, lead_data_from, save_lead,
  add_pains, lead_data, save_scored, judge, judge_response, judge_result, process_candidate,
  process_all,
}

Step-cases :
    (s : Step) → (s ≡ Step.raised) ⊎ ((s ≡ Step.skipped) ⊎ ((run : Run) × (s ≡ Step.handled run)))
Step-cases Step.raised = inl refl
Step-cases Step.skipped = inr (inl refl)
Step-cases (Step.handled run) = inr (inr (run, refl))

-- A handled candidate met a program that was not expired.
step_loaded :
    (expired : Bool) (s : Step) (run : Run)
    → (if expired then Step.raised else s) ≡ Step.handled run
    → s ≡ Step.handled run
step_loaded true s run e = absurd (ground arith)
step_loaded false s run e = e

lead_data_from-score :
    (q : Fields) (score input : Json) (pains : Option (List Text))
    (business message : Option (Option Json)) (d : LeadData)
    → lead_data_from q score input pains business message ≡ some d
    → d.score ≡ score
lead_data_from-score q score input (some ps) (some b) (some m) d e = ground arith
lead_data_from-score q score input (some ps) (some b) none d e = absurd (ground arith)
lead_data_from-score q score input (some ps) none m d e = absurd (ground arith)
lead_data_from-score q score input none b m d e = absurd (ground arith)

module _ (loads : Text → Option Json) (shown : Json → Text) (ask : Candidate → Answer)
    (has_llm : Bool) (template : Text) (program : Program) where
  -- How a candidate that was handled was saved.
  pub record IsSaving (c : Candidate) (run run' : Run) : Type 0 where
    pub answer : Fields
    pub data_of : LeadData
    pub mid : Run
    pub lead : save_lead program.user_id program.id (or_empty c.username) data_of run ≡ some mid
    pub pains : add_pains loads shown ask program.user_id program.id c answer mid ≡ run'
    pub passes : is_below data_of.score program.min_score ≡ some false

  save_scored-IsSaving :
      (c : Candidate) (q : Fields) (d : Option LeadData) (run run' : Run)
      → save_scored loads shown ask has_llm template program c q d run ≡ Step.handled run'
      → ((e : LeadData) → d ≡ some e → is_below e.score program.min_score ≡ some false)
      → IsSaving c run run'
  save_scored-IsSaving c q none run run' e p = absurd (ground arith)
  save_scored-IsSaving c q (some d) run run' e p =
      elim (Option-cases (save_lead program.user_id program.id (or_empty c.username) d run)) [
        | inl refused ↦ absurd (ground arith)
        | inr (mid, saved) ↦ record {
          answer = q;
          data_of = d;
          mid = mid;
          lead = saved;
          pains = ground arith;
          passes = p d refl;
        }
      ]

  judge-IsSaving :
      (c : Candidate) (q : Fields) (input : Json) (below : Option Bool) (run run' : Run)
      → is_below (score_of q) program.min_score ≡ below
      → judge loads shown ask has_llm template program c q input below run ≡ Step.handled run'
      → IsSaving c run run'
  unfolding lead_data
  judge-IsSaving c q input none run run' b e = absurd (ground arith)
  judge-IsSaving c q input (some true) run run' b e = absurd (ground arith)
  judge-IsSaving c q input (some false) run run' b e =
      save_scored-IsSaving c q (lead_data loads shown ask q (score_of q) input) run run' e (λ d k.
        let same =
          lead_data_from-score q (score_of q) input (extract_pain_texts shown q)
            (field_of (or_empty_obj (text "identification") q) (text "business_type"))
            (field_of (or_empty_obj (text "outreach") q) (text "message")) d k in
        rw same b)

  judge_response-IsSaving :
      (c : Candidate) (v input : Json) (run run' : Run)
      → judge_response loads shown ask has_llm template program c v input run ≡ Step.handled run'
      → IsSaving c run run'
  judge_response-IsSaving c (Json.obj q) input run run' e =
      judge-IsSaving c q input (is_below (score_of q) program.min_score) run run' refl e
  judge_response-IsSaving c v input run run' e = absurd (ground arith)

  judge_result-IsSaving :
      (c : Candidate) (result : Fields) (run run' : Run)
      → judge_result loads shown ask has_llm template program c result run ≡ Step.handled run'
      → IsSaving c run run'
  judge_result-IsSaving c result run run' e = elim (Option-cases (get (text "error") result)) [
    | inr (message, failed) ↦ absurd (ground arith)
    | inl good ↦
        judge_response-IsSaving c (or_else (get (text "llm_response") result) (Json.obj Fields.end))
          (or_null (get (text "raw_input_prompt") result)) run run' (rw (good, judge_result) at e)
  ]

  pub process_candidate-IsSaving :
      (c : Candidate) (run run' : Run)
      → process_candidate loads shown ask has_llm template program c run ≡ Step.handled run'
      → IsSaving c run run'
  unfolding process_candidate
  process_candidate-IsSaving c run run' e = elim (Bool-cases (truthy (or_empty c.username))) [
    | inr nameless ↦ absurd (ground arith)
    | inl named ↦
        judge_result-IsSaving c
          (qualify_lead loads has_llm template c program.niche_description (ask c)) run run'
          (step_loaded run.expired _ run' (rw named at e))
  ]

  -- What every handled candidate keeps, the loop keeps, and it stops at the maximum when each of
  -- them counts for one.
  pub process_all-bounded :
      (P : Run → Type 0)
      → ((c : Candidate) (run run' : Run)
          → IsSaving c run run'
          → P run
          → P run' × (run'.qualified ≡ suc run.qualified))
      → (cs : List Candidate) (run out : Run)
      → process_all loads shown ask has_llm template program cs run ≡ some out
      → pos (suc run.qualified) ≤ℤ program.max_leads_per_run
      → P run
      → P out × (pos out.qualified ≤ℤ program.max_leads_per_run)
  unfolding process_all
  process_all-bounded P step [] run out e h g =
      let last : run ≡ out = eq_of_some e in
      subst (λ r. P r × (pos r.qualified ≤ℤ program.max_leads_per_run)) last (g, omega arith)
  process_all-bounded P step (c ∷ cs) run out e h g =
      elim (Step-cases (process_candidate loads shown ask has_llm template program c run)) [
        | inl raises ↦ absurd (ground arith)
        | inr (inl skips) ↦ process_all-bounded P step cs run out (ground arith) h g
        | inr (inr (run', done)) ↦
            let (next, count) = step c run run' (process_candidate-IsSaving c run run' done) g in
            elim (Bool-cases (leb_ℤ program.max_leads_per_run (pos run'.qualified))) [
              | inl full ↦
                  let last : run' ≡ out = ground arith in
                  subst (λ r. P r × (pos r.qualified ≤ℤ program.max_leads_per_run)) last
                    (next, omega (arith, count))
              | inr more ↦ process_all-bounded P step cs run' out (ground arith) (ground arith) next
            ]
      ]
