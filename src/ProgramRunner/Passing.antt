-- ===== src/ProgramRunner/Passing.antt =====
-- The leads of a run: how many there are, that they pass, and that the table stays without
-- duplicates.
use lead_finder.Prelude.{
  ℕ, suc, ◌+◌, ◌≡◌, refl, sym, ap, ◌∙◌, subst, Bool, true, false, ◌&&◌, ◌||◌, Option, none, some,
  List, [], ◌∷◌, ◌++◌, arith, Option-cases, Bool-cases, inl, inr, length, ◌==◌,
}
use lead_finder.Prelude.Int.{pos, ◌≤ℤ◌}
use lead_finder.Prelude.Text.{Text, text_eq, text_eq_iff, or_empty}
use lead_finder.Json.{Json, Fields}
use lead_finder.Models.{Program, ProgramChat, Lead}
use lead_finder.Models.Table.{All, first_row, update_rows, first_row-test}
use lead_finder.PainStore.{PainStore}
use lead_finder.PainSaver.{save_pains_from_lead}
use lead_finder.Qualifier.Prompt.{Candidate}
use lead_finder.Qualifier.Qualify.{Answer}
use lead_finder.ProgramRunner.{
  Run, RunResult, LeadData, is_below, is_program, is_lead_of, has_lead_key, write_lead, new_lead,
  notify, save_lead, add_pains, process_all, parse_sources, finish, run_sources,
  run_program_pipeline,
}
use lead_finder.ProgramRunner.Steps.{IsSaving, process_all-bounded}

-- A lead that stands beside others with its program and username; one of no program never does.
unfoldable pub is_taken : Option ℕ → Text → List Lead → Bool
is_taken none username leads = false
is_taken (some p) username leads = has_lead_key p username leads

-- "uq_lead_program_username"
abbrev pub HasUniqueLeads : List Lead → Type 0
HasUniqueLeads [] = Unit
HasUniqueLeads (l ∷ ls) = (is_taken l.program_id l.telegram_username ls ≡ false) × HasUniqueLeads ls

has_lead_key-update :
    (p : ℕ) (username : Text) (test : Lead → Bool) (d : LeadData) (leads : List Lead)
    → has_lead_key p username (update_rows test (write_lead d) leads)
      ≡ has_lead_key p username leads
unfolding has_lead_key update_rows write_lead
has_lead_key-update p username test d [] = refl
has_lead_key-update p username test d (l ∷ ls) =
    ground (arith, has_lead_key-update p username test d ls)

is_taken-update :
    (p : Option ℕ) (username : Text) (test : Lead → Bool) (d : LeadData) (leads : List Lead)
    → is_taken p username (update_rows test (write_lead d) leads) ≡ is_taken p username leads
unfolding is_taken
is_taken-update none username test d leads = refl
is_taken-update (some p) username test d leads = has_lead_key-update p username test d leads

update-HasUniqueLeads :
    (test : Lead → Bool) (d : LeadData) (leads : List Lead)
    → HasUniqueLeads leads
    → HasUniqueLeads (update_rows test (write_lead d) leads)
unfolding update_rows write_lead
update-HasUniqueLeads test d [] h = tt
update-HasUniqueLeads test d (l ∷ ls) h =
    let rest = update-HasUniqueLeads test d ls h.1 in
    let free = is_taken-update l.program_id l.telegram_username test d ls ∙ h.0 in
    elim (Bool-cases (test l)) [ inl hit ↦ rw hit (free, rest) | inr miss ↦ rw miss (free, rest) ]

has_lead_key-append :
    (p : ℕ) (username : Text) (leads : List Lead) (n : Lead)
    → has_lead_key p username (leads ++ n ∷ []) ≡ (
        has_lead_key p username leads
        || is_program p n.program_id && text_eq n.telegram_username username)
unfolding has_lead_key
has_lead_key-append p username [] n = ground arith
has_lead_key-append p username (l ∷ ls) n = ground (arith, has_lead_key-append p username ls n)

is_taken-append :
    (program_id p : ℕ) (own : Option ℕ) (username : Text) (leads : List Lead) (n : Lead)
    → n.program_id ≡ some p
    → is_taken own username leads ≡ false
    → (is_program p own && text_eq username n.telegram_username) ≡ false
    → is_taken own username (leads ++ n ∷ []) ≡ false
unfolding is_taken is_program
is_taken-append program_id p none username leads n e h k = refl
is_taken-append program_id p (some q) username leads n e h k = ground (
  arith,
  has_lead_key-append q username leads n,
  text_eq_iff username n.telegram_username,
  text_eq_iff n.telegram_username username,
)

append-HasUniqueLeads :
    (p : ℕ) (leads : List Lead) (n : Lead)
    → n.program_id ≡ some p
    → HasUniqueLeads leads
    → has_lead_key p n.telegram_username leads ≡ false
    → HasUniqueLeads (leads ++ n ∷ [])
unfolding has_lead_key is_taken
append-HasUniqueLeads p [] n e h k = (rw e refl, tt)
append-HasUniqueLeads p (l ∷ ls) n e h k = (
  is_taken-append p p l.program_id l.telegram_username ls n e h.0 (ground arith),
  append-HasUniqueLeads p ls n e h.1 (ground arith),
)

-- A lead that a run of the program may hand on.
pub record IsPassing (program : Program) (lead : Lead) : Type 0 where
  pub owner : lead.user_id ≡ program.user_id
  pub program_id : is_program program.id lead.program_id ≡ true
  pub score : is_below lead.qualification_score program.min_score ≡ some false

pub record IsRunning (program : Program) (run : Run) : Type 0 where
  pub counted : length run.notified ≡ run.qualified
  pub passing : All (IsPassing program) run.notified
  pub unique : HasUniqueLeads run.leads

module _ (program : Program) where
  save_lead-IsRunning :
      (username : Text) (d : LeadData) (run run' : Run)
      → is_below d.score program.min_score ≡ some false
      → save_lead program.user_id program.id username d run ≡ some run'
      → IsRunning program run
      → IsRunning program run' × (run'.qualified ≡ suc run.qualified)
  unfolding save_lead
  save_lead-IsRunning username d run run' p e g =
      elim (Option-cases (first_row (is_lead_of program.user_id program.id username) run.leads)) [
        | inr (lead, found) ↦
            let mine =
              first_row-test (is_lead_of program.user_id program.id username) run.leads lead
                found in
            let next =
              notify (update_rows (λ r. r.id == lead.id) (write_lead d) run.leads) run.next_id
                (write_lead d lead) run in
            let done : next ≡ run' = ground arith in
            subst (λ r. IsRunning program r × (r.qualified ≡ suc run.qualified)) done
              (
                record {
                  counted = ap suc g.counted;
                  passing = (
                    unfold write_lead is_lead_of in
                        record { owner = ground arith; program_id = ground arith; score = p },
                    g.passing,
                  );
                  unique = update-HasUniqueLeads (λ r. r.id == lead.id) d run.leads g.unique;
                },
                refl,
              )
        | inl missing ↦ elim (Bool-cases (has_lead_key program.id username run.leads)) [
          | inl taken ↦ absurd (ground arith)
          | inr free ↦
              let lead = new_lead run.next_id program.user_id program.id username d in
              let next = notify (run.leads ++ lead ∷ []) (suc run.next_id) lead run in
              let done : next ≡ run' = ground arith in
              subst (λ r. IsRunning program r × (r.qualified ≡ suc run.qualified)) done
                (
                  record {
                    counted = ap suc g.counted;
                    passing = (
                      unfold new_lead is_program in
                          record { owner = refl; program_id = ground arith; score = p },
                      g.passing,
                    );
                    unique =
                        unfold new_lead in
                        append-HasUniqueLeads program.id run.leads lead refl g.unique free;
                  },
                  refl,
                )
        ]
      ]

module _ (loads : Text → Option Json) (shown : Json → Text) (ask : Candidate → Answer)
    (has_llm : Bool) (template : Text) (program : Program) where
  -- The pains of a lead touch nothing else.
  add_pains-IsRunning :
      (c : Candidate) (q : Fields) (run : Run)
      → IsRunning program run
      → let after = add_pains loads shown ask program.user_id program.id c q run in
        IsRunning program after × (after.qualified ≡ run.qualified)
  unfolding add_pains
  add_pains-IsRunning c q run g =
      elim (Option-cases (save_pains_from_lead shown program.user_id program.id c q run.store)) [
        | inl raised ↦
            let same : add_pains loads shown ask program.user_id program.id c q run
                ≡ record run { expired = true } =
              rw (raised, add_pains) refl in
            rw same (record { counted = g.counted; passing = g.passing; unique = g.unique }, refl)
        | inr (r, saved) ↦
            let same : add_pains loads shown ask program.user_id program.id c q run
                ≡ record run { store = r.0; pains_saved = run.pains_saved + r.1 } =
              rw (saved, add_pains) refl in
            rw same (record { counted = g.counted; passing = g.passing; unique = g.unique }, refl)
      ]

  step-IsRunning :
      (c : Candidate) (run run' : Run)
      → IsSaving loads shown ask has_llm template program c run run'
      → IsRunning program run
      → IsRunning program run' × (run'.qualified ≡ suc run.qualified)
  step-IsRunning c run run' s g =
      let (kept, one) =
        save_lead-IsRunning program (or_empty c.username) s.data_of run s.mid s.passes s.lead g in
      let (after, same) = add_pains-IsRunning c s.answer s.mid kept in
      subst (λ r. IsRunning program r × (r.qualified ≡ suc run.qualified)) s.pains
        (after, same ∙ one)

module _ (loads : Text → Option Json) (shown : Json → Text) (ask : Candidate → Answer)
    (parse : Text → Option (List Candidate)) (has_llm : Bool) (template : Text)
    (program : Program) where
  finish-IsRunning :
      (found : ℕ) (out : Option Run) (start r : Run) {name : Text} {n q s : ℕ}
      → ((o : Run)
          → out ≡ some o
          → IsRunning program o × (pos o.qualified ≤ℤ program.max_leads_per_run))
      → finish loads shown ask parse has_llm template program.name found out
        ≡ some (r, RunResult.finished name n q s)
      → IsRunning program r × (q ≡ length r.notified) × (pos q ≤ℤ program.max_leads_per_run)
  finish-IsRunning found none start r k e = absurd (ground arith)
  finish-IsRunning found (some o) start r {q = q} k e =
      let (g, bound) = k o refl in
      let last : o ≡ r = ground arith in
      let count : o.qualified ≡ q = ground arith in
      let kept = subst (IsRunning program) last g in
      (kept, sym count ∙ ap (λ (x : Run). x.qualified) last ∙ sym kept.counted, rw (← count) bound)

  run_sources-IsRunning :
      (chats : List ProgramChat) (start r : Run) {name : Text} {n q s : ℕ}
      → IsRunning program start
      → pos (suc start.qualified) ≤ℤ program.max_leads_per_run
      → run_sources loads shown ask parse has_llm template program chats start
        ≡ some (r, RunResult.finished name n q s)
      → IsRunning program r × (q ≡ length r.notified) × (pos q ≤ℤ program.max_leads_per_run)
  run_sources-IsRunning [] start r g h e = absurd (ground arith)
  run_sources-IsRunning (chat ∷ chats) start r g h e =
      elim (Option-cases (parse_sources parse (chat ∷ chats))) [
        | inl wanted ↦ absurd (ground arith)
        | inr (found, parsed) ↦
            finish-IsRunning (length found)
              (process_all loads shown ask has_llm template program found start) start r
              (λ o k.
                process_all-bounded loads shown ask has_llm template program (IsRunning program)
                  (step-IsRunning loads shown ask has_llm template program) found start o k h g)
              (rw (parsed, run_sources) at e)
      ]

  -- A run that finishes, with a maximum of at least one lead and a table without two leads of the
  -- same program and username, reports exactly the leads that it handed on, and no more than the
  -- maximum. Each of them is of the program and its user and has a score that is not below the
  -- program's threshold, and the table still has no two leads of the same program and username.
  pub run_program_pipeline-IsRunning :
      (leads : List Lead) (next_id : ℕ) (store : PainStore) {r : Run} {name : Text} {n q s : ℕ}
      → pos 1 ≤ℤ program.max_leads_per_run
      → HasUniqueLeads leads
      → run_program_pipeline loads shown ask parse has_llm template program leads next_id store
        ≡ some (r, RunResult.finished name n q s)
      → IsRunning program r × (q ≡ length r.notified) × (pos q ≤ℤ program.max_leads_per_run)
  unfolding run_program_pipeline
  run_program_pipeline-IsRunning leads next_id store {r} m u e =
      run_sources-IsRunning program.chats _ r (record { counted = refl; passing = tt; unique = u })
        (omega arith) e
