-- ===== src/ProgramRunner.antt =====
-- bot/services/program_runner.py, `run_program_pipeline`: the candidates of a program's chats are
-- scored, and those that pass become leads, with their pains. `parse` gives the candidates of a
-- source, `none` where Telegram wants an authorisation; `ask` is the model's answer on a candidate.
-- `none` as a result is a raised exception. Column types and lengths are not checked.
pub mod Steps
pub mod Passing
mod Tests
use lead_finder.Prelude.{
  ℕ, suc, ◌+◌, ◌-◌, ◌*◌, ◌^◌, Bool, true, false, ◌&&◌, ◌||◌, not, Option, none, some, List, [], ◌∷◌,
  ◌++◌, ◌==◌, if◌then◌else◌, length, leb,
}
use lead_finder.Prelude.Int.{ℤ, pos, negsuc, ltb_ℤ, leb_ℤ}
use lead_finder.Prelude.Text.{Text, text, text_eq, truthy, or_empty}
use lead_finder.Json.{Json, Fields, get, get_or, truth}
use lead_finder.Models.{User, Program, ProgramChat, Lead}
use lead_finder.Models.Table.{first_row, update_rows}
use lead_finder.PainStore.{PainStore}
use lead_finder.Qualifier.Payload.{join}
use lead_finder.Qualifier.Prompt.{Candidate, number}
use lead_finder.Qualifier.Qualify.{Answer, qualify_lead}
use lead_finder.PainSaver.{or_else, field_of, extract_pain_texts, save_pains_from_lead}

-- What the pipeline returns.
pub data RunResult : Type 0 where
  no_sources auth_required : RunResult
  finished : Text → ℕ → ℕ → ℕ → RunResult

-- The session, and what the run has done so far: `notified` are the leads that were handed to
-- `on_lead_found`, the latest first. A rollback expires the program's row, which an asynchronous
-- session cannot load again on access (`expired`).
pub record Run : Type 0 where
  pub leads : List Lead
  pub next_id : ℕ
  pub store : PainStore
  pub notified : List Lead
  pub qualified : ℕ
  pub pains_saved : ℕ
  pub expired : Bool

-- `n * k` for a positive `k`.
abbrev pub scale : ℤ → ℕ → ℤ
scale (pos n) k = pos (n * k)
scale (negsuc n) k = negsuc (suc n * k - 1)

-- `score < min_score`; `none` is the `TypeError` for a score that is no number.
unfoldable pub is_below : Json → ℤ → Option Bool
is_below (Json.int s) m = some (ltb_ℤ s m)
is_below (Json.bool b) m = some (ltb_ℤ (pos (if b then 1 else 0)) m)
is_below (Json.float s e) m = some (ltb_ℤ s (scale m (10 ^ e)))
is_below v m = none

-- `qual_details.get("score", 0) if isinstance(qual_details, dict) else 0`
abbrev pub score_in : Json → Json
score_in (Json.obj fs) = get_or (text "score") (number 0) fs
score_in v = number 0

unfoldable pub score_of : Fields → Json
score_of qualification =
    score_in (or_else (get (text "qualification") qualification) (Json.obj Fields.end))

-- `lead_data`
pub record LeadData : Type 0 where
  pub score : Json
  pub business_summary : Json
  pub pains_summary : Option Text
  pub solution_idea : Json
  pub recommended_message : Json
  pub raw_qualification : Json
  pub raw_llm_input : Json

unfoldable pub summary_of : List Text → Option Text
summary_of [] = none
summary_of (t ∷ ts) = some (text "• " ++ join (text "\n• ") (t ∷ ts))

abbrev pub or_null : Option Json → Json
or_null none = Json.null
or_null (some v) = v

-- `product_idea.get("idea") if isinstance(product_idea, dict) else None`
abbrev pub idea_in : Json → Json
idea_in (Json.obj fs) = or_null (get (text "idea") fs)
idea_in v = Json.null

abbrev pub or_empty_obj : Text → Fields → Json
or_empty_obj key fs = or_else (get key fs) (Json.obj Fields.end)

-- `v[:100] if v else None` in the log does not raise.
abbrev pub can_slice : Json → Bool
can_slice (Json.str s) = true
can_slice (Json.arr xs) = true
can_slice v = not (truth v)

abbrev pub lead_data_from :
    Fields
    → Json
    → Json
    → Option (List Text)
    → Option (Option Json)
    → Option (Option Json)
    → Option LeadData
lead_data_from q score input (some pains) (some business) (some message) =
    let idea = idea_in (or_empty_obj (text "product_idea") q) in
    if can_slice idea && can_slice (or_null message)
    then some (record {
      score = score;
      business_summary = or_null business;
      pains_summary = summary_of pains;
      solution_idea = idea;
      recommended_message = or_null message;
      raw_qualification = Json.obj q;
      raw_llm_input = input;
    })
    else none
lead_data_from q score input pains business message = none

unfoldable pub write_lead : LeadData → Lead → Lead
write_lead d lead = record lead {
  qualification_score = d.score;
  business_summary = d.business_summary;
  pains_summary = d.pains_summary;
  solution_idea = d.solution_idea;
  recommended_message = d.recommended_message;
  raw_qualification_data = d.raw_qualification;
  raw_llm_input = d.raw_llm_input;
}

unfoldable pub is_program : ℕ → Option ℕ → Bool
is_program program_id none = false
is_program program_id (some q) = q == program_id

-- The query for an existing lead.
unfoldable pub is_lead_of : ℕ → ℕ → Text → Lead → Bool
is_lead_of user_id program_id username l =
    l.user_id == user_id
    && (is_program program_id l.program_id && text_eq l.telegram_username username)

-- A row that "uq_lead_program_username" does not let stand beside a new one.
unfoldable pub has_lead_key : ℕ → Text → List Lead → Bool
has_lead_key program_id username [] = false
has_lead_key program_id username (l ∷ ls) =
    is_program program_id l.program_id && text_eq l.telegram_username username
    || has_lead_key program_id username ls

-- A qualified lead, counted and handed to the callback.
abbrev pub notify : List Lead → ℕ → Lead → Run → Run
notify leads next_id lead run = record run {
  leads = leads;
  next_id = next_id;
  notified = lead ∷ run.notified;
  qualified = suc run.qualified;
}

unfoldable pub new_lead : ℕ → ℕ → ℕ → Text → LeadData → Lead
new_lead id user_id program_id username d = record {
  id = id;
  user_id = user_id;
  program_id = some program_id;
  telegram_username = username;
  status = text "new";
  qualification_score = d.score;
  business_summary = d.business_summary;
  pains_summary = d.pains_summary;
  solution_idea = d.solution_idea;
  recommended_message = d.recommended_message;
  raw_qualification_data = d.raw_qualification;
  raw_llm_input = d.raw_llm_input;
}

-- From the query for the lead to the callback.
unfoldable pub save_lead : ℕ → ℕ → Text → LeadData → Run → Option Run
save_lead user_id program_id username d run =
    elim (first_row (is_lead_of user_id program_id username) run.leads) [
      | some lead ↦ some (
          notify (update_rows (λ r. r.id == lead.id) (write_lead d) run.leads) run.next_id
            (write_lead d lead) run)
      | none ↦ elim (has_lead_key program_id username run.leads) [
        | true ↦ none
        | false ↦
            let lead = new_lead run.next_id user_id program_id username d in
            some (notify (run.leads ++ lead ∷ []) (suc run.next_id) lead run)
      ]
    ]

-- What the loop's body did: it raised, met a `continue`, or reached its end.
pub data Step : Type 0 where
  raised skipped : Step
  handled : Run → Step

module _ (loads : Text → Option Json) (shown : Json → Text) (ask : Candidate → Answer) where
  -- The pains of a saved lead: whatever is raised there is rolled back, which expires the program.
  unfoldable pub add_pains : ℕ → ℕ → Candidate → Fields → Run → Run
  add_pains user_id program_id c q run =
      elim (save_pains_from_lead shown user_id program_id c q run.store) [
        | none ↦ record run { expired = true }
        | some r ↦ record run { store = r.0; pains_saved = run.pains_saved + r.1 }
      ]

  unfoldable pub lead_data : Fields → Json → Json → Option LeadData
  lead_data q score input =
      lead_data_from q score input (extract_pain_texts shown q)
        (field_of (or_empty_obj (text "identification") q) (text "business_type"))
        (field_of (or_empty_obj (text "outreach") q) (text "message"))

  module _ (has_llm : Bool) (template : Text) (program : Program) where
    abbrev pub save_scored : Candidate → Fields → Option LeadData → Run → Step
    save_scored c q none run = raised
    save_scored c q (some d) run =
        elim (save_lead program.user_id program.id (or_empty c.username) d run) [
          | none ↦ raised
          | some run' ↦ handled (add_pains program.user_id program.id c q run')
        ]

    -- The comparison with the program's threshold.
    abbrev pub judge : Candidate → Fields → Json → Option Bool → Run → Step
    judge c q input none run = raised
    judge c q input (some true) run = skipped
    judge c q input (some false) run = save_scored c q (lead_data q (score_of q) input) run

    -- `qualification_result_data.get("llm_response") or {}` is a dict where there is no error.
    abbrev pub judge_response : Candidate → Json → Json → Run → Step
    judge_response c (Json.obj q) input run =
        judge c q input (is_below (score_of q) program.min_score) run
    judge_response c v input run = raised

    abbrev pub judge_result : Candidate → Fields → Run → Step
    judge_result c result run = elim (get (text "error") result) [
      | some e ↦ skipped
      | none ↦
          judge_response c (or_else (get (text "llm_response") result) (Json.obj Fields.end))
            (or_null (get (text "raw_input_prompt") result)) run
    ]

    unfoldable pub process_candidate : Candidate → Run → Step
    process_candidate c run =
        if truthy (or_empty c.username)
        then if run.expired
          then raised
          else judge_result c
              (qualify_lead loads has_llm template c program.niche_description (ask c)) run
        else skipped

    -- The loop: it ends after a lead that reaches `max_leads_per_run`.
    unfoldable pub process_all : List Candidate → Run → Option Run
    process_all [] run = some run
    process_all (c ∷ cs) run = elim (process_candidate c run) [
      | raised ↦ none
      | skipped ↦ process_all cs run
      | handled run' ↦
          let rest = process_all cs run' in
          if leb_ℤ program.max_leads_per_run (pos run'.qualified) then some run' else rest
    ]

-- The candidates of all sources; `none` is the `AuthorizationRequiredError`.
unfoldable pub parse_sources :
    (Text → Option (List Candidate)) → List ProgramChat → Option (List Candidate)
parse_sources parse [] = some []
parse_sources parse (chat ∷ chats) = elim (parse chat.chat_username) [
  | none ↦ none
  | some found ↦ elim (parse_sources parse chats) [ none ↦ none | some more ↦ some (found ++ more) ]
]

module _ (loads : Text → Option Json) (shown : Json → Text) (ask : Candidate → Answer)
    (parse : Text → Option (List Candidate)) (has_llm : Bool) (template : Text) where
  abbrev pub finish : Text → ℕ → Option Run → Option (Run × RunResult)
  finish name found none = none
  finish name found (some r) = some (r, finished name found r.qualified r.pains_saved)

  abbrev pub run_sources : Program → List ProgramChat → Run → Option (Run × RunResult)
  run_sources program [] run = some (run, no_sources)
  run_sources program (chat ∷ chats) run = elim (parse_sources parse (chat ∷ chats)) [
    | none ↦ some (run, auth_required)
    | some found ↦
        finish program.name (length found)
          (process_all loads shown ask has_llm template program found run)
  ]

  -- `leads`, `next_id` and `store` are the tables before the run.
  unfoldable pub run_program_pipeline :
      Program → List Lead → ℕ → PainStore → Option (Run × RunResult)
  run_program_pipeline program leads next_id store = run_sources program program.chats (record {
    leads = leads;
    next_id = next_id;
    store = store;
    notified = [];
    qualified = 0;
    pains_saved = 0;
    expired = false;
  })
