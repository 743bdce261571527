-- ===== src/ProgramRunner/Tests.antt =====
-- A run over two candidates of one chat: the first passes and reaches the maximum.
use lead_finder.Prelude.{◌≡◌, refl, true, false, Option, none, some, List, [], ◌∷◌, arith, length}
use lead_finder.Prelude.Int.{pos, ◌≤ℤ◌}
use lead_finder.Prelude.Text.{Text, text, text_eq, strip, starts_with, contains, lower, lower_char}
use lead_finder.Json.{Json, Fields, get, put, merge}
use lead_finder.Models.{Program}
use lead_finder.Models.Table.{first_row}
use lead_finder.PainStore.{PainStore}
use lead_finder.Qualifier.Payload.{extract_json_payload, unfence, rfind}
use lead_finder.Qualifier.Recovery.{find, slice}
use lead_finder.Qualifier.Prompt.{Candidate, freshness_summary}
use lead_finder.Qualifier.Qualify.{
  Answer, qualify_lead, score_parsed, or_empty_dict, score_qualified, score_reasoning,
  score_qualification, scored_response, result_of, has_cant_solve, has_vague_reasoning, any_in,
}
use lead_finder.PainSaver.{extract_pain_texts, pain_texts, save_pains_from_lead}
use lead_finder.ProgramRunner.{
  Run, RunResult, is_below, score_of, summary_of, lead_data, has_lead_key, new_lead, save_lead,
  add_pains, process_candidate, process_all, parse_sources, run_program_pipeline,
}
use lead_finder.ProgramRunner.Passing.{IsRunning, run_program_pipeline-IsRunning}

abbrev program : Program
program = record {
  id = 8;
  user_id = 4;
  name = text "shops";
  niche_description = text "retail";
  min_score = pos 2;
  max_leads_per_run = pos 1;
  enrich = false;
  schedule_time = text "09:00";
  auto_collect_enabled = false;
  owner_chat_id = none;
  chats = record { id = 1; chat_username = text "shop" } ∷ [];
}

abbrev candidate : Text → Candidate
candidate username = record {
  user_id = 9;
  username = some username;
  first_name = none;
  last_name = none;
  bio = none;
  source_chat = text "@shop";
  source_chat_username = none;
  messages_in_chat = 1;
  messages_with_metadata = [];
}

abbrev answer : Fields
answer =
    Fields.field (text "qualification")
      (Json.obj (
        Fields.field (text "score") (Json.int (pos 4))
          (Fields.field (text "reasoning") (Json.str (text "ok")) Fields.end)))
      Fields.end

abbrev reads : Text → Option Json
reads s = some (Json.obj answer)

abbrev shown : Json → Text
shown v = []

abbrev ask : Candidate → Answer
ask c = Answer.content (text "{}")

abbrev parse : Text → Option (List Candidate)
parse s = some (candidate (text "anna") ∷ candidate (text "boris") ∷ [])

abbrev empty : PainStore
empty = record { stored = []; pending = []; next_id = 1 }

abbrev result : Option (Run × RunResult)
result = run_program_pipeline reads shown ask parse true (b'p' ∷ []) program [] 1 empty

abbrev run_in : Option (Run × RunResult) → Run
run_in (some r) = r.0
run_in none = record {
  leads = [];
  next_id = 0;
  store = empty;
  notified = [];
  qualified = 0;
  pains_saved = 0;
  expired = false;
}

ran : result ≡ some (run_in result, RunResult.finished (text "shops") 2 1 0)
unfolding run_program_pipeline parse_sources process_all process_candidate qualify_lead
    extract_json_payload unfence strip starts_with find rfind slice score_parsed or_empty_dict get
    text_eq score_qualified score_reasoning lower lower_char score_qualification has_cant_solve
    has_vague_reasoning any_in contains scored_response put result_of merge freshness_summary
    is_below score_of lead_data extract_pain_texts pain_texts summary_of save_lead first_row
    has_lead_key new_lead add_pains save_pains_from_lead
ran = refl

run_program_pipeline-IsRunning_example :
    IsRunning program (run_in result) × (1 ≡ length (run_in result).notified) × (pos 1 ≤ℤ pos 1)
run_program_pipeline-IsRunning_example =
    run_program_pipeline-IsRunning reads shown ask parse true (b'p' ∷ []) program [] 1 empty
      (omega arith) tt ran
