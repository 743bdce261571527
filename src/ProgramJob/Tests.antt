-- ===== src/ProgramJob/Tests.antt =====
-- Two jobs of a free user on two days: the first ends at the authorisation, the second is refused.
use lead_finder.Prelude.{ℕ, ◌≡◌, refl, true, false, Option, none, some, List, [], ◌∷◌, arith}
use lead_finder.Prelude.Int.{pos}
use lead_finder.Prelude.Text.{Text, text, text_eq}
use lead_finder.DateTime.{DateTime, instant, ordinal}
use lead_finder.Json.{Json}
use lead_finder.Models.{User, Program}
use lead_finder.Models.Table.{first_row, update_rows}
use lead_finder.Qualifier.Prompt.{Candidate}
use lead_finder.Qualifier.Qualify.{Answer}
use lead_finder.Subscription.{
  free, normalize_subscription, is_paid_user, check_weekly_analysis_limit, mark_analysis_started,
}
use lead_finder.Payments.{is_user}
use lead_finder.ProgramRunner.{parse_sources, run_program_pipeline}
use lead_finder.ProgramJob.{
  JobReply, Tables, ended, is_program_of, mark_user, run_marked, run_program_job,
}
use lead_finder.ProgramJob.Weekly.{run_program_job-once_a_week}

abbrev day : ℕ → DateTime
day d = record { year = 2025; month = 6; day = d; micros = 0 }

abbrev owner : User
owner = record {
  telegram_id = 4;
  username = none;
  services_description = none;
  subscription_type = free;
  subscription_expires_at = none;
  last_analysis_at = none;
  created_at = day 1;
  last_active_at = day 1;
}

abbrev program : Program
program = record {
  id = 8;
  user_id = 4;
  name = text "shops";
  niche_description = text "retail";
  min_score = pos 2;
  max_leads_per_run = pos 50;
  enrich = false;
  schedule_time = text "09:00";
  auto_collect_enabled = false;
  owner_chat_id = none;
  chats = record { id = 1; chat_username = text "shop" } ∷ [];
}

abbrev tables : List User → Tables
tables users = record {
  users = users;
  programs = program ∷ [];
  leads = [];
  next_lead_id = 1;
  next_pain_id = 1;
  bases = record { pains = []; clusters = []; next_id = 1 };
}

abbrev marked : User
marked = record owner { last_analysis_at = some (day 10) }

abbrev reads : Text → Option Json
reads s = none

abbrev shown : Json → Text
shown v = []

abbrev ask : Candidate → Answer
ask c = Answer.raised []

abbrev parse : Text → Option (List Candidate)
parse s = none

abbrev round2 : ℕ → ℕ → ℕ
round2 s n = 0

first_job :
    run_program_job reads shown ask parse true [] round2 true
      (Answer.raised [])
      (day 10)
      8
      4
      (tables (owner ∷ []))
    ≡ ended (tables (marked ∷ [])) JobReply.auth_required
unfolding run_program_job first_row is_program_of is_user check_weekly_analysis_limit is_paid_user
    normalize_subscription text_eq mark_user mark_analysis_started update_rows run_marked
    run_program_pipeline parse_sources
first_job = refl

found_program : first_row (is_program_of 8 4) (program ∷ []) ≡ some program
unfolding first_row is_program_of
found_program = refl

found_user : first_row (is_user (pos 4)) (owner ∷ []) ≡ some owner
unfolding first_row is_user
found_user = refl

allowed : (check_weekly_analysis_limit (day 10) owner).1 ≡ true
unfolding check_weekly_analysis_limit is_paid_user normalize_subscription text_eq
allowed = refl

unpaid :
    (is_paid_user
      (day 13)
      (mark_analysis_started (day 10) (check_weekly_analysis_limit (day 10) owner).0)).1
    ≡ false
unfolding check_weekly_analysis_limit is_paid_user normalize_subscription text_eq
    mark_analysis_started
unpaid = refl

run_program_job-once_a_week_example :
    run_program_job reads shown ask parse true [] round2 true
      (Answer.raised [])
      (day 13)
      8
      4
      (tables (marked ∷ []))
    ≡ ended (tables (marked ∷ [])) (
        JobReply.limited
          (check_weekly_analysis_limit
            (day 13)
            (mark_analysis_started (day 10) (check_weekly_analysis_limit (day 10) owner).0)).2)
run_program_job-once_a_week_example =
    run_program_job-once_a_week reads shown ask parse true [] round2 true (Answer.raised [])
      (day 10) (day 13) 8 8 4 (tables (owner ∷ [])) (tables (marked ∷ [])) found_program found_user
      allowed unpaid (unfold instant ordinal in omega arith) (rw first_job refl) found_program
