-- ===== src/ProgramJob.antt =====
-- bot/services/program_runner.py, `_run_program_job_inner`: one run of a program for its owner,
-- with the weekly limit before it and the clustering after it. `now` is the clock at each check,
-- and the other parameters are those of ProgramRunner and PainClusterer.
pub mod Weekly
mod Tests
use lead_finder.Prelude.{
  ℕ, suc, Bool, true, false, ◌&&◌, Option, none, some, List, [], ◌∷◌, ◌==◌, ltb, if◌then◌else◌,
  length,
}
use lead_finder.Prelude.Int.{ℤ, pos}
use lead_finder.Prelude.Text.{Text}
use lead_finder.DateTime.{DateTime}
use lead_finder.Json.{Json}
use lead_finder.Models.{User, Program, Lead}
use lead_finder.Models.Table.{first_row, update_rows}
use lead_finder.PainStore.{PainStore}
use lead_finder.Qualifier.Prompt.{Candidate}
use lead_finder.Qualifier.Qualify.{Answer}
use lead_finder.Subscription.{check_weekly_analysis_limit, mark_analysis_started}
use lead_finder.Payments.{is_user}
use lead_finder.ProgramRunner.{Run, RunResult, run_program_pipeline}
use lead_finder.PainClusterer.{ClusterBase, cluster_new_pains}

-- The last message that the user gets; `limited` carries the days, `done` the number of cards, and
-- `failed` is a raised exception.
pub data JobReply : Type 0 where
  program_deleted no_profile auth_required failed : JobReply
  limited : ℤ → JobReply
  done : ℕ → JobReply

-- The tables that a job reads and writes.
pub record Tables : Type 0 where
  pub users : List User
  pub programs : List Program
  pub leads : List Lead
  pub next_lead_id : ℕ
  pub next_pain_id : ℕ
  pub bases : ClusterBase

-- How a job ends: the users, with the mark, and the tables; where the pipeline raises, the tables
-- depend on what it had committed, and are `none`.
pub record JobOutcome : Type 0 where
  pub users : List User
  pub tables : Option Tables
  pub reply : JobReply

abbrev pub ended : Tables → JobReply → JobOutcome
ended t reply = record { users = t.users; tables = some t; reply = reply }

-- `Program.id == program_id, Program.user_id == chat_id`
unfoldable pub is_program_of : ℕ → ℕ → Program → Bool
is_program_of program_id chat_id p = p.id == program_id && p.user_id == chat_id

-- The user's row with the mark.
unfoldable pub mark_user : DateTime → ℕ → User → Tables → Tables
mark_user now chat_id user t = record t {
  users = update_rows (is_user (pos chat_id)) (λ _. mark_analysis_started now user) t.users;
}

module _ (loads : Text → Option Json) (shown : Json → Text) (ask : Candidate → Answer)
    (parse : Text → Option (List Candidate)) (has_llm : Bool) (template : Text) (round2 : ℕ → ℕ → ℕ)
    (enabled : Bool) (cluster_answer : Answer) (now : DateTime) where
  -- `if pains_saved > 0`: a failed clustering is rolled back.
  unfoldable pub cluster_after : ℕ → ℕ → ClusterBase → ClusterBase
  cluster_after program_id saved b =
      if ltb 0 saved
      then elim (cluster_new_pains loads round2 now program_id enabled has_llm cluster_answer b) [
        | none ↦ b
        | some r ↦ r.0
      ]
      else b

  -- The tables after a run, from what the run left.
  abbrev pub after_run : Tables → Run → Tables
  after_run t r = record t {
    leads = r.leads;
    next_lead_id = r.next_id;
    next_pain_id = r.store.next_id;
    bases = record t.bases { pains = r.store.stored };
  }

  -- What follows the pipeline. A result with an error has no "program_name", so the message about
  -- it raises.
  abbrev pub conclude : ℕ → Tables → Option (Run × RunResult) → JobOutcome
  conclude program_id t none = record { users = t.users; tables = none; reply = failed }
  conclude program_id t (some (r, RunResult.no_sources)) = ended t failed
  conclude program_id t (some (r, RunResult.auth_required)) = ended t auth_required
  conclude program_id t (some (r, RunResult.finished name found qualified saved)) =
      let u = after_run t r in
      ended (record u { bases = cluster_after program_id saved u.bases }) (done (length r.notified))

  -- The run itself, once the analysis has been marked and committed.
  unfoldable pub run_marked : Program → Tables → JobOutcome
  run_marked program t = conclude program.id t (
      run_program_pipeline loads shown ask parse has_llm template program t.leads t.next_lead_id
        (record { stored = t.bases.pains; pending = []; next_id = t.next_pain_id }))

  -- A refused run is not committed, so the user's row stays as it is.
  abbrev pub run_checked : ℕ → Program → Tables → User × Bool × ℤ → JobOutcome
  run_checked chat_id program t (user, true, days_left) =
      run_marked program (mark_user now chat_id user t)
  run_checked chat_id program t (user, false, days_left) = ended t (limited days_left)

  unfoldable pub run_program_job : ℕ → ℕ → Tables → JobOutcome
  run_program_job program_id chat_id t =
      elim (first_row (is_program_of program_id chat_id) t.programs) [
        | none ↦ ended t program_deleted
        | some program ↦ elim (first_row (is_user (pos chat_id)) t.users) [
          | none ↦ ended t no_profile
          | some user ↦ run_checked chat_id program t (check_weekly_analysis_limit now user)
        ]
      ]
