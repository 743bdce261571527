-- ===== src/ProgramJob/Weekly.antt =====
-- One analysis a week on the free plan, over two jobs.
use lead_finder.Prelude.{
  ℕ, ◌+◌, ◌<◌, ◌≡◌, refl, ◌∙◌, Bool, true, false, Option, none, some, List, arith, Bool-cases, inl,
  inr,
}
use lead_finder.Prelude.Int.{ℤ, pos}
use lead_finder.Prelude.Text.{Text}
use lead_finder.DateTime.{DateTime, instant}
use lead_finder.Json.{Json}
use lead_finder.Models.{User, Program}
use lead_finder.Models.Table.{first_row, update_rows, first_row-test, first_row-update_rows}
use lead_finder.Qualifier.Prompt.{Candidate}
use lead_finder.Qualifier.Qualify.{Answer}
use lead_finder.Subscription.{
  normalize_subscription, is_paid_user, week_micros, check_weekly_analysis_limit,
  mark_analysis_started,
}
use lead_finder.Subscription.Weekly.{check_after_mark}
use lead_finder.Payments.{is_user}
use lead_finder.ProgramRunner.{Run, RunResult}
use lead_finder.ProgramJob.{
  JobReply, Tables, ended, is_program_of, conclude, run_marked, mark_user, run_checked,
  run_program_job,
}

is_user-marked :
    (now : DateTime) (chat_id : ℕ) (user : User)
    → is_user (pos chat_id) user ≡ true
    → is_user (pos chat_id) (mark_analysis_started now (check_weekly_analysis_limit now user).0)
      ≡ true
unfolding is_user mark_analysis_started check_weekly_analysis_limit is_paid_user
    normalize_subscription
is_user-marked now chat_id user h = ground arith

refused-again :
    (now later : DateTime) (user : User)
    → (is_paid_user later (mark_analysis_started now user)).1 ≡ false
    → instant later < instant now + week_micros
    → (check_weekly_analysis_limit later (mark_analysis_started now user)).1 ≡ false
refused-again now later user unpaid soon =
    elim (Bool-cases (check_weekly_analysis_limit later (mark_analysis_started now user)).1) [
      | inr refused ↦ refused
      | inl allowed ↦ elim ((check_after_mark now later user).0 allowed) [
        | inl pays ↦ absurd (ground arith)
        | inr week ↦ absurd (omega arith)
      ]
    ]

module _ (loads : Text → Option Json) (shown : Json → Text) (ask : Candidate → Answer)
    (parse : Text → Option (List Candidate)) (has_llm : Bool) (template : Text) (round2 : ℕ → ℕ → ℕ)
    (enabled : Bool) (cluster_answer : Answer) where
  users-conclude :
      (now : DateTime) (program_id : ℕ) (t : Tables) (r : Option (Run × RunResult))
      → (conclude loads shown ask parse has_llm template round2 enabled cluster_answer now
          program_id t r).users
        ≡ t.users
  users-conclude now program_id t none = refl
  users-conclude now program_id t (some (r, RunResult.no_sources)) = refl
  users-conclude now program_id t (some (r, RunResult.auth_required)) = refl
  users-conclude now program_id t (some (r, RunResult.finished name n q s)) = refl

  run_checked-allowed :
      (now : DateTime) (chat_id : ℕ) (program : Program) (t : Tables) (x : User × Bool × ℤ)
      → x.1 ≡ true
      → (run_checked loads shown ask parse has_llm template round2 enabled cluster_answer now
          chat_id program t x).users
        ≡ update_rows (is_user (pos chat_id)) (λ _. mark_analysis_started now x.0) t.users
  unfolding run_marked mark_user
  run_checked-allowed now chat_id program t (user, true, d) e =
      users-conclude now program.id (mark_user now chat_id user t) _
  run_checked-allowed now chat_id program t (user, false, d) e = absurd (ground arith)

  run_checked-refused :
      (now : DateTime) (chat_id : ℕ) (program : Program) (t : Tables) (x : User × Bool × ℤ)
      → x.1 ≡ false
      → run_checked loads shown ask parse has_llm template round2 enabled cluster_answer now chat_id
          program t x
        ≡ ended t (JobReply.limited x.2)
  run_checked-refused now chat_id program t (user, true, d) e = absurd (ground arith)
  run_checked-refused now chat_id program t (user, false, d) e = refl

  -- A user of the program's owner id who may run a program now, who will not count as paid at a
  -- later time, and for whom less than a week will have passed then: whatever this job does after
  -- its check, and even if it raises, a job for any of the user's programs at that later time, on
  -- tables with the users that this one left, changes nothing and is refused with the days left.
  pub run_program_job-once_a_week :
      (now later : DateTime) (program_id other_id chat_id : ℕ) (t t' : Tables)
      {program other : Program} {user : User}
      → first_row (is_program_of program_id chat_id) t.programs ≡ some program
      → first_row (is_user (pos chat_id)) t.users ≡ some user
      → (check_weekly_analysis_limit now user).1 ≡ true
      → (is_paid_user later (mark_analysis_started now (check_weekly_analysis_limit now user).0)).1
        ≡ false
      → instant later < instant now + week_micros
      → t'.users
        ≡ (run_program_job loads shown ask parse has_llm template round2 enabled cluster_answer now
            program_id chat_id t).users
      → first_row (is_program_of other_id chat_id) t'.programs ≡ some other
      → run_program_job loads shown ask parse has_llm template round2 enabled cluster_answer later
          other_id chat_id t'
        ≡ ended t' (
            JobReply.limited
              (check_weekly_analysis_limit later
                (mark_analysis_started now (check_weekly_analysis_limit now user).0)).2)
  unfolding run_program_job
  run_program_job-once_a_week now later program_id other_id chat_id t t' {program} {other} {user} p
        u may unpaid soon left q =
      let marked = mark_analysis_started now (check_weekly_analysis_limit now user).0 in
      let first : t'.users ≡ update_rows (is_user (pos chat_id)) (λ _. marked) t.users =
        left
        ∙ rw (p, u, run_program_job)
            ((run_checked-allowed now chat_id program t (check_weekly_analysis_limit now user)
              may)) in
      let mine =
        is_user-marked now chat_id user (first_row-test (is_user (pos chat_id)) t.users user u) in
      let found : first_row (is_user (pos chat_id)) t'.users ≡ some marked = rw first (
        first_row-update_rows (is_user (pos chat_id)) (λ _. marked) t.users user (λ s h. mine) u) in
      let refused : (check_weekly_analysis_limit later marked).1 ≡ false =
        refused-again now later (check_weekly_analysis_limit now user).0 unpaid soon in
      rw (q, found, run_program_job)
        ((run_checked-refused later chat_id other t' (check_weekly_analysis_limit later marked)
          refused))
