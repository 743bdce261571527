-- ===== src/Subscription/Weekly.antt =====
-- One analysis a week on the free plan: when a run is allowed, and what `days_left` means.
use lead_finder.Prelude.{ℕ, ◌+◌, ◌*◌, ◌≤◌, ◌<◌, ◌≡◌, ◌↔◌, ◌⊎◌, true, false, arith}
use lead_finder.Prelude.Int.{ℤ, pos, ◌-ℤ◌, ◌≤ℤ◌, pos_part, neg_part}
use lead_finder.DateTime.{DateTime, instant, elapsed, delta_days, day_micros}
use lead_finder.Models.{User}
use lead_finder.Subscription.{
  weekly_limit, week_micros, check_weekly_analysis_limit, mark_analysis_started, is_paid_user,
}

-- A run is allowed as soon as a week has passed since the last one.
pub weekly_limit-allowed :
    (now last : DateTime)
    → ((weekly_limit now last).0 ≡ true) ↔ (instant last + week_micros ≤ instant now)
unfolding weekly_limit elapsed
weekly_limit-allowed now last = ground arith

-- The number that is reported, as a bound on the instants.
abbrev IsDaysLeft : ℕ → ℕ → ℤ → Type 0
IsDaysLeft now last left =
    (1 ≤ pos_part left)
    × (neg_part left ≡ 0)
    × (last + week_micros ≤ now + pos_part left * day_micros)
    × (now + pos_part left * day_micros < last + week_micros + day_micros)

weekly_limit-IsDaysLeft :
    (now last : DateTime) {left : ℤ}
    → weekly_limit now last ≡ (false, left)
    → IsDaysLeft (instant now) (instant last) left
unfolding weekly_limit elapsed delta_days ◌-ℤ◌
weekly_limit-IsDaysLeft now last h = ground arith

-- The days that are reported when a run is refused: at least one, and the least number of whole
-- days after which a run is allowed.
pub weekly_limit-days :
    (now last later : DateTime) (k : ℕ) {left : ℤ}
    → weekly_limit now last ≡ (false, left)
    → instant later ≡ instant now + k * day_micros
    → (pos 1 ≤ℤ left) × (((weekly_limit later last).0 ≡ true) ↔ (left ≤ℤ pos k))
weekly_limit-days now last later k {left} h e =
    let bound = weekly_limit-IsDaysLeft now last h in
    let allowed = weekly_limit-allowed later last in
    (omega arith, ((λ p. omega (arith, allowed.0 p)), (λ p. allowed.1 (omega arith))))

-- After a run has been marked, the next one is allowed exactly while the user counts as paid or
-- when a week has passed, whatever runs came before.
pub check_after_mark :
    (now later : DateTime) (user : User)
    → let user' = mark_analysis_started now user in
      ((check_weekly_analysis_limit later user').1 ≡ true)
      ↔ (((is_paid_user later user').1 ≡ true) ⊎ (instant now + week_micros ≤ instant later))
unfolding check_weekly_analysis_limit is_paid_user mark_analysis_started
check_after_mark now later user = (
  ground (arith, (weekly_limit-allowed later now).0),
  ground (arith, (weekly_limit-allowed later now).1),
)
