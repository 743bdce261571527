-- ===== src/Subscription/Tests.antt =====
-- The subscription at concrete users and dates.
use lead_finder.Prelude.{
  ℕ, ◌+◌, ◌*◌, ◌≤◌, ◌<◌, min, ◌≡◌, ◌↔◌, ◌⊎◌, refl, true, false, none, some, [], arith,
}
use lead_finder.Prelude.Int.{pos, ◌≤ℤ◌, ◌-ℤ◌}
use lead_finder.Prelude.Text.{text, text_eq}
use lead_finder.DateTime.{DateTime, before, instant, elapsed, delta_days}
use lead_finder.Models.{User}
use lead_finder.Models.Table.{count_rows}
use lead_finder.Subscription.{
  normalize_subscription, free, paid, is_paid_user, check_program_limit, is_owned_by, weekly_limit,
  week_micros, check_weekly_analysis_limit, mark_analysis_started, add_months,
  activate_paid_subscription, activate_months, paid_period_months,
}
use lead_finder.Subscription.Paid.{activate_pays, activate-commutes, add_months_lem}
use lead_finder.Subscription.Weekly.{weekly_limit-days, check_after_mark}
use lead_finder.Subscription.Limits.{check_program_limit_lem}

abbrev date : ℕ → ℕ → ℕ → DateTime
date y m d = record { year = y; month = m; day = d; micros = 0 }

abbrev visitor : User
visitor = record {
  telegram_id = 7;
  username = none;
  services_description = none;
  subscription_type = free;
  subscription_expires_at = none;
  last_analysis_at = none;
  created_at = date 2025 1 1;
  last_active_at = date 2025 1 1;
}

abbrev subscriber : User
subscriber = record visitor {
  subscription_type = paid;
  subscription_expires_at = some (date 2025 3 31);
}

-- Over the end of a year, on the last day that every month has.
add_months_test : add_months (date 2024 12 31) 14 ≡ some (date 2026 2 28)
unfolding add_months
add_months_test = refl

add_months_late : add_months (date 9999 12 31) 1 ≡ none
unfolding add_months
add_months_late = refl

abbrev until : DateTime → User × DateTime
until expiry =
    (record visitor { subscription_type = paid; subscription_expires_at = some expiry }, expiry)

bought :
    activate_paid_subscription (date 2025 1 10) visitor (text "3m") ≡ some (until (date 2025 4 10))
unfolding activate_paid_subscription paid_period_months text_eq activate_months add_months
    normalize_subscription
bought = refl

bought_year :
    activate_paid_subscription (date 2025 1 10) visitor (text "12m") ≡ some (until (date 2026 1 10))
unfolding activate_paid_subscription paid_period_months text_eq activate_months add_months
    normalize_subscription
bought_year = refl

activate_pays_example :
    ((is_paid_user (date 2025 4 9) (until (date 2025 4 10)).0).1
      ≡ before (date 2025 4 9) (date 2025 4 10))
    × (before (date 2025 1 10) (date 2025 4 10) ≡ true)
activate_pays_example = activate_pays (date 2025 1 10) (date 2025 4 9) visitor (text "3m") bought

activate-commutes_example :
    activate_paid_subscription (date 2025 2 1) (until (date 2025 4 10)).0 (text "12m")
    ≡ activate_paid_subscription (date 2025 2 1) (until (date 2026 1 10)).0 (text "3m")
unfolding before
activate-commutes_example =
    activate-commutes (date 2025 1 10) (date 2025 2 1) visitor (text "3m") (text "12m") bought
      bought_year refl refl

add_months_lem_example :
    ((add_months (date 2025 1 31) 1 ≡ none) × (10000 * 12 < 2025 * 12 + 1 + 1))
    ⊎ ((d : DateTime) × (add_months (date 2025 1 31) 1 ≡ some d)
        × (d.year * 12 + d.month ≡ 2025 * 12 + 1 + 1)
        × (d.year ≤ 9999)
        × (1 ≤ d.month)
        × (d.month ≤ 12)
        × (1 ≤ d.day)
        × (d.day ≡ min 31 28)
        × (d.micros ≡ 0))
add_months_lem_example = add_months_lem (date 2025 1 31) 1 (omega arith) (omega arith)

refused : weekly_limit (date 2025 1 4) (date 2025 1 1) ≡ (false, pos 4)
unfolding weekly_limit elapsed delta_days ◌-ℤ◌
refused = refl

weekly_limit-days_example :
    (pos 1 ≤ℤ pos 4)
    × (((weekly_limit (date 2025 1 8) (date 2025 1 1)).0 ≡ true) ↔ (pos 4 ≤ℤ pos 4))
unfolding instant
weekly_limit-days_example =
    weekly_limit-days (date 2025 1 4) (date 2025 1 1) (date 2025 1 8) 4 refused refl

check_after_mark_example :
    let user' = mark_analysis_started (date 2025 1 1) visitor in
    ((check_weekly_analysis_limit (date 2025 1 8) user').1 ≡ true) ↔ (
      ((is_paid_user (date 2025 1 8) user').1 ≡ true)
      ⊎ (instant (date 2025 1 1) + week_micros ≤ instant (date 2025 1 8)))
check_after_mark_example = check_after_mark (date 2025 1 1) (date 2025 1 8) visitor

check_program_limit_lem_example :
    let (user', allowed, reason) = check_program_limit (date 2025 1 1) [] visitor in
    ((allowed ≡ true)
      ↔ (((is_paid_user (date 2025 1 1) visitor).1 ≡ true) ⊎ (count_rows (is_owned_by 7) [] ≡ 0)))
    × ((reason ≡ none) ↔ (allowed ≡ true))
    × (user' ≡ (is_paid_user (date 2025 1 1) visitor).0)
check_program_limit_lem_example = check_program_limit_lem (date 2025 1 1) [] visitor
