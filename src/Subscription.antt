-- ===== src/Subscription.antt =====
-- bot/services/subscription.py: the paid period of a user and the limits of the free plan.
-- The clock enters as the argument `now`, the value of `_utc_now()` in that call. A function that
-- changes the user returns the changed user beside its result.
pub mod Paid
pub mod Weekly
pub mod Limits
mod Tests
use lead_finder.Prelude.{
  ℕ, ◌+◌, ◌-◌, ◌*◌, ◌/◌, ◌%◌, min, Bool, true, false, ◌&&◌, not, Option, none, some, List, leb,
  ◌==◌, if◌then◌else◌,
}
use lead_finder.Prelude.Int.{ℤ, pos, ◌-ℤ◌, leb_ℤ}
use lead_finder.Prelude.Text.{Text, text, text_eq}
use lead_finder.DateTime.{DateTime, before, at_most, elapsed, delta_days, day_micros}
use lead_finder.Models.{User, Program}
use lead_finder.Models.Table.{count_rows}

abbrev pub paid : Text
paid = text "paid"

abbrev pub free : Text
free = text "free"

-- `PAID_PERIODS_MONTHS.get(key)`; `none` is the `KeyError` of `PAID_PERIODS_MONTHS[key]`.
unfoldable pub paid_period_months : Text → Option ℕ
paid_period_months key =
    if text_eq key (text "1m")
    then some 1
    else if text_eq key (text "3m")
    then some 3
    else if text_eq key (text "6m")
    then some 6
    else if text_eq key (text "12m")
    then some 12
    else none

unfoldable pub stars_price : Text → Option ℕ
stars_price key =
    if text_eq key (text "1m")
    then some 500
    else if text_eq key (text "3m")
    then some 1200
    else if text_eq key (text "6m")
    then some 2000
    else if text_eq key (text "12m")
    then some 3500
    else none

-- The subscription has an end, and it is not after `now`.
abbrev pub has_expired : DateTime → Option DateTime → Bool
has_expired now none = false
has_expired now (some expires) = at_most expires now

unfoldable pub normalize_subscription : DateTime → User → User
unfolding at_most
normalize_subscription now user =
    if text_eq user.subscription_type paid && has_expired now user.subscription_expires_at
    then record user { subscription_type = free; subscription_expires_at = none }
    else user

unfoldable pub is_paid_user : DateTime → User → User × Bool
unfolding normalize_subscription
is_paid_user now user =
    let user' = normalize_subscription now user in (user', text_eq user'.subscription_type paid)

abbrev pub program_limit_reason : Text
program_limit_reason =
    text "На бесплатном тарифе доступна только 1 программа. Оформи подписку, чтобы снять лимит."

-- `Program.user_id == user_id`
unfoldable pub is_owned_by : ℕ → Program → Bool
is_owned_by user_id program = program.user_id == user_id

unfoldable pub check_program_limit : DateTime → List Program → User → User × Bool × Option Text
check_program_limit now programs user =
    let (user', is_paid) = is_paid_user now user in
    let program_count = count_rows (is_owned_by user'.telegram_id) programs in
    if is_paid
    then (user', true, none)
    else if leb 1 program_count
    then (user', false, some program_limit_reason)
    else (user', true, none)

abbrev pub week_micros : ℕ
week_micros = 7 * day_micros

-- The part of `check_weekly_analysis_limit` below the tests on the user.
unfoldable pub weekly_limit : DateTime → DateTime → Bool × ℤ
unfolding elapsed delta_days
weekly_limit now last =
    let delta = elapsed now last in
    let days_left = pos 7 -ℤ delta_days delta in
    if leb_ℤ (pos week_micros) delta
    then (true, pos 0)
    else (false, if leb_ℤ days_left (pos 0) then pos 1 else days_left)

unfoldable pub check_weekly_analysis_limit : DateTime → User → User × Bool × ℤ
check_weekly_analysis_limit now user =
    let (user', is_paid) = is_paid_user now user in
    if is_paid then (user', true, pos 0) else elim user'.last_analysis_at [
      | none ↦ (user', true, pos 0)
      | some last ↦ let (can_run, days_left) = weekly_limit now last in (user', can_run, days_left)
    ]

unfoldable pub mark_analysis_started : DateTime → User → User
mark_analysis_started now user = record user { last_analysis_at = some now }

-- `none` is the `ValueError` of a year after 9999.
unfoldable pub add_months : DateTime → ℕ → Option DateTime
add_months base months =
    let year = base.year + (base.month - 1 + months) / 12 in
    if leb year 9999
    then some (record base {
      year = year;
      month = (base.month - 1 + months) % 12 + 1;
      day = min base.day 28;
    })
    else none

-- Where the new paid period begins.
abbrev pub period_start : DateTime → Option DateTime → DateTime
period_start now none = now
period_start now (some expires) = if before now expires then expires else now

-- The new user and expiry for a known period.
abbrev pub paid_until : User → Option DateTime → Option (User × DateTime)
paid_until user none = none
paid_until user (some new_expiry) = some (
  record user { subscription_type = paid; subscription_expires_at = some new_expiry },
  new_expiry,
)

unfoldable pub activate_months : DateTime → User → ℕ → Option (User × DateTime)
activate_months now user months =
    let user' = normalize_subscription now user in
    paid_until user' (add_months (period_start now user'.subscription_expires_at) months)

-- `none` is the `KeyError` of an unknown period, or the `ValueError` of `add_months`.
unfoldable pub activate_paid_subscription : DateTime → User → Text → Option (User × DateTime)
activate_paid_subscription now user period_key = elim (paid_period_months period_key) [
  | none ↦ none
  | some months ↦ activate_months now user months
]
