-- ===== src/Subscription/Paid.antt =====
-- The paid period: when a user counts as paid, and what a payment adds.
use lead_finder.Prelude.{
  sym, ◌∙◌, ℕ, ◌+◌, ◌-◌, ◌*◌, ◌/◌, ◌%◌, ◌<◌, min, leb, ap, ◌⊎◌, ◌≤◌, ◌≡◌, refl, true, false, some,
  none, Option, arith, inl, inr, Bool-cases, Option-cases,
}
use lead_finder.Prelude.Text.{Text, text_eq, text_eq_iff}
use lead_finder.DateTime.{DateTime, before}
use lead_finder.DateTime.Laws.{before_of_not_before, before_irrefl, before_asymm}
use lead_finder.Models.{User}
use lead_finder.Subscription.{
  normalize_subscription, is_paid_user, add_months, period_start, activate_paid_subscription,
  activate_months, paid_until, paid_period_months, paid, free,
}

-- Adding months to a date that has a day of at least 1 and a month raises exactly where the year
-- would be after 9999. Where it does not, it moves the calendar month by exactly that many, keeps
-- the time of day, and gives the day itself or the 28th if the day is later: a day that every month
-- has.
pub add_months_lem :
    (base : DateTime) (months : ℕ)
    → 1 ≤ base.month
    → 1 ≤ base.day
    → ((add_months base months ≡ none) × (10000 * 12 < base.year * 12 + base.month + months))
      ⊎ ((d : DateTime) × (add_months base months ≡ some d)
          × (d.year * 12 + d.month ≡ base.year * 12 + base.month + months)
          × (d.year ≤ 9999)
          × (1 ≤ d.month)
          × (d.month ≤ 12)
          × (1 ≤ d.day)
          × (d.day ≡ min base.day 28)
          × (d.micros ≡ base.micros))
unfolding add_months
add_months_lem base months h k =
    let year = base.year + (base.month - 1 + months) / 12 in
    elim (Bool-cases (leb year 9999)) [
      | inr late ↦ rw late (inl (refl, ground arith))
      | inl early ↦ rw early (
          inr (
            record base {
              year = year;
              month = (base.month - 1 + months) % 12 + 1;
              day = min base.day 28;
            },
            refl,
            omega arith,
            ground arith,
            omega arith,
            omega arith,
            omega arith,
            refl,
            refl,
          ))
    ]

before-add_months :
    (base : DateTime) (months : ℕ) (d : DateTime)
    → 1 ≤ months
    → add_months base months ≡ some d
    → before base d ≡ true
unfolding before add_months
before-add_months base months d h e = ground arith

paid_period_months_pos : (key : Text) (m : ℕ) → paid_period_months key ≡ some m → 1 ≤ m
unfolding paid_period_months
paid_period_months_pos key m h = ground arith

-- A payment that goes through: the start of its period, its months and the new expiry.
record IsActivated (now : DateTime) (user : User) (months : ℕ) (r : User × DateTime) : Type 0 where
  positive : 1 ≤ months
  added :
      add_months (period_start now (normalize_subscription now user).subscription_expires_at) months
      ≡ some r.1
  row : r.0 ≡ record (normalize_subscription now user) {
    subscription_type = paid;
    subscription_expires_at = some r.1;
  }

activate_months-IsActivated :
    (now : DateTime) (user : User) (months : ℕ) (r : User × DateTime)
    → 1 ≤ months
    → activate_months now user months ≡ some r
    → IsActivated now user months r
unfolding activate_months
activate_months-IsActivated now user months r positive e =
    let start = period_start now (normalize_subscription now user).subscription_expires_at in
    elim (Option-cases (add_months start months)) [
      | inl late ↦ absurd (ground arith)
      | inr (d, added) ↦ record { positive = positive; added = ground arith; row = ground arith }
    ]

activate-IsActivated :
    (now : DateTime) (user : User) (key : Text) (r : User × DateTime)
    → activate_paid_subscription now user key ≡ some r
    → (months : ℕ) × IsActivated now user months r
unfolding activate_paid_subscription
activate-IsActivated now user key r h = elim (Option-cases (paid_period_months key)) [
  | inl unknown ↦ absurd (ground arith)
  | inr (m, e) ↦
      (m, activate_months-IsActivated now user m r (paid_period_months_pos key m e) (ground arith))
]

before-period_start :
    (now : DateTime) (expires : Option DateTime) → before (period_start now expires) now ≡ false
before-period_start now none = before_irrefl now
before-period_start now (some e) = elim (Bool-cases (before now e)) [
  | inl later ↦ rw later (before_asymm now e later)
  | inr not_later ↦ rw not_later (before_irrefl now)
]

normalize_keeps :
    (now e : DateTime) (user : User)
    → user.subscription_expires_at ≡ some e
    → before now e ≡ true
    → normalize_subscription now user ≡ user
unfolding normalize_subscription
normalize_keeps now e user h k = ground arith

free-ne-paid : text_eq free paid ≡ false
unfolding text_eq
free-ne-paid = refl

is_paid_at :
    (later e : DateTime) (user : User)
    → user.subscription_type ≡ paid
    → user.subscription_expires_at ≡ some e
    → (is_paid_user later user).1 ≡ before later e
unfolding is_paid_user
is_paid_at later e user h k = elim (Bool-cases (before later e)) [
  | inl running ↦ ground (arith, text_eq_iff user.subscription_type paid)
  | inr over ↦ ground (arith, text_eq_iff user.subscription_type paid, free-ne-paid)
]

before-activate :
    (now : DateTime) (user : User) (months : ℕ) (r : User × DateTime)
    → IsActivated now user months r
    → before now r.1 ≡ true
before-activate now user months r a =
    let start = period_start now (normalize_subscription now user).subscription_expires_at in
    before_of_not_before now start r.1
      (before-period_start now (normalize_subscription now user).subscription_expires_at)
      (before-add_months start months r.1 a.positive a.added)

-- After a payment the user counts as paid at exactly the times before the new expiry, which lies
-- after the time of the payment.
pub activate_pays :
    (now later : DateTime) (user : User) (period_key : Text) {r : User × DateTime}
    → activate_paid_subscription now user period_key ≡ some r
    → ((is_paid_user later r.0).1 ≡ before later r.1) × (before now r.1 ≡ true)
activate_pays now later user period_key {r} h =
    let (months, a) = activate-IsActivated now user period_key r h in
    (
      is_paid_at later r.1 r.0 (ap (λ (u : User). u.subscription_type) a.row)
          (ap (λ (u : User). u.subscription_expires_at) a.row),
      before-activate now user months r a,
    )

add_months-add :
    (base : DateTime) (m n : ℕ) (d : DateTime)
    → add_months base m ≡ some d
    → add_months d n ≡ add_months base (m + n)
unfolding add_months
add_months-add base m n d e = elim (Bool-cases (leb (base.year + (base.month - 1 + m) / 12) 9999)) [
  | inr late ↦ absurd (ground arith)
  | inl early ↦
      let year : d.year ≡ base.year + (base.month - 1 + m) / 12 = ground arith in
      let month : d.month ≡ (base.month - 1 + m) % 12 + 1 = ground arith in
      let day : d.day ≡ min base.day 28 = ground arith in
      let time : d.micros ≡ base.micros = ground arith in
      let later : d.year + (d.month - 1 + n) / 12 ≡ base.year + (base.month - 1 + (m + n)) / 12 =
        omega arith in
      let place : (d.month - 1 + n) % 12 + 1 ≡ (base.month - 1 + (m + n)) % 12 + 1 = omega arith in
      let kept : min d.day 28 ≡ min base.day 28 = omega arith in rw (later, place, kept, time) refl
]

paid_until-row :
    (u v : User) (e d : DateTime) (x : Option DateTime)
    → u ≡ record v { subscription_type = paid; subscription_expires_at = some e }
    → paid_until u x ≡ paid_until v x
paid_until-row u v e d none h = refl
paid_until-row u v e d (some x) h = rw h refl

-- A payment before the end of the first one's period counts from the first one's start.
activate-twice :
    (now later : DateTime) (user : User) (r : User × DateTime) (m n : ℕ)
    → IsActivated now user m r
    → before later r.1 ≡ true
    → activate_months later r.0 n
      ≡ paid_until (normalize_subscription now user) (
          add_months
            (period_start now (normalize_subscription now user).subscription_expires_at)
            (m + n))
unfolding activate_months
activate-twice now later user r m n a h =
    let start = period_start now (normalize_subscription now user).subscription_expires_at in
    let expiry : r.0.subscription_expires_at ≡ some r.1 =
      ap (λ (u : User). u.subscription_expires_at) a.row in
    rw (normalize_keeps later r.1 r.0 expiry h, expiry, h)
      (paid_until-row r.0 (normalize_subscription now user) r.1 r.1 (add_months r.1 n) a.row
        ∙ ap (paid_until (normalize_subscription now user)) (add_months-add start m n r.1 a.added))

activate_key :
    (now : DateTime) (user : User) (key : Text) (r : User × DateTime)
    → activate_paid_subscription now user key ≡ some r
    → (m : ℕ) × (paid_period_months key ≡ some m) × (activate_months now user m ≡ some r)
unfolding activate_paid_subscription
activate_key now user key r h = elim (Option-cases (paid_period_months key)) [
  | inl unknown ↦ absurd (ground arith)
  | inr (m, e) ↦ (m, e, ground arith)
]

activate_of_key :
    (now : DateTime) (user : User) (key : Text) (m : ℕ)
    → paid_period_months key ≡ some m
    → activate_paid_subscription now user key ≡ activate_months now user m
unfolding activate_paid_subscription
activate_of_key now user key m e = rw (e, activate_paid_subscription) refl

-- Where each of two payments could be the first one, and the other one is made before the end of
-- the period that it opens, their order makes no difference: the user's row and the expiry, or the
-- exception, are the same.
pub activate-commutes :
    (now later : DateTime) (user : User) (key other : Text) {r s : User × DateTime}
    → activate_paid_subscription now user key ≡ some r
    → activate_paid_subscription now user other ≡ some s
    → before later r.1 ≡ true
    → before later s.1 ≡ true
    → activate_paid_subscription later r.0 other ≡ activate_paid_subscription later s.0 key
activate-commutes now later user key other {r} {s} h k before_r before_s =
    let (m, period, first) = activate_key now user key r h in
    let (n, other_period, second) = activate_key now user other s k in
    let positive = paid_period_months_pos key m period in
    let other_positive = paid_period_months_pos other n other_period in
    let a = activate_months-IsActivated now user m r positive first in
    let b = activate_months-IsActivated now user n s other_positive second in
    let start = period_start now (normalize_subscription now user).subscription_expires_at in
    let swap : m + n ≡ n + m = omega arith in
    activate_of_key later r.0 other n other_period
    ∙ activate-twice now later user r m n a before_r
    ∙ ap (λ (x : ℕ). paid_until (normalize_subscription now user) (add_months start x)) swap
    ∙ sym (activate_of_key later s.0 key m period ∙ activate-twice now later user s n m b before_s)

-- Normalising is idempotent, and later on it does what it would have done with no earlier call.
normalize-normalize :
    (now later : DateTime) (user : User)
    → before later now ≡ false
    → normalize_subscription later (normalize_subscription now user)
      ≡ normalize_subscription later user
unfolding normalize_subscription
normalize-normalize now later user h = ground (arith, free-ne-paid)
