-- ===== src/Payments/Crediting.antt =====
-- What is bought is what is credited, and a payment never fails for want of a period.
use lead_finder.Prelude.{
  ◌≤◌, ◌*◌, ◌+◌, ◌-◌, ◌/◌, leb, none, ◌⊎◌, Bool-cases, ℕ, ◌≡◌, refl, ◌∙◌, ap, true, some, List, [],
  ◌∷◌, ◌++◌, arith, inl, inr, Option-cases,
}
use lead_finder.Prelude.Int.{ℤ, pos}
use lead_finder.Prelude.Text.{
  Text, text, text_eq, text_eq_iff, split, split-append, split-lacks, lacks,
}
use lead_finder.Prelude.Numeral.{show, parse_int}
use lead_finder.Prelude.Decimal.{show-digits, lacks-digits, parse_int-show}
use lead_finder.DateTime.{DateTime}
use lead_finder.Models.{User}
use lead_finder.Models.Table.{first_row, update_rows, first_row-test}
use lead_finder.Subscription.{
  stars_price, paid_period_months, activate_paid_subscription, activate_months, add_months,
  period_start, normalize_subscription,
}
use lead_finder.Payments.{
  Reply, is_user, last_piece, payload_tag, payload_for, buy_subscription_handler, credit,
  credit_user, credit_parts, successful_payment_handler,
}

-- The two tables of periods have the same keys.
months_of_price :
    (key : Text) (price : ℕ)
    → stars_price key ≡ some price
    → (m : ℕ) × (paid_period_months key ≡ some m)
unfolding stars_price paid_period_months
months_of_price key price h = elim (Option-cases (paid_period_months key)) [
  | inl unknown ↦ absurd (ground arith)
  | inr known ↦ known
]

lacks_of_eq : (key k : Text) → lacks b':' k ≡ true → text_eq key k ≡ true → lacks b':' key ≡ true
lacks_of_eq key k h e = rw ((text_eq_iff key k).0 e) h

-- No key of the price table holds the separator of the payload.
lacks-stars_price : (key : Text) (price : ℕ) → stars_price key ≡ some price → lacks b':' key ≡ true
unfolding stars_price
lacks-stars_price key price h = ground (
  arith,
  lacks_of_eq key (text "1m") (unfold lacks in refl),
  lacks_of_eq key (text "3m") (unfold lacks in refl),
  lacks_of_eq key (text "6m") (unfold lacks in refl),
  lacks_of_eq key (text "12m") (unfold lacks in refl),
)

split-payload_for :
    (user_id : ℕ) (key : Text)
    → lacks b':' key ≡ true
    → split b':' (payload_for user_id key) ≡ payload_tag ∷ show user_id ∷ key ∷ []
unfolding payload_for
split-payload_for user_id key h =
    split-append b':' payload_tag (show user_id ++ b':' ∷ key) (unfold lacks in refl)
    ∙ ap (λ r. payload_tag ∷ r)
        (split-append b':' (show user_id) key
            (lacks-digits b':' (show user_id) refl (show-digits user_id))
          ∙ ap (λ r. show user_id ∷ r) (split-lacks b':' key h))

is_user_pos : (id : ℕ) (user : User) → is_user (pos id) user ≡ true → user.telegram_id ≡ id
unfolding is_user
is_user_pos id user h = ground arith

-- The user that the handler finds has the id that it asked for.
telegram_id-of-is_user :
    (id : ℕ) (users : List User) (user : User)
    → first_row (is_user (pos id)) users ≡ some user
    → user.telegram_id ≡ id
telegram_id-of-is_user id users user h =
    is_user_pos id user (first_row-test (is_user (pos id)) users user h)

-- The invoice that a user is offered.
record IsOffered (users : List User) (from_user : ℕ) (payload : Text) (price : ℕ) : Type 0 where
  key : Text
  user : User
  priced : stars_price key ≡ some price
  found : first_row (is_user (pos from_user)) users ≡ some user
  named : payload ≡ payload_for from_user key

offered :
    (users : List User) (from_user : ℕ) (callback_data payload : Text) (price : ℕ)
    → buy_subscription_handler users from_user callback_data ≡ Reply.invoice payload price
    → IsOffered users from_user payload price
unfolding buy_subscription_handler
offered users from_user callback_data payload price h =
    elim (Option-cases (first_row (is_user (pos from_user)) users)) [
      | inl missing ↦ absurd (ground arith)
      | inr (user, e) ↦
          let key = last_piece (split b'_' callback_data) in
          elim (Option-cases (stars_price key)) [
            | inl unknown ↦ absurd (ground arith)
            | inr (p, q) ↦ record {
              key = key;
              user = user;
              priced = ground arith;
              found = e;
              named = ground (arith, telegram_id-of-is_user from_user users user e);
            }
          ]
    ]

-- In December 9998 or later; the calendar ends with 9999.
abbrev pub IsAtEnd : DateTime → Type 0
IsAtEnd d = 9999 * 12 ≤ d.year * 12 + d.month

credit_user_known :
    (now : DateTime) (users : List User) (key : Text) (id : ℤ) (user : User) (months : ℕ)
    → first_row (is_user id) users ≡ some user
    → paid_period_months key ≡ some months
    → credit_user now users key (some id) ≡ credit users id (activate_months now user months)
unfolding credit_user activate_paid_subscription
credit_user_known now users key id user months found known =
    rw (found, credit_user) (rw (known, activate_paid_subscription) refl)

-- No period is longer than a year.
paid_period_months-bound : (key : Text) (m : ℕ) → paid_period_months key ≡ some m → m ≤ 12
unfolding paid_period_months
paid_period_months-bound key m h = ground arith

-- A payment of at most a year fails only at the end of the calendar.
activate_months-cases :
    (now : DateTime) (user : User) (months : ℕ)
    → months ≤ 12
    → ((r : User × DateTime) × (activate_months now user months ≡ some r))
      ⊎ ((activate_months now user months ≡ none)
          × IsAtEnd (period_start now (normalize_subscription now user).subscription_expires_at))
unfolding activate_months add_months
activate_months-cases now user months h =
    let start = period_start now (normalize_subscription now user).subscription_expires_at in
    elim (Bool-cases (leb (start.year + (start.month - 1 + months) / 12) 9999)) [
      | inl early ↦ rw early (inl (_, refl))
      | inr late ↦ rw late (inr (refl, ground arith))
    ]

credit_parts_known :
    (now : DateTime) (users : List User) (key user_id_raw : Text) (price : ℕ)
    → stars_price key ≡ some price
    → credit_parts now users (payload_tag ∷ user_id_raw ∷ key ∷ [])
      ≡ credit_user now users key (parse_int user_id_raw)
unfolding credit_parts text_eq
credit_parts_known now users key user_id_raw price h = rw (h, credit_parts) refl

-- A payment made for an offered invoice finds the buyer, never misses the period, and activates the
-- months of the period that was bought: the buyer's row takes the activated user, and no other row
-- changes. Only where the period would start in December 9998 or later may it raise, and then no
-- row changes.
pub payment-credits-offer :
    (now : DateTime) (users : List User) (from_user : ℕ) (callback_data : Text) {payload : Text}
    {price : ℕ}
    → buy_subscription_handler users from_user callback_data ≡ Reply.invoice payload price
    → (user : User) × (months : ℕ) × (key : Text) × (first_row (is_user (pos from_user)) users
        ≡ some user)
      × (paid_period_months key ≡ some months)
      × (stars_price key ≡ some price)
      × (((r : User × DateTime) × (activate_months now user months ≡ some r)
            × (successful_payment_handler now users (some payload)
                ≡ (update_rows (is_user (pos from_user)) (λ _. r.0) users, Reply.activated r.1)))
          ⊎ (IsAtEnd (period_start now (normalize_subscription now user).subscription_expires_at)
              × (successful_payment_handler now users (some payload) ≡ (users, Reply.raised))))
payment-credits-offer now users from_user callback_data {payload} {price} h =
    let o = offered users from_user callback_data payload price h in
    let (months, known) = months_of_price o.key price o.priced in
    let credited : successful_payment_handler now users (some payload)
        ≡ credit users (pos from_user) (activate_months now o.user months) =
      unfold successful_payment_handler in
      rw (o.named, split-payload_for from_user o.key (lacks-stars_price o.key price o.priced))
        (credit_parts_known now users o.key (show from_user) price o.priced
          ∙ rw parse_int-show
              (credit_user_known now users o.key (pos from_user) o.user months o.found known)) in
    (
      o.user,
      months,
      o.key,
      o.found,
      known,
      o.priced,
      elim (activate_months-cases now o.user months (paid_period_months-bound o.key months known)) [
        | inl (r, e) ↦ inl (r, e, credited ∙ ap (credit users (pos from_user)) e)
        | inr (e, late) ↦ inr (late, credited ∙ ap (credit users (pos from_user)) e)
      ],
    )
