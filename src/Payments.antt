-- ===== src/Payments.antt =====
-- bot/handlers/subscription.py: selling a subscription and crediting its payment. A handler takes
-- the rows of `users` and returns them with what it sends; a message of the source is one
-- constructor of `Reply`, whatever its language.
pub mod Crediting
mod Tests
use lead_finder.Prelude.{
  ℕ, Bool, false, Option, none, some, List, [], ◌∷◌, ◌++◌, ◌==◌, if◌then◌else◌,
}
use lead_finder.Prelude.Int.{ℤ, pos, negsuc}
use lead_finder.Prelude.Text.{Text, text, text_eq, split, or_empty}
use lead_finder.Prelude.Numeral.{show, parse_int}
use lead_finder.DateTime.{DateTime}
use lead_finder.Models.{User}
use lead_finder.Models.Table.{first_row, update_rows}
use lead_finder.Subscription.{stars_price, activate_paid_subscription}

pub data Reply : Type 0 where
  profile_not_found invalid_period : Reply
  -- the payload and the price in stars
  invoice : Text → ℕ → Reply
  payload_not_recognised period_not_recognised user_id_not_recognised : Reply
  paid_profile_not_found : Reply
  activated : DateTime → Reply
  -- an exception in `activate_paid_subscription`
  raised : Reply

-- `User.telegram_id == id`
unfoldable pub is_user : ℤ → User → Bool
is_user (pos n) user = user.telegram_id == n
is_user (negsuc n) user = false

-- `parts[-1]`; a split has at least one piece.
unfoldable pub last_piece : List Text → Text
last_piece [] = []
last_piece (w ∷ []) = w
last_piece (w ∷ v ∷ ws) = last_piece (v ∷ ws)

abbrev pub payload_tag : Text
payload_tag = text "subscription"

-- f"subscription:{user.telegram_id}:{period_key}"
unfoldable pub payload_for : ℕ → Text → Text
payload_for user_id period_key = payload_tag ++ b':' ∷ (show user_id ++ b':' ∷ period_key)

-- `buy_subscription_handler` from the test on the period.
abbrev pub offer : User → Text → Option ℕ → Reply
offer user period_key none = invalid_period
offer user period_key (some price) = invoice (payload_for user.telegram_id period_key) price

unfoldable pub buy_subscription_handler : List User → ℕ → Text → Reply
buy_subscription_handler users from_user callback_data =
    elim (first_row (is_user (pos from_user)) users) [
      | none ↦ profile_not_found
      | some user ↦
          let period_key = last_piece (split b'_' callback_data) in
          offer user period_key (stars_price period_key)
    ]

-- The user is known: the activation, the commit and the message.
abbrev pub credit : List User → ℤ → Option (User × DateTime) → List User × Reply
credit users user_id none = (users, raised)
credit users user_id (some (user, expires_at)) =
    (update_rows (is_user user_id) (λ _. user) users, activated expires_at)

unfoldable pub credit_user : DateTime → List User → Text → Option ℤ → List User × Reply
credit_user now users period_key none = (users, user_id_not_recognised)
credit_user now users period_key (some user_id) = elim (first_row (is_user user_id) users) [
  | none ↦ (users, paid_profile_not_found)
  | some user ↦ credit users user_id (activate_paid_subscription now user period_key)
]

-- The tests on the pieces of the payload.
unfoldable pub credit_parts : DateTime → List User → List Text → List User × Reply
credit_parts now users (tag ∷ user_id_raw ∷ period_key ∷ []) =
    if text_eq tag payload_tag
    then elim (stars_price period_key) [
      | none ↦ (users, period_not_recognised)
      | some price ↦ credit_user now users period_key (parse_int user_id_raw)
    ]
    else (users, payload_not_recognised)
credit_parts now users parts = (users, payload_not_recognised)

unfoldable pub successful_payment_handler : DateTime → List User → Option Text → List User × Reply
successful_payment_handler now users invoice_payload =
    credit_parts now users (split b':' (or_empty invoice_payload))
