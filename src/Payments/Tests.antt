-- ===== src/Payments/Tests.antt =====
-- A purchase and its payment at concrete rows.
use lead_finder.Prelude.{ℕ, ◌⊎◌, ◌≡◌, refl, none, some, List, [], ◌∷◌}
use lead_finder.Prelude.Int.{pos}
use lead_finder.Prelude.Text.{Text, text, text_eq, split}
use lead_finder.Prelude.Numeral.{show}
use lead_finder.DateTime.{DateTime}
use lead_finder.Models.{User}
use lead_finder.Models.Table.{first_row, update_rows}
use lead_finder.Subscription.{
  free, stars_price, paid_period_months, activate_months, period_start, normalize_subscription,
}
use lead_finder.Payments.{
  Reply, is_user, last_piece, payload_for, buy_subscription_handler, successful_payment_handler,
}
use lead_finder.Payments.Crediting.{IsAtEnd, payment-credits-offer}

abbrev today : DateTime
today = record { year = 2025; month = 6; day = 30; micros = 0 }

abbrev buyer : User
buyer = record {
  telegram_id = 4012;
  username = none;
  services_description = none;
  subscription_type = free;
  subscription_expires_at = none;
  last_analysis_at = none;
  created_at = today;
  last_active_at = today;
}

abbrev rows : List User
rows = record buyer { telegram_id = 3 } ∷ buyer ∷ []

offer_test :
    buy_subscription_handler rows 4012 (text "buy_sub_12m")
    ≡ Reply.invoice (text "subscription:4012:12m") 3500
unfolding buy_subscription_handler first_row is_user last_piece split stars_price text_eq
    payload_for show
offer_test = refl

payment-credits-offer_example :
    (user : User) × (months : ℕ) × (key : Text) × (first_row (is_user (pos 4012)) rows ≡ some user)
    × (paid_period_months key ≡ some months)
    × (stars_price key ≡ some 3500)
    × (((r : User × DateTime) × (activate_months today user months ≡ some r)
          × (successful_payment_handler today rows (some (text "subscription:4012:12m"))
              ≡ (update_rows (is_user (pos 4012)) (λ _. r.0) rows, Reply.activated r.1)))
        ⊎ (IsAtEnd (period_start today (normalize_subscription today user).subscription_expires_at)
            × (successful_payment_handler today rows (some (text "subscription:4012:12m"))
                ≡ (rows, Reply.raised))))
payment-credits-offer_example =
    payment-credits-offer today rows 4012 (text "buy_sub_12m") offer_test
