-- ===== src/Subscription/Limits.antt =====
-- The program limit of the free plan.
use lead_finder.Prelude.{◌≡◌, ◌↔◌, ◌⊎◌, true, none, List, arith}
use lead_finder.DateTime.{DateTime}
use lead_finder.Models.{User, Program}
use lead_finder.Models.Table.{count_rows}
use lead_finder.Subscription.{
  check_program_limit, is_paid_user, normalize_subscription, is_owned_by,
}

telegram_id-normalize :
    (now : DateTime) (user : User)
    → (normalize_subscription now user).telegram_id ≡ user.telegram_id
unfolding normalize_subscription
telegram_id-normalize now user = ground arith

-- A program may be created exactly by a paid user or by one who has none, counted over the whole
-- table; a refusal is the one that carries the reason.
pub check_program_limit_lem :
    (now : DateTime) (programs : List Program) (user : User)
    → let (user', allowed, reason) = check_program_limit now programs user in
      ((allowed ≡ true) ↔ (
        ((is_paid_user now user).1 ≡ true)
        ⊎ (count_rows (is_owned_by user.telegram_id) programs ≡ 0)))
      × ((reason ≡ none) ↔ (allowed ≡ true))
      × (user' ≡ (is_paid_user now user).0)
unfolding check_program_limit is_paid_user
check_program_limit_lem now programs user = ground (arith, telegram_id-normalize now user)
