-- ===== src/DateTime/Laws.antt =====
-- The order of `datetime` is a strict total order.
use lead_finder.Prelude.{◌≡◌, true, false, arith}
use lead_finder.DateTime.{DateTime, before}

module _ (a b c : DateTime) where
  pub before_trans : before a b ≡ true → before b c ≡ true → before a c ≡ true
  unfolding before
  before_trans h k = ground arith

  -- What is later than something at or after `b` is later than `b`.
  pub before_of_not_before : before b a ≡ false → before b c ≡ true → before a c ≡ true
  unfolding before
  before_of_not_before h k = ground arith

pub before_irrefl : (a : DateTime) → before a a ≡ false
unfolding before
before_irrefl a = ground arith

pub before_asymm : (a b : DateTime) → before a b ≡ true → before b a ≡ false
unfolding before
before_asymm a b h = ground arith
