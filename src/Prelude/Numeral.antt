-- ===== src/Prelude/Numeral.antt =====
-- `str(n)` and `int(s)` for decimal integers, and their round trip.
use lead_finder.Prelude.{
  ℕ, zero, suc, ◌+◌, ◌-◌, ◌*◌, ◌/◌, ◌%◌, ◌≡◌, refl, Bool, true, false, ◌&&◌, [], ◌∷◌, ◌++◌, Option,
  none, some, ltb, leb, ◌==◌, if◌then◌else◌,
}
use lead_finder.Prelude.Int.{ℤ, pos, negsuc, sub_ℕ}
use lead_finder.Prelude.Text.{Text, text, strip}

-- The digits of `n`, with fuel that bounds their number.
unfoldable pub show_fuel : ℕ → ℕ → Text
show_fuel zero n = []
show_fuel (suc f) n = elim (ltb n 10) [
  | true ↦ (48 + n) ∷ []
  | false ↦ show_fuel f (n / 10) ++ (48 + n % 10) ∷ []
]

-- `str(n)` for `n >= 0`.
unfoldable pub show : ℕ → Text
unfolding show_fuel
show n = show_fuel (suc n) n

abbrev pub is_digit : ℕ → Bool
is_digit c = leb 48 c && leb c 57

-- The digits of an `int` literal: single underscores may stand between two digits.
unfoldable pub digits_from : ℕ → Bool → Text → Option ℕ
digits_from acc after_digit [] = if after_digit then some acc else none
digits_from acc after_digit (c ∷ s) = elim (is_digit c) [
  | true ↦ digits_from (acc * 10 + (c - 48)) true s
  | false ↦ elim (c == b'_' && after_digit) [ true ↦ digits_from acc false s | false ↦ none ]
]

abbrev pub negated : Option ℕ → Option ℤ
negated none = none
negated (some n) = some (sub_ℕ 0 n)

abbrev pub plain : Option ℕ → Option ℤ
plain none = none
plain (some n) = some (pos n)

abbrev pub signed : Text → Option ℤ
signed [] = none
signed (c ∷ s) =
    if c == b'-'
    then negated (digits_from 0 false s)
    else if c == b'+'
    then plain (digits_from 0 false s)
    else plain (digits_from 0 false (c ∷ s))

-- `int(s)`; `none` is the `ValueError`. Digits are the ASCII ones.
unfoldable pub parse_int : Text → Option ℤ
unfolding strip digits_from
parse_int s = signed (strip s)

parse_int_example : parse_int (text " -1_20\n") ≡ some (negsuc 119)
unfolding parse_int
parse_int_example = refl

show_example : show 90210 ≡ text "90210"
unfolding show
show_example = refl
