-- ===== src/Prelude/Decimal.antt =====
-- `int(str(n))` is `n`, and the digits of a number hold no separator.
use mathlib.Core.List.{append_assoc, append-nil, reverse-reverse, reverse-cons}
use lead_finder.Prelude.{
  ℕ, zero, suc, ◌+◌, ◌*◌, ◌/◌, ◌%◌, ◌<◌, ◌≡◌, refl, ◌∙◌, ap, Bool, true, false, ◌&&◌, [], ◌∷◌, ◌++◌,
  reverse, none, some, arith, ltb, Bool-cases, inl, inr,
}
use lead_finder.Prelude.Int.{pos}
use lead_finder.Prelude.Text.{Text, strip, lstrip, is_space, lacks}
use lead_finder.Prelude.Numeral.{show, show_fuel, is_digit, digits_from, signed, parse_int}

-- Every character is an ASCII digit.
abbrev pub all_digits : Text → Bool
all_digits [] = true
all_digits (c ∷ s) = is_digit c && all_digits s

all_digits-append :
    (s t : Text) → all_digits s ≡ true → all_digits t ≡ true → all_digits (s ++ t) ≡ true
all_digits-append [] t h k = k
all_digits-append (c ∷ s) t h k = ground (arith, all_digits-append s t)

all_digits-reverse : (s : Text) → all_digits s ≡ true → all_digits (reverse s) ≡ true
all_digits-reverse [] h = refl
all_digits-reverse (c ∷ s) h =
    rw reverse-cons
      (all_digits-append (reverse s) (c ∷ []) (all_digits-reverse s (ground arith)) (ground arith))

not-is_space-digit : (c : ℕ) → is_digit c ≡ true → is_space c ≡ false
unfolding is_space
not-is_space-digit c h = ground arith

lstrip-digits : (s : Text) → all_digits s ≡ true → lstrip s ≡ s
unfolding lstrip
lstrip-digits [] h = refl
lstrip-digits (c ∷ s) h = ground (arith, not-is_space-digit c)

pub strip-digits : (s : Text) → all_digits s ≡ true → strip s ≡ s
unfolding strip
strip-digits s h =
    rw (lstrip-digits s h)
      (rw (lstrip-digits (reverse s) (all_digits-reverse s h)) (reverse-reverse s))

show_fuel_small : (f n : ℕ) → ltb n 10 ≡ true → show_fuel (suc f) n ≡ (48 + n) ∷ []
unfolding show_fuel
show_fuel_small f n h = rw (h, show_fuel) refl

show_fuel_large :
    (f n : ℕ) → ltb n 10 ≡ false → show_fuel (suc f) n ≡ show_fuel f (n / 10) ++ (48 + n % 10) ∷ []
unfolding show_fuel
show_fuel_large f n h = rw (h, show_fuel) refl

show_fuel-digits : (f n : ℕ) → all_digits (show_fuel f n) ≡ true
show_fuel-digits zero n = unfold show_fuel in refl
show_fuel-digits (suc f) n = elim (Bool-cases (ltb n 10)) [
  | inl small ↦ rw (show_fuel_small f n small) (ground arith)
  | inr large ↦ rw (show_fuel_large f n large) (
      all_digits-append (show_fuel f (n / 10)) ((48 + n % 10) ∷ []) (show_fuel-digits f (n / 10))
        (ground arith))
]

pub show-digits : (n : ℕ) → all_digits (show n) ≡ true
unfolding show
show-digits n = show_fuel-digits (suc n) n

pub lacks-digits :
    (sep : ℕ) (s : Text) → is_digit sep ≡ false → all_digits s ≡ true → lacks sep s ≡ true
unfolding lacks
lacks-digits sep [] h k = refl
lacks-digits sep (c ∷ s) h k = ground (arith, lacks-digits sep s)

digits_from-step :
    (acc d : ℕ) (b : Bool) (rest : Text)
    → d < 10
    → digits_from acc b ((48 + d) ∷ rest) ≡ digits_from (acc * 10 + d) true rest
unfolding digits_from
digits_from-step acc d b rest h = ground arith

digits_from-show_fuel :
    (f n : ℕ) (rest : Text)
    → n < f
    → digits_from 0 false (show_fuel f n ++ rest) ≡ digits_from n true rest
digits_from-show_fuel zero n rest h = elim h [ ]
digits_from-show_fuel (suc f) n rest h = elim (Bool-cases (ltb n 10)) [
  | inl small ↦ rw (show_fuel_small f n small) (
      digits_from-step 0 n false rest (ground arith)
      ∙ ap (λ (k : ℕ). digits_from k true rest) (omega arith))
  | inr large ↦ rw (show_fuel_large f n large) (
      rw append_assoc (
        digits_from-show_fuel f (n / 10) ((48 + n % 10) ∷ rest) (ground arith)
        ∙ digits_from-step (n / 10) (n % 10) true rest (omega arith)
        ∙ ap (λ (k : ℕ). digits_from k true rest) (omega arith)))
]

digits_from-show : (n : ℕ) → digits_from 0 false (show n) ≡ some n
unfolding show
digits_from-show n =
    rw (← append-nil (show_fuel (suc n) n))
      (digits_from-show_fuel (suc n) n [] (omega arith) ∙ unfold digits_from in refl)

digits_from-nil : digits_from 0 false [] ≡ none
unfolding digits_from
digits_from-nil = refl

signed-digits :
    (s : Text) (n : ℕ)
    → all_digits s ≡ true
    → digits_from 0 false s ≡ some n
    → signed s ≡ some (pos n)
signed-digits [] n h e = cc digits_from-nil
signed-digits (c ∷ s) n h e = ground arith

-- `int(str(n)) == n`.
pub parse_int-show : (n : ℕ) → parse_int (show n) ≡ some (pos n)
unfolding parse_int
parse_int-show n =
    rw (strip-digits (show n) (show-digits n))
      (signed-digits (show n) n (show-digits n) (digits_from-show n))
