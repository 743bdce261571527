-- ===== src/Prelude/Text.antt =====
-- Python's `str` as the list of its code points, with the methods that the program calls.
use Prim.Native.Char.{code}
use Prim.Native.String.{String}
use lead_finder.Prelude.{
  ℕ, ◌+◌, ◌≡◌, refl, ◌↔◌, Bool, true, false, not, ◌&&◌, ◌||◌, List, [], ◌∷◌, ◌++◌, map, reverse,
  Option, none, some, arith, leb, ◌==◌, if◌then◌else◌,
}

abbrev pub Text : Type 0
Text = List ℕ

-- A literal of the source.
abbrev pub text : String → Text
text String.[] = []
text (String.◌∷◌ c s) = code c ∷ text s

-- `a == b` on `str`.
unfoldable pub text_eq : Text → Text → Bool
text_eq [] [] = true
text_eq [] (y ∷ ys) = false
text_eq (x ∷ xs) [] = false
text_eq (x ∷ xs) (y ∷ ys) = x == y && text_eq xs ys

pub text_eq_refl : (s : Text) → text_eq s s ≡ true
unfolding text_eq
text_eq_refl [] = refl
text_eq_refl (x ∷ xs) = ground (arith, text_eq_refl xs)

pub text_eq-eq : (s t : Text) → text_eq s t ≡ true → s ≡ t
unfolding text_eq
text_eq-eq [] [] h = refl
text_eq-eq [] (y ∷ ys) h = ground arith
text_eq-eq (x ∷ xs) [] h = ground arith
text_eq-eq (x ∷ xs) (y ∷ ys) h = ground (arith, text_eq-eq xs ys)

pub text_eq_iff : (s t : Text) → (text_eq s t ≡ true) ↔ (s ≡ t)
text_eq_iff s t = (text_eq-eq s t, λ e. rw e (text_eq_refl t))

-- The truth value of a `str`: false when it is empty.
abbrev pub truthy : Text → Bool
truthy [] = false
truthy (c ∷ s) = true

-- `s or ""` for an optional `str`.
abbrev pub or_empty : Option Text → Text
or_empty none = []
or_empty (some s) = s

-- `c.isspace()`, the characters that `strip()` removes.
unfoldable pub is_space : ℕ → Bool
is_space c =
    (leb 9 c && leb c 13)
    || (leb 28 c && leb c 32)
    || c == 0x85
    || c == 0xa0
    || c == 0x1680
    || (leb 0x2000 c && leb c 0x200a)
    || c == 0x2028
    || c == 0x2029
    || c == 0x202f
    || c == 0x205f
    || c == 0x3000

-- Drops the longest prefix whose characters pass the test.
unfoldable pub drop_while : (ℕ → Bool) → Text → Text
drop_while p [] = []
drop_while p (c ∷ s) = let rest = drop_while p s in if p c then rest else c ∷ s

unfoldable pub lstrip : Text → Text
unfolding drop_while is_space
lstrip = drop_while is_space

unfoldable pub rstrip : Text → Text
unfolding lstrip
rstrip s = reverse (lstrip (reverse s))

-- `s.strip()`
unfoldable pub strip : Text → Text
unfolding lstrip rstrip
strip s = rstrip (lstrip s)

-- `s.lstrip("@")` and its kind, for one character.
unfoldable pub lstrip_char : ℕ → Text → Text
unfolding drop_while
lstrip_char c = drop_while (λ x. x == c)

unfoldable pub starts_with : Text → Text → Bool
starts_with [] s = true
starts_with (p ∷ ps) [] = false
starts_with (p ∷ ps) (c ∷ s) = p == c && starts_with ps s

-- `p in s`
unfoldable pub contains : Text → Text → Bool
unfolding starts_with
contains p [] = starts_with p []
contains p (c ∷ s) = starts_with p (c ∷ s) || contains p s

-- `s.lower()` on ASCII and Russian letters, the ones that the program's words use.
unfoldable pub lower_char : ℕ → ℕ
lower_char c =
    if leb 0x41 c && leb c 0x5a
    then c + 32
    else if leb 0x410 c && leb c 0x42f
    then c + 32
    else if leb 0x400 c && leb c 0x40f
    then c + 80
    else c

unfoldable pub lower : Text → Text
unfolding lower_char
lower = map lower_char

-- Puts a character in front of the first piece.
abbrev pub cons_head : ℕ → List Text → List Text
cons_head c [] = (c ∷ []) ∷ []
cons_head c (w ∷ ws) = (c ∷ w) ∷ ws

-- `s.split(sep)` for a separator of one character.
unfoldable pub split : ℕ → Text → List Text
split sep [] = [] ∷ []
split sep (c ∷ s) = let rest = split sep s in if c == sep then [] ∷ rest else cons_head c rest

-- No character of the text is `c`.
unfoldable pub lacks : ℕ → Text → Bool
lacks c [] = true
lacks c (x ∷ s) = not (x == c) && lacks c s

-- Splitting `a + sep + b` gives `a` and the pieces of `b`, where `a` holds no separator.
pub split-append :
    (sep : ℕ) (a b : Text) → lacks sep a ≡ true → split sep (a ++ sep ∷ b) ≡ a ∷ split sep b
unfolding split lacks
split-append sep [] b h = ground arith
split-append sep (c ∷ a) b h = ground (arith, split-append sep a b)

-- A text without the separator is its own only piece.
pub split-lacks : (sep : ℕ) (a : Text) → lacks sep a ≡ true → split sep a ≡ a ∷ []
unfolding split lacks
split-lacks sep [] h = refl
split-lacks sep (c ∷ a) h = ground (arith, split-lacks sep a)

strip_example : strip (text " \n ab c\t ") ≡ text "ab c"
unfolding strip
strip_example = refl

split_example : split b':' (text "a:bc::d") ≡ text "a" ∷ text "bc" ∷ [] ∷ text "d" ∷ []
unfolding split
split_example = refl

lower_example : lower (text "НЕТ API Ё") ≡ text "нет api ё"
unfolding lower
lower_example = refl
