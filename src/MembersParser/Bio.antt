-- ===== src/MembersParser/Bio.antt =====
-- `find_channel_in_bio`: the two regular expressions, read from the left. `is_word` is what `\w`
-- matches.
use lead_finder.Prelude.{
  ℕ, zero, suc, ◌≤◌, ◌≡◌, refl, sym, subst, ◌∙◌, Bool, true, false, not, ◌&&◌, ◌||◌, Option, none,
  some, [], ◌∷◌, ◌++◌, ◌⊎◌, inl, inr, arith, leb, ◌==◌, if◌then◌else◌, length, take, drop,
  length-take, Bool-cases, Option-cases, eq_of_some,
}
use lead_finder.Prelude.Text.{Text, text, starts_with, contains}

-- `[a-zA-Z0-9_]`
unfoldable pub is_handle_char : ℕ → Bool
is_handle_char c =
    (leb 0x61 c && leb c 0x7a)
    || (leb 0x41 c && leb c 0x5a)
    || (leb 0x30 c && leb c 0x39)
    || c == b'_'

-- The longest prefix of handle characters.
unfoldable pub handle_run : Text → Text
handle_run [] = []
handle_run (c ∷ s) = let rest = handle_run s in if is_handle_char c then c ∷ rest else []

-- `[a-zA-Z0-9_]{5,32}` at the start of a text: as many characters as there are, 32 at most.
unfoldable pub match_handle : Text → Option Text
unfolding handle_run
match_handle s = let run = handle_run s in if leb 5 (length run) then some (take 32 run) else none

-- `(?<!\w)@([a-zA-Z0-9_]{5,32})`, the whole match; the flag is whether `\w` stands before.
unfoldable pub search_at : (ℕ → Bool) → Bool → Text → Option Text
search_at is_word after_word [] = none
search_at is_word after_word (c ∷ s) =
    let later = search_at is_word (is_word c) s in
    if c == b'@' && not after_word
    then elim (match_handle s) [ some handle ↦ some (c ∷ handle) | none ↦ later ]
    else later

-- `t\.me\/([a-zA-Z0-9_]{5,32})`, the group.
unfoldable pub search_link : Text → Option Text
search_link [] = none
search_link (c ∷ s) =
    let later = search_link s in
    if starts_with (text "t.me/") (c ∷ s)
    then elim (match_handle (drop 5 (c ∷ s))) [ some handle ↦ some handle | none ↦ later ]
    else later

abbrev pub or_link : Text → Option Text → Option Text
or_link bio (some found) = some found
or_link bio none = elim (search_link bio) [
  | some handle ↦ some (text "t.me/" ++ handle)
  | none ↦ none
]

unfoldable pub find_channel_in_bio : (ℕ → Bool) → Option Text → Option Text
unfolding search_at search_link
find_channel_in_bio is_word none = none
find_channel_in_bio is_word (some []) = none
find_channel_in_bio is_word (some (c ∷ s)) = or_link (c ∷ s) (search_at is_word false (c ∷ s))

-- A channel's name as Telegram allows it: 5 to 32 of the characters.
abbrev pub all_handle : Text → Bool
all_handle [] = true
all_handle (c ∷ s) = is_handle_char c && all_handle s

abbrev pub IsHandle : Text → Type 0
IsHandle s = (5 ≤ length s) × (length s ≤ 32) × (all_handle s ≡ true)

all_handle-run : (s : Text) → all_handle (handle_run s) ≡ true
unfolding handle_run
all_handle-run [] = refl
all_handle-run (c ∷ s) = ground (arith, all_handle-run s)

all_handle-take : (n : ℕ) (s : Text) → all_handle s ≡ true → all_handle (take n s) ≡ true
all_handle-take zero s h = refl
all_handle-take (suc n) [] h = refl
all_handle-take (suc n) (c ∷ s) h = ground (arith, all_handle-take n s)

match_handle-IsHandle : (s h : Text) → match_handle s ≡ some h → IsHandle h
unfolding match_handle
match_handle-IsHandle s h e =
    ground
      (arith, length-take 32 (handle_run s), all_handle-take 32 (handle_run s) (all_handle-run s))

starts_with-take_run : (n : ℕ) (s : Text) → starts_with (take n (handle_run s)) s ≡ true
unfolding starts_with handle_run
starts_with-take_run zero s = refl
starts_with-take_run (suc n) [] = refl
starts_with-take_run (suc n) (c ∷ s) = elim (Bool-cases (is_handle_char c)) [
  | inl y ↦ rw y (ground (arith, starts_with-take_run n s))
  | inr y ↦ rw y refl
]

match_handle-starts : (s h : Text) → match_handle s ≡ some h → starts_with h s ≡ true
unfolding match_handle
match_handle-starts s h e = ground (arith, starts_with-take_run 32 s)

contains_of_starts : (p s : Text) → starts_with p s ≡ true → contains p s ≡ true
unfolding contains
contains_of_starts p [] h = h
contains_of_starts p (c ∷ s) h = rw h refl

-- A channel's mark stands in the bio: an `@` or the address of Telegram, and a name.
abbrev pub IsMarkIn : Text → Text → Type 0
IsMarkIn bio found =
    (contains found bio ≡ true)
    × (((h : Text) × (found ≡ b'@' ∷ h) × IsHandle h)
        ⊎ ((h : Text) × (found ≡ text "t.me/" ++ h) × IsHandle h))

IsMarkIn-cons : (c : ℕ) (s found : Text) → IsMarkIn s found → IsMarkIn (c ∷ s) found
unfolding contains
IsMarkIn-cons c s found h = (ground (arith, h.0), h.1)

search_at-cases :
    (is_word : ℕ → Bool) (after : Bool) (c : ℕ) (s : Text)
    → (search_at is_word after (c ∷ s) ≡ search_at is_word (is_word c) s)
      ⊎ ((h : Text) × (match_handle s ≡ some h)
          × (starts_with (b'@' ∷ h) (c ∷ s) ≡ true)
          × (search_at is_word after (c ∷ s) ≡ some (b'@' ∷ h)))
unfolding search_at starts_with
search_at-cases is_word after c s = elim (Option-cases (match_handle s)) [
  | inl n ↦ inl (ground arith)
  | inr (h, m) ↦ elim (Bool-cases (c == b'@' && not after)) [
    | inl y ↦ inr (h, m, ground (arith, match_handle-starts s h m), ground arith)
    | inr y ↦ inl (ground arith)
  ]
]

search_link-cases :
    (c : ℕ) (s : Text)
    → (search_link (c ∷ s) ≡ search_link s)
      ⊎ ((h : Text) × (match_handle (drop 5 (c ∷ s)) ≡ some h)
          × (starts_with (text "t.me/") (c ∷ s) ≡ true)
          × (search_link (c ∷ s) ≡ some h))
unfolding search_link
search_link-cases c s = elim (Option-cases (match_handle (drop 5 (c ∷ s)))) [
  | inl n ↦ inl (ground arith)
  | inr (h, m) ↦ elim (Bool-cases (starts_with (text "t.me/") (c ∷ s))) [
    | inl y ↦ inr (h, m, y, ground arith)
    | inr y ↦ inl (ground arith)
  ]
]

search_at-IsMarkIn :
    (is_word : ℕ → Bool) (after : Bool) (s found : Text)
    → search_at is_word after s ≡ some found
    → IsMarkIn s found
search_at-IsMarkIn is_word after [] found e = absurd (unfold search_at in ground arith)
search_at-IsMarkIn is_word after (c ∷ s) found e = elim (search_at-cases is_word after c s) [
  | inl same ↦
      IsMarkIn-cons c s found (search_at-IsMarkIn is_word (is_word c) s found (sym same ∙ e))
  | inr (h, m, starts, hit) ↦
      subst (λ (x : Text). IsMarkIn (c ∷ s) x) (eq_of_some (sym hit ∙ e))
        (contains_of_starts (b'@' ∷ h) (c ∷ s) starts, inl (h, refl, match_handle-IsHandle s h m))
]

starts_with-append :
    (p h s : Text)
    → starts_with p s ≡ true
    → starts_with h (drop (length p) s) ≡ true
    → starts_with (p ++ h) s ≡ true
unfolding starts_with
starts_with-append [] h s a b = b
starts_with-append (c ∷ p) h [] a b = a
starts_with-append (c ∷ p) h (d ∷ s) a b = ground (arith, starts_with-append p h s)

search_link-IsMarkIn : (s h : Text) → search_link s ≡ some h → IsMarkIn s (text "t.me/" ++ h)
search_link-IsMarkIn [] h e = absurd (unfold search_link in ground arith)
search_link-IsMarkIn (c ∷ s) h e = elim (search_link-cases c s) [
  | inl same ↦ IsMarkIn-cons c s (text "t.me/" ++ h) (search_link-IsMarkIn s h (sym same ∙ e))
  | inr (k, m, starts, hit) ↦
      subst (λ (x : Text). IsMarkIn (c ∷ s) (text "t.me/" ++ x)) (eq_of_some (sym hit ∙ e))
        (
          contains_of_starts (text "t.me/" ++ k) (c ∷ s) (
              starts_with-append (text "t.me/") k (c ∷ s) starts
                (match_handle-starts (drop 5 (c ∷ s)) k m)),
          inr (k, refl, match_handle-IsHandle (drop 5 (c ∷ s)) k m),
        )
]

-- A channel that is found in a bio is `@name` or `t.me/name`, where the name has 5 to 32 letters,
-- digits and underscores, and this text stands in the bio.
pub find_channel-IsMarkIn :
    (is_word : ℕ → Bool) (bio found : Text)
    → find_channel_in_bio is_word (some bio) ≡ some found
    → IsMarkIn bio found
unfolding find_channel_in_bio
find_channel-IsMarkIn is_word [] found e = absurd (ground arith)
find_channel-IsMarkIn is_word (c ∷ s) found e =
    elim (Option-cases (search_at is_word false (c ∷ s))) [
      | inl none_found ↦ elim (Option-cases (search_link (c ∷ s))) [
        | inl no_link ↦ absurd (ground arith)
        | inr (h, link) ↦
            subst (λ (x : Text). IsMarkIn (c ∷ s) x) (ground arith)
              (search_link-IsMarkIn (c ∷ s) h link)
      ]
      | inr (x, first) ↦ search_at-IsMarkIn is_word false (c ∷ s) found (ground arith)
    ]
