-- ===== src/Qualifier/Payload/Widest.antt =====
-- The payload is the widest part between braces, and the regular expression behind it never finds
-- more.
use mathlib.Core.List.{append_assoc}
use lead_finder.Prelude.{
  ℕ, zero, suc, ◌+◌, ◌≡◌, refl, ◌∙◌, true, false, Option, none, some, [], ◌∷◌, ◌++◌, arith,
  if◌then◌else◌, length, length-append, ltb,
}
use lead_finder.Prelude.Text.{Text, text, strip, lacks}
use lead_finder.Qualifier.Recovery.{slice, find}
use lead_finder.Qualifier.Recovery.Sound.{slice-append}
use lead_finder.Qualifier.Payload.{
  rfind, unfence, search_braces, or_search, cut_braces, extract_json_payload,
}

find-lacks :
    (c : ℕ) (pre rest : Text)
    → lacks c pre ≡ true
    → find (c ∷ []) (pre ++ c ∷ rest) ≡ some (length pre)
unfolding find lacks
find-lacks c [] rest h = ground arith
find-lacks c (x ∷ pre) rest h = ground (arith, find-lacks c pre rest)

rfind-lacks : (c : ℕ) (post : Text) → lacks c post ≡ true → rfind c post ≡ none
unfolding rfind lacks
rfind-lacks c [] h = refl
rfind-lacks c (x ∷ post) h = ground (arith, rfind-lacks c post)

rfind-append :
    (c : ℕ) (pre post : Text) → lacks c post ≡ true → rfind c (pre ++ c ∷ post) ≡ some (length pre)
unfolding rfind
rfind-append c [] post h = ground (arith, rfind-lacks c post h)
rfind-append c (x ∷ pre) post h = ground (arith, rfind-append c pre post h)

search_braces-rfind : (s : Text) → rfind b'}' s ≡ none → search_braces s ≡ none
unfolding search_braces rfind
search_braces-rfind [] h = refl
search_braces-rfind (c ∷ s) h = ground (arith, search_braces-rfind s)

search_braces-find : (s : Text) → find (b'{' ∷ []) s ≡ none → search_braces s ≡ none
unfolding search_braces find
search_braces-find [] h = refl
search_braces-find (c ∷ s) h = ground (arith, search_braces-find s)

-- With every closing brace before the first opening one the expression has no match.
search_braces-order :
    (s : Text) (a b : ℕ)
    → find (b'{' ∷ []) s ≡ some a
    → rfind b'}' s ≡ some b
    → ltb a b ≡ false
    → search_braces s ≡ none
unfolding search_braces find rfind
search_braces-order [] a b h k e = refl
search_braces-order (c ∷ s) zero b h k e = ground (arith, search_braces-rfind s)
search_braces-order (c ∷ s) (suc a) zero h k e = ground (arith, search_braces-rfind s)
search_braces-order (c ∷ s) (suc a) (suc b) h k e = ground (arith, search_braces-order s a b)

-- The function with no regular expression in it.
abbrev pub cut_plain : Text → Option ℕ → Option ℕ → Text
cut_plain s (some start) (some end) = if ltb start end then slice start (end + 1) s else s
cut_plain s _ _ = s

or_search-none : (s : Text) → search_braces s ≡ none → or_search s ≡ s
unfolding or_search
or_search-none s h = rw (h, or_search) refl

cut_braces-plain :
    (s : Text) (start end : Option ℕ)
    → find (b'{' ∷ []) s ≡ start
    → rfind b'}' s ≡ end
    → cut_braces s start end ≡ cut_plain s start end
cut_braces-plain s none end h k = or_search-none s (search_braces-find s h)
cut_braces-plain s (some a) none h k = or_search-none s (search_braces-rfind s k)
cut_braces-plain s (some a) (some b) h k =
    ground (arith, or_search-none s, search_braces-order s a b h k)

-- The regular expression at the end of `_extract_json_payload` never changes its result: it is
-- reached only for texts in which it has no match.
pub extract_json_payload-plain :
    (raw : Text)
    → let s = unfence (strip raw) in
      extract_json_payload raw ≡ cut_plain s (find (text "{") s) (rfind b'}' s)
unfolding extract_json_payload
extract_json_payload-plain raw =
    let s = unfence (strip raw) in cut_braces-plain s (find (text "{") s) (rfind b'}' s) refl refl

-- Around an object that is written in prose, the part from the first opening brace to the last
-- closing one is what is parsed.
pub extract_json_payload-widest :
    (raw pre mid post : Text)
    → lacks b'{' pre ≡ true
    → lacks b'}' post ≡ true
    → unfence (strip raw) ≡ pre ++ b'{' ∷ (mid ++ b'}' ∷ post)
    → extract_json_payload raw ≡ b'{' ∷ (mid ++ b'}' ∷ [])
extract_json_payload-widest raw pre mid post h k shape =
    let end = length (pre ++ b'{' ∷ mid) in
    let count = length-append pre (b'{' ∷ mid) in
    let object_length = length-append mid (b'}' ∷ []) in
    let last : rfind b'}' (pre ++ b'{' ∷ (mid ++ b'}' ∷ post)) ≡ some end =
      rw (← append_assoc pre (b'{' ∷ mid) (b'}' ∷ post))
        (rfind-append b'}' (pre ++ b'{' ∷ mid) post k) in
    let wide : ltb (length pre) end ≡ true = ground (arith, count) in
    extract_json_payload-plain raw
    ∙ rw (shape, find-lacks b'{' pre (mid ++ b'}' ∷ post) h, last, wide)
        (rw (← append_assoc mid (b'}' ∷ []) post) (
          slice-append pre (b'{' ∷ (mid ++ b'}' ∷ [])) post (length pre) (end + 1) refl
            (omega (arith, count, object_length))))
