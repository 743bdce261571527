-- ===== src/MembersParser/Links.antt =====
-- What can be read back from a message's link.
use mathlib.Core.List.{append_assoc}
use lead_finder.Prelude.{
  ℕ, ◌≡◌, refl, sym, ap, ◌∙◌, Bool, true, false, ◌&&◌, Option, some, List, [], ◌∷◌, ◌++◌, inl, inr,
  arith, ◌==◌, Bool-cases,
}
use lead_finder.Prelude.Int.{ℤ, pos}
use lead_finder.Prelude.Text.{
  Text, text, truthy, or_empty, split, split-lacks, split-append, cons_head, lacks, lstrip_char,
}
use lead_finder.Prelude.Numeral.{show, parse_int}
use lead_finder.Prelude.Decimal.{parse_int-show, show-digits, lacks-digits}
use lead_finder.MembersParser.{generate_message_link, without_100, abs}

-- `s.split("/")[-1]`
abbrev pub last_part : List Text → Text
last_part [] = []
last_part (w ∷ []) = w
last_part (w ∷ v ∷ ws) = last_part (v ∷ ws)

split-sep : (sep c : ℕ) (s : Text) → (c == sep) ≡ true → split sep (c ∷ s) ≡ [] ∷ split sep s
unfolding split
split-sep sep c s h = ground arith

split-char :
    (sep c : ℕ) (s : Text) → (c == sep) ≡ false → split sep (c ∷ s) ≡ cons_head c (split sep s)
unfolding split
split-char sep c s h = ground arith

split-two :
    (sep : ℕ) (a b : Text)
    → lacks sep b ≡ true
    → (w : Text) × (v : Text) × (ws : List Text) × (split sep (a ++ sep ∷ b) ≡ w ∷ v ∷ ws)
      × (last_part (v ∷ ws) ≡ b)
split-two sep [] b h = (
  [],
  b,
  [],
  split-append sep [] b (unfold lacks in refl)
      ∙ ap (λ (ps : List Text). [] ∷ ps) (split-lacks sep b h),
  refl,
)
split-two sep (c ∷ a) b h =
    let (w, v, ws, e, last) = split-two sep a b h in
    elim (Bool-cases (c == sep)) [
      | inl y ↦ ([], w, v ∷ ws, split-sep sep c _ y ∙ ap (λ (ps : List Text). [] ∷ ps) e, last)
      | inr y ↦ (c ∷ w, v, ws, split-char sep c _ y ∙ ap (cons_head c) e, last)
    ]

last_part-split :
    (sep : ℕ) (a b : Text) → lacks sep b ≡ true → last_part (split sep (a ++ sep ∷ b)) ≡ b
last_part-split sep a b h = let (w, v, ws, e, last) = split-two sep a b h in rw e last

parse-last :
    (a : Text) (n : ℕ) → parse_int (last_part (split b'/' (a ++ b'/' ∷ show n))) ≡ some (pos n)
parse-last a n =
    rw (last_part-split b'/' a (show n) (lacks-digits b'/' (show n) refl (show-digits n)))
      (parse_int-show n)

generate_message_link-end :
    (u : Option Text) (chat_id : ℤ) (m : ℕ) (p : Bool) (link : Text)
    → generate_message_link u chat_id m p ≡ some link
    → (front : Text) × (link ≡ front ++ b'/' ∷ show m)
unfolding generate_message_link
generate_message_link-end u chat_id m p link e = elim (Bool-cases (p && truthy (or_empty u))) [
  | inl y ↦
      let name = lstrip_char b'@' (or_empty u) in
      (text "t.me/" ++ name, sym (append_assoc (text "t.me/") name (b'/' ∷ show m) ∙ ground arith))
  | inr y ↦ elim (Bool-cases (abs chat_id == 0)) [
    | inl z ↦ absurd (ground arith)
    | inr z ↦
        let name = without_100 (show (abs chat_id)) in
        (
          text "t.me/c/" ++ name,
          sym (append_assoc (text "t.me/c/") name (b'/' ∷ show m) ∙ ground arith),
        )
  ]
]

-- Every link that is generated ends with the number of its message: what follows the last slash
-- reads as that number.
pub generate_message_link-id :
    (chat_username : Option Text) (chat_id : ℤ) (message_id : ℕ) (is_public : Bool) (link : Text)
    → generate_message_link chat_username chat_id message_id is_public ≡ some link
    → parse_int (last_part (split b'/' link)) ≡ some (pos message_id)
generate_message_link-id u chat_id m p link e =
    let (front, e') = generate_message_link-end u chat_id m p link e in rw e' (parse-last front m)
