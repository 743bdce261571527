-- ===== src/PainStore/Unique.antt =====
-- What the constraint gives, and when a flush is refused.
use mathlib.Core.List.{append_assoc, append-nil}
use lead_finder.Prelude.{
  ◌≡◌, refl, ◌∙◌, ap, true, false, ◌||◌, none, some, List, [], ◌∷◌, ◌++◌, arith, Option-cases,
  Bool-cases, inl, inr,
}
use lead_finder.Prelude.Text.{text_eq_iff}
use lead_finder.Models.{Pain}
use lead_finder.PainStore.{PainStore, same_key, has_key, insert_rows, flush}

-- No row has the key of a later one.
abbrev pub HasUniqueKeys : List Pain → Type 0
HasUniqueKeys [] = Unit
HasUniqueKeys (p ∷ rows) = (has_key p rows ≡ false) × HasUniqueKeys rows

same_key_symm : (p q : Pain) → same_key p q ≡ same_key q p
unfolding same_key
same_key_symm p q = ground (
  arith,
  text_eq_iff p.source_chat q.source_chat,
  text_eq_iff q.source_chat p.source_chat,
  text_eq_iff p.original_quote q.original_quote,
  text_eq_iff q.original_quote p.original_quote,
)

pub same_key_refl : (p : Pain) → same_key p p ≡ true
unfolding same_key
same_key_refl p =
    ground (
      arith,
      text_eq_iff p.source_chat p.source_chat,
      text_eq_iff p.original_quote p.original_quote,
    )

pub has_key-append :
    (p : Pain) (xs ys : List Pain) → has_key p (xs ++ ys) ≡ (has_key p xs || has_key p ys)
unfolding has_key
has_key-append p [] ys = ground arith
has_key-append p (x ∷ xs) ys = ground (arith, has_key-append p xs ys)

pub append-HasUniqueKeys :
    (rows : List Pain) (p : Pain)
    → HasUniqueKeys rows
    → has_key p rows ≡ false
    → HasUniqueKeys (rows ++ p ∷ [])
unfolding has_key
append-HasUniqueKeys [] p h k = (refl, tt)
append-HasUniqueKeys (q ∷ rows) p h k = (
  ground (arith, has_key-append q rows (p ∷ []), same_key_symm p q),
  append-HasUniqueKeys rows p h.1 (ground arith),
)

insert_rows-HasUniqueKeys :
    (rows stored out : List Pain)
    → HasUniqueKeys stored
    → insert_rows stored rows ≡ some out
    → HasUniqueKeys out
unfolding insert_rows
insert_rows-HasUniqueKeys [] stored out h e =
    let same : stored ≡ out = ground arith in rw (← same) h
insert_rows-HasUniqueKeys (p ∷ rows) stored out h e = elim (Bool-cases (has_key p stored)) [
  | inl taken ↦ absurd (ground arith)
  | inr new ↦
      insert_rows-HasUniqueKeys rows (stored ++ p ∷ []) out (append-HasUniqueKeys stored p h new)
        (ground arith)
]

-- A flush that succeeds keeps the keys unique.
pub flush-HasUniqueKeys :
    (s : PainStore) {s' : PainStore}
    → HasUniqueKeys s.stored
    → flush s ≡ some s'
    → HasUniqueKeys s'.stored
unfolding flush
flush-HasUniqueKeys s {s'} h e = elim (Option-cases (insert_rows s.stored s.pending)) [
  | inl refused ↦ absurd (ground arith)
  | inr (rows, inserted) ↦
      let kept = insert_rows-HasUniqueKeys s.pending s.stored rows h inserted in
      let same : rows ≡ s'.stored = ground arith in rw (← same) kept
]

not-has_key-middle :
    (stored : List Pain) (p : Pain) (rows : List Pain)
    → HasUniqueKeys (stored ++ p ∷ rows)
    → has_key p stored ≡ false
unfolding has_key
not-has_key-middle [] p rows h = refl
not-has_key-middle (q ∷ stored) p rows h = ground (
  arith,
  has_key-append q stored (p ∷ rows),
  same_key_symm p q,
  not-has_key-middle stored p rows h.1,
)

-- Inserting succeeds, with every row behind the stored ones, when no row repeats a key.
pub insert_rows-total :
    (rows stored : List Pain)
    → HasUniqueKeys (stored ++ rows)
    → insert_rows stored rows ≡ some (stored ++ rows)
unfolding insert_rows
insert_rows-total [] stored h = rw append-nil refl
insert_rows-total (p ∷ rows) stored h =
    let shape : (stored ++ p ∷ []) ++ rows ≡ stored ++ p ∷ rows =
      append_assoc stored (p ∷ []) rows in
    rw (not-has_key-middle stored p rows h, insert_rows)
      (insert_rows-total rows (stored ++ p ∷ []) (rw shape h) ∙ ap some shape)

-- A row that repeats the key of a stored row, or of one before it, makes the flush fail.
pub insert_rows-repeated :
    (before stored : List Pain) (p : Pain) (after : List Pain)
    → has_key p (stored ++ before) ≡ true
    → insert_rows stored (before ++ p ∷ after) ≡ none
unfolding insert_rows
insert_rows-repeated [] stored p after h =
    let taken : has_key p stored ≡ true = rw append-nil at h in rw (taken, insert_rows) refl
insert_rows-repeated (q ∷ before) stored p after h = elim (Bool-cases (has_key q stored)) [
  | inl taken ↦ rw (taken, insert_rows) refl
  | inr new ↦
      rw (new, insert_rows)
        (insert_rows-repeated before (stored ++ q ∷ []) p after (rw append_assoc h))
]

-- A flush that succeeds moves every pending row, in order, behind the stored ones.
insert_rows-append :
    (rows stored out : List Pain) → insert_rows stored rows ≡ some out → out ≡ stored ++ rows
unfolding insert_rows
insert_rows-append [] stored out e = rw append-nil (ground arith)
insert_rows-append (p ∷ rows) stored out e = elim (Bool-cases (has_key p stored)) [
  | inl taken ↦ absurd (ground arith)
  | inr new ↦
      insert_rows-append rows (stored ++ p ∷ []) out (ground arith)
      ∙ append_assoc stored (p ∷ []) rows
]

pub flush-append :
    (s : PainStore) {s' : PainStore}
    → flush s ≡ some s'
    → (s'.stored ≡ s.stored ++ s.pending) × (s'.pending ≡ [])
unfolding flush
flush-append s {s'} e = elim (Option-cases (insert_rows s.stored s.pending)) [
  | inl refused ↦ absurd (ground arith)
  | inr (rows, inserted) ↦
      let moved = insert_rows-append s.pending s.stored rows inserted in
      (ground arith, ground arith)
]
