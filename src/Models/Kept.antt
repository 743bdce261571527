-- ===== src/Models/Kept.antt =====
-- What holds of all rows of a table holds of all rows that a query, an order or a page leaves.
use lead_finder.Prelude.{
  ℕ, zero, suc, ◌*◌, ◌≡◌, Bool, true, List, [], ◌∷◌, Bool-cases, inl, inr, take, drop,
}
use lead_finder.Prelude.Sorting.{insert_by, sort_by}
use lead_finder.Prelude.Paging.{page_of}
use lead_finder.Models.Table.{All, where_rows}

module _ {ℓ κ} {A : Type ℓ} (P : A → Type κ) where
  insert_by-All :
      (before : A → A → Bool) (x : A) (xs : List A) → P x → All P xs → All P (insert_by before x xs)
  unfolding insert_by
  insert_by-All before x [] p h = (p, tt)
  insert_by-All before x (y ∷ ys) p h = elim (Bool-cases (before y x)) [
    | inl b ↦ rw b (h.0, insert_by-All before x ys p h.1)
    | inr b ↦ rw b (p, h)
  ]

  pub sort_by-All : (before : A → A → Bool) (xs : List A) → All P xs → All P (sort_by before xs)
  unfolding sort_by
  sort_by-All before [] h = tt
  sort_by-All before (x ∷ xs) h =
      insert_by-All before x (sort_by before xs) h.0 (sort_by-All before xs h.1)

  pub take-All : (n : ℕ) (xs : List A) → All P xs → All P (take n xs)
  take-All zero xs h = tt
  take-All (suc n) [] h = tt
  take-All (suc n) (x ∷ xs) h = (h.0, take-All n xs h.1)

  drop-All : (n : ℕ) (xs : List A) → All P xs → All P (drop n xs)
  drop-All zero xs h = h
  drop-All (suc n) [] h = tt
  drop-All (suc n) (x ∷ xs) h = drop-All n xs h.1

  pub page_of-All : (size page : ℕ) (xs : List A) → All P xs → All P (page_of size page xs)
  unfolding page_of
  page_of-All size page xs h = take-All size (drop (page * size) xs) (drop-All (page * size) xs h)

-- The rows that a query gives pass its test.
pub where_rows-All {ℓ} :
    {A : Type ℓ} (p : A → Bool) (rows : List A) → All (λ (r : A). p r ≡ true) (where_rows p rows)
unfolding where_rows
where_rows-All p [] = tt
where_rows-All p (r ∷ rows) = elim (Bool-cases (p r)) [
  | inl h ↦ rw h (h, where_rows-All p rows)
  | inr h ↦ rw h (where_rows-All p rows)
]

pub All-imply {ℓ κ} :
    {A : Type ℓ} {P Q : A → Type κ} (xs : List A) → ((x : A) → P x → Q x) → All P xs → All Q xs
All-imply [] f h = tt
All-imply (x ∷ xs) f h = (f x h.0, All-imply xs f h.1)
