-- ===== src/Models/Table.antt =====
-- A table as the list of its rows, with the forms of query that the program uses.
use lead_finder.Prelude.{
  ℕ, suc, ◌≡◌, refl, Bool, true, Option, none, some, List, [], ◌∷◌, ◌++◌, arith, if◌then◌else◌,
  length,
}

module _ {ℓ} {A : Type ℓ} where
  -- `select(A).where(p)` with `scalars().all()`
  unfoldable pub where_rows : (A → Bool) → List A → List A
  where_rows p [] = []
  where_rows p (r ∷ rows) = let rest = where_rows p rows in if p r then r ∷ rest else rest

  -- `select(A).where(p)` with `scalars().first()`
  unfoldable pub first_row : (A → Bool) → List A → Option A
  first_row p [] = none
  first_row p (r ∷ rows) = if p r then some r else first_row p rows

  -- `select(func.count(A.id)).where(p)`
  unfoldable pub count_rows : (A → Bool) → List A → ℕ
  count_rows p [] = 0
  count_rows p (r ∷ rows) = let n = count_rows p rows in if p r then suc n else n

  -- An assignment to the attributes of the rows that pass the test.
  unfoldable pub update_rows : (A → Bool) → (A → A) → List A → List A
  update_rows p f [] = []
  update_rows p f (r ∷ rows) = (if p r then f r else r) ∷ update_rows p f rows

  -- `delete(A).where(p)`
  unfoldable pub delete_rows : (A → Bool) → List A → List A
  delete_rows p [] = []
  delete_rows p (r ∷ rows) = let rest = delete_rows p rows in if p r then rest else r ∷ rest

  -- Every row satisfies the predicate.
  abbrev pub All {κ} : (A → Type κ) → List A → Type κ
  All P [] = Unit
  All P (r ∷ rows) = P r × All P rows

  pub count_rows-eq-length :
      (p : A → Bool) (rows : List A) → count_rows p rows ≡ length (where_rows p rows)
  unfolding count_rows where_rows
  count_rows-eq-length p [] = refl
  count_rows-eq-length p (r ∷ rows) = ground (arith, count_rows-eq-length p rows)

  -- The row that a query finds passes its test.
  pub first_row-test :
      (p : A → Bool) (rows : List A) (r : A) → first_row p rows ≡ some r → p r ≡ true
  unfolding first_row
  first_row-test p [] r h = ground arith
  first_row-test p (s ∷ rows) r h = ground (arith, first_row-test p rows r)

  -- Where the rows that pass are updated and still pass, a query finds the updated first row.
  pub first_row-update_rows :
      (p : A → Bool) (f : A → A) (rows : List A) (r : A)
      → ((s : A) → p s ≡ true → p (f s) ≡ true)
      → first_row p rows ≡ some r
      → first_row p (update_rows p f rows) ≡ some (f r)
  unfolding first_row update_rows
  first_row-update_rows p f [] r keep h = ground arith
  first_row-update_rows p f (s ∷ rows) r keep h =
      ground (arith, keep s, first_row-update_rows p f rows r keep)

-- One more row at the end.
pub All-append {ℓ κ} :
    {A : Type ℓ} (P : A → Type κ) (rows : List A) (r : A)
    → All P rows
    → P r
    → All P (rows ++ r ∷ [])
All-append P [] r h k = (k, tt)
All-append P (s ∷ rows) r h k = (h.0, All-append P rows r h.1 k)

-- Two tables that are related row by row.
abbrev pub Paired {ℓ} : {A : Type ℓ} → (A → A → Type 0) → List A → List A → Type 0
Paired R [] [] = Unit
Paired R (r ∷ rows) (s ∷ later) = R r s × Paired R rows later
Paired R _ _ = ⊥
