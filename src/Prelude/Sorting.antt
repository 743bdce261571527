-- ===== src/Prelude/Sorting.antt =====
-- `sorted(xs, key=...)`, which is stable, as insertion under a test `before`: `before y x` holds
-- when `y` must stand before `x`.
use mathlib.Core.List.{Perm}
use mathlib.Core.List.Perm
use lead_finder.Prelude.{◌≡◌, Bool, true, false, List, [], ◌∷◌, Bool-cases, inl, inr, if◌then◌else◌}

module _ {ℓ} {A : Type ℓ} where
  unfoldable pub insert_by : (A → A → Bool) → A → List A → List A
  insert_by before x [] = x ∷ []
  insert_by before x (y ∷ ys) =
      let rest = insert_by before x ys in if before y x then y ∷ rest else x ∷ y ∷ ys

  unfoldable pub sort_by : (A → A → Bool) → List A → List A
  unfolding insert_by
  sort_by before [] = []
  sort_by before (x ∷ xs) = insert_by before x (sort_by before xs)

module _ {ℓ} {A : Type ℓ} (before : A → A → Bool) where
  -- None of the elements must stand before `x`.
  abbrev pub NoneBefore : A → List A → Type 0
  NoneBefore x [] = Unit
  NoneBefore x (y ∷ ys) = (before y x ≡ false) × NoneBefore x ys

  abbrev pub IsSorted : List A → Type 0
  IsSorted [] = Unit
  IsSorted (x ∷ xs) = NoneBefore x xs × IsSorted xs

  insert_by-perm : (x : A) (xs : List A) → Perm (insert_by before x xs) (x ∷ xs)
  unfolding insert_by
  insert_by-perm x [] = Perm.refl (x ∷ [])
  insert_by-perm x (y ∷ ys) = elim (Bool-cases (before y x)) [
    | inl h ↦ rw h (Perm.trans (Perm.cons y (insert_by-perm x ys)) (Perm.swap x y ys))
    | inr h ↦ rw h (Perm.refl (x ∷ y ∷ ys))
  ]

  pub sort_by-perm : (xs : List A) → Perm (sort_by before xs) xs
  unfolding sort_by
  sort_by-perm [] = Perm.refl []
  sort_by-perm (x ∷ xs) =
      Perm.trans (insert_by-perm x (sort_by before xs)) (Perm.cons x (sort_by-perm xs))

  module _ (asymm : (x y : A) → before x y ≡ true → before y x ≡ false)
      (chain : (x y z : A) → before z y ≡ false → before y x ≡ false → before z x ≡ false) where
    NoneBefore-chain :
        (x y : A) (zs : List A) → before y x ≡ false → NoneBefore y zs → NoneBefore x zs
    NoneBefore-chain x y [] h k = tt
    NoneBefore-chain x y (z ∷ zs) h k = (chain x y z k.0 h, NoneBefore-chain x y zs h k.1)

    insert_by-NoneBefore :
        (x y : A) (ys : List A)
        → before x y ≡ false
        → NoneBefore y ys
        → NoneBefore y (insert_by before x ys)
    unfolding insert_by
    insert_by-NoneBefore x y [] h k = (h, tt)
    insert_by-NoneBefore x y (z ∷ zs) h k = elim (Bool-cases (before z x)) [
      | inl b ↦ rw b (k.0, insert_by-NoneBefore x y zs h k.1)
      | inr b ↦ rw b (h, k)
    ]

    insert_by-IsSorted : (x : A) (ys : List A) → IsSorted ys → IsSorted (insert_by before x ys)
    unfolding insert_by
    insert_by-IsSorted x [] h = (tt, tt)
    insert_by-IsSorted x (y ∷ ys) h = elim (Bool-cases (before y x)) [
      | inl b ↦ rw b (insert_by-NoneBefore x y ys (asymm y x b) h.0, insert_by-IsSorted x ys h.1)
      | inr b ↦ rw b ((b, NoneBefore-chain x y ys b h.0), h)
    ]

    pub sort_by-IsSorted : (xs : List A) → IsSorted (sort_by before xs)
    unfolding sort_by
    sort_by-IsSorted [] = tt
    sort_by-IsSorted (x ∷ xs) = insert_by-IsSorted x (sort_by before xs) (sort_by-IsSorted xs)
