-- ===== src/Prelude/Paging.antt =====
-- Lists in pages of one size, as the bot shows them.
use native.Mathlib.Nat.{div-mul-le_self, lt-div-mul-add, le-div_iff_mul-le, mul-le-mul_right}
use lead_finder.Prelude.{
  ℕ, zero, suc, ◌+◌, ◌-◌, ◌*◌, ◌/◌, ◌≤◌, ◌<◌, ◌≡◌, refl, sym, ap, ◌∙◌, List, [], ◌∷◌, ◌++◌, min,
  arith, take, drop, length, take-append-drop, length-take, length-drop,
}
use lead_finder.Prelude.Int.{ℤ, pos, negsuc}

-- `(total + size - 1) // size`
unfoldable pub page_count : ℕ → ℕ → ℕ
page_count size total = (total + size - 1) / size

-- `max(0, min(page, total_pages - 1))`, where there is at least one page.
unfoldable pub clamp_page : ℤ → ℕ → ℕ
clamp_page (pos page) total_pages = min page (total_pages - 1)
clamp_page (negsuc n) total_pages = 0

module _ {ℓ} {A : Type ℓ} where
  -- `xs[start : start + size]` with `start = page * size`
  unfoldable pub page_of : ℕ → ℕ → List A → List A
  page_of size page xs = take size (drop (page * size) xs)

  -- The pages from `page` on, `n` of them, one after the other.
  unfoldable pub pages_from : ℕ → ℕ → ℕ → List A → List A
  unfolding page_of
  pages_from size zero page xs = []
  pages_from size (suc n) page xs = page_of size page xs ++ pages_from size n (suc page) xs

  drop-nil : (n : ℕ) → drop {A = A} n [] ≡ []
  drop-nil zero = refl
  drop-nil (suc n) = refl

  drop-drop : (m n : ℕ) (xs : List A) → drop m (drop n xs) ≡ drop (n + m) xs
  drop-drop m zero xs = let same : m ≡ 0 + m = omega arith in ap (λ (k : ℕ). drop k xs) same
  drop-drop m (suc n) [] = drop-nil m ∙ sym (drop-nil (suc n + m))
  drop-drop m (suc n) (x ∷ xs) =
      let same : suc (n + m) ≡ suc n + m = omega arith in
      drop-drop m n xs ∙ ap (λ (k : ℕ). drop k (x ∷ xs)) same

  drop-all : (n : ℕ) (xs : List A) → length xs ≤ n → drop n xs ≡ []
  drop-all zero [] h = refl
  drop-all zero (x ∷ xs) h = absurd (omega arith)
  drop-all (suc n) [] h = refl
  drop-all (suc n) (x ∷ xs) h = drop-all n xs (omega arith)

  pages_from-drop :
      (size n page : ℕ) (xs : List A)
      → length xs ≤ (page + n) * size
      → pages_from size n page xs ≡ drop (page * size) xs
  unfolding pages_from page_of
  pages_from-drop size zero page xs h = sym (drop-all (page * size) xs (omega (arith, h)))
  pages_from-drop size (suc n) page xs h =
      ap (λ (rest : List A). page_of size page xs ++ rest)
        (pages_from-drop size n (suc page) xs (omega (arith, h))
          ∙ ap (λ (k : ℕ). drop k xs) (omega arith)
          ∙ sym (drop-drop size (page * size) xs))
      ∙ take-append-drop size (drop (page * size) xs)

  nothing-dropped : (size : ℕ) (xs : List A) → drop (0 * size) xs ≡ xs
  nothing-dropped size xs = let same : 0 * size ≡ 0 = omega arith in ap (λ (k : ℕ). drop k xs) same

  -- Pages that are enough for the list make up the list.
  pub pages_from-all :
      (size n : ℕ) (xs : List A) → length xs ≤ n * size → pages_from size n 0 xs ≡ xs
  pages_from-all size n xs h =
      pages_from-drop size n 0 xs (omega (arith, h)) ∙ nothing-dropped size xs

  pub length-page_of :
      (size page : ℕ) (xs : List A)
      → length (page_of size page xs) ≡ min size (length xs - page * size)
  unfolding page_of
  length-page_of size page xs =
      omega (arith, length-take size (drop (page * size) xs), length-drop (page * size) xs)

-- Every row lies on a page, and the last page is not empty.
pub page_count-covers : (size total : ℕ) → 0 < size → total ≤ page_count size total * size
unfolding page_count
page_count-covers size total h = omega (arith, lt-div-mul-add {a = total + size - 1} h)

pub page_count-last : (size total n : ℕ) → 0 < size → n < page_count size total → n * size < total
unfolding page_count
page_count-last size total n positive h =
    omega (arith, mul-le-mul_right size h, div-mul-le_self (total + size - 1) size)

pub page_count-positive : (size total : ℕ) → 0 < size → 0 < total → 0 < page_count size total
unfolding page_count
page_count-positive size total positive h = (le-div_iff_mul-le positive).1 (omega arith)
