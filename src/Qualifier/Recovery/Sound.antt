-- ===== src/Qualifier/Recovery/Sound.antt =====
-- A cut answer gives back exactly the leads among its complete objects.
use mathlib.Core.List.{append_assoc}
use lead_finder.Prelude.{
  ℕ, suc, ◌+◌, ◌-◌, ◌≡◌, refl, sym, ◌∙◌, ap, true, not, ◌==◌, Option, none, some, List, [], ◌∷◌,
  ◌++◌, arith, length, length-append, take, drop,
}
use lead_finder.Prelude.Text.{Text, strip, truthy}
use lead_finder.Json.{Json, Fields}
use lead_finder.Qualifier.Recovery.{
  Scan, scan, scan_char, plain_char, close_brace, close_object, slice, find, find_array, as_lead,
  add_lead, before_array, respond, recover_partial_batch_response,
}
use lead_finder.Qualifier.Recovery.Syntax.{
  Body, Elements, Tail, is_plain, cut_text, space, object, nothing, closed, cut, IsBody, IsElements,
  IsTail, body_text, object_text, elements_text, tail_text, collect,
}
use lead_finder.Qualifier.Recovery.Object.{inside, scan-step, scan-body, leads-cut, at_index}

drop-length {ℓ} : {A : Type ℓ} (xs ys : List A) → drop (length xs) (xs ++ ys) ≡ ys
drop-length [] ys = refl
drop-length (x ∷ xs) ys = drop-length xs ys

take-length {ℓ} : {A : Type ℓ} (xs ys : List A) → take (length xs) (xs ++ ys) ≡ xs
take-length [] ys = refl
take-length (x ∷ xs) ys = ap (λ l. x ∷ l) (take-length xs ys)

-- The slice between the ends of a part of the text is that part.
pub slice-append :
    (pre mid rest : Text) (a b : ℕ)
    → a ≡ length pre
    → b ≡ length pre + length mid
    → slice a b (pre ++ (mid ++ rest)) ≡ mid
unfolding slice
slice-append pre mid rest a b start e =
    let width : b - length pre ≡ length mid = omega arith in
    rw (start, width, drop-length pre (mid ++ rest)) (take-length mid rest)

-- Between two objects of the array.
abbrev outside : List Fields → Scan
outside leads = record before_array { leads = leads }

module _ (loads : Text → Option Json) (whole : Text) where
  step_space :
      (i c : ℕ) (rest : Text) (leads : List Fields)
      → is_plain c ≡ true
      → not (c == b']') ≡ true
      → scan loads whole i (c ∷ rest) (outside leads)
        ≡ scan loads whole (suc i) rest (outside leads)
  unfolding scan_char plain_char
  step_space i c rest leads h k =
      scan-step loads whole i c rest (outside leads) (outside leads) (ground arith)

  step_object :
      (i : ℕ) (rest : Text) (leads : List Fields)
      → scan loads whole i (b'{' ∷ rest) (outside leads)
        ≡ scan loads whole (suc i) rest (inside leads 0 i)
  unfolding scan_char plain_char scan
  step_object i rest leads = refl

  step_complete :
      (j : ℕ) (rest : Text) (leads : List Fields) (start : ℕ) (chunk : Text)
      → slice start (j + 1) whole ≡ chunk
      → scan loads whole j (b'}' ∷ rest) (inside leads 0 start)
        ≡ scan loads whole (suc j) rest (outside (add_lead leads (as_lead (loads chunk))))
  unfolding scan_char plain_char close_brace close_object scan
  step_complete j rest leads start chunk e = rw (← e) refl

  -- After the array's objects comes a tail that adds no lead.
  leads-tail :
      (t : Tail) (i : ℕ) (leads : List Fields)
      → IsTail t
      → (scan loads whole i (tail_text t) (outside leads)).leads ≡ leads
  leads-tail nothing i leads h = unfold scan in refl
  leads-tail (closed s) i leads h = unfold scan scan_char plain_char in refl
  leads-tail (cut c) i leads h =
      ap (λ (s : Scan). s.leads) (step_object i (cut_text c) leads)
      ∙ leads-cut loads whole c (suc i) leads 0 i h

-- The text of an object and what follows it, as the scan meets it.
object_shape :
    (b : Body) (es : Elements) (tail : Text)
    → elements_text (object b es) ++ tail
      ≡ b'{' ∷ (body_text b ++ b'}' ∷ (elements_text es ++ tail))
object_shape b es tail =
    append_assoc (object_text b) (elements_text es) tail
    ∙ ap (λ (r : Text). b'{' ∷ r)
        (append_assoc (body_text b) (b'}' ∷ []) (elements_text es ++ tail))

module _ (loads : Text → Option Json) (whole : Text) where
  -- One complete object of the array.
  scan-object :
      (b : Body) (rest pre : Text) (i : ℕ) (leads : List Fields)
      → IsBody b
      → i ≡ length pre
      → whole ≡ pre ++ (b'{' ∷ (body_text b ++ b'}' ∷ rest))
      → scan loads whole i (b'{' ∷ (body_text b ++ b'}' ∷ rest)) (outside leads)
        ≡ scan loads whole
            (i + length (object_text b))
            rest
            (outside (add_lead leads (as_lead (loads (object_text b)))))
  scan-object b rest pre i leads h index e =
      let j = suc i + length (body_text b) in
      let found = add_lead leads (as_lead (loads (object_text b))) in
      let count = length-append (body_text b) (b'}' ∷ []) in
      let chunk : slice i (j + 1) whole ≡ object_text b =
        rw (e, ← append_assoc (body_text b) (b'}' ∷ []) rest)
          (slice-append pre (object_text b) rest i (j + 1) index (omega (arith, count))) in
      step_object loads whole i (body_text b ++ b'}' ∷ rest) leads
      ∙ scan-body loads whole b (suc i) (b'}' ∷ rest) leads 0 i h
      ∙ step_complete loads whole j rest leads i (object_text b) chunk
      ∙ at_index loads whole (suc j) (i + length (object_text b)) rest (outside found)
          (omega (arith, count))

  -- The whole array, from any position in it.
  leads-elements :
      (es : Elements) (t : Tail) (pre : Text) (i : ℕ) (leads : List Fields)
      → IsElements es
      → IsTail t
      → i ≡ length pre
      → whole ≡ pre ++ (elements_text es ++ tail_text t)
      → (scan loads whole i (elements_text es ++ tail_text t) (outside leads)).leads
        ≡ collect loads leads es
  leads-elements Elements.none t pre i leads h k index e = leads-tail loads whole t i leads k
  leads-elements (space c es) t pre i leads h k index e =
      let rest = elements_text es ++ tail_text t in
      ap (λ (s : Scan). s.leads) (step_space loads whole i c rest leads h.0 h.1)
      ∙ leads-elements es t (pre ++ c ∷ []) (suc i) leads h.2 k
          (omega (arith, length-append pre (c ∷ []))) (e ∙ sym (append_assoc pre (c ∷ []) rest))
  leads-elements (object b es) t pre i leads h k index e =
      let rest = elements_text es ++ tail_text t in
      let found = add_lead leads (as_lead (loads (object_text b))) in
      rw (object_shape b es (tail_text t)) (
        ap (λ (s : Scan). s.leads)
          (scan-object b rest pre i leads h.0 index
            (e ∙ ap (λ (r : Text). pre ++ r) (object_shape b es (tail_text t))))
        ∙ leads-elements es t (pre ++ object_text b) (i + length (object_text b)) found h.1 k
            (omega (arith, length-append pre (object_text b)))
            (e
              ∙ ap (λ (r : Text). pre ++ r)
                  (append_assoc (object_text b) (elements_text es) (tail_text t))
              ∙ sym (append_assoc pre (object_text b) rest)))

find_array-nil : find_array [] ≡ none
unfolding find_array find
find_array-nil = refl

truthy_of_find_array : (s : Text) (a : ℕ) → find_array s ≡ some a → truthy s ≡ true
truthy_of_find_array [] a h = cc find_array-nil
truthy_of_find_array (c ∷ s) a h = refl

recover_at :
    (loads : Text → Option Json) (raw : Text) (analyzed_count a : ℕ)
    → find_array (strip raw) ≡ some a
    → recover_partial_batch_response loads raw analyzed_count
      ≡ respond analyzed_count
          (scan loads (strip raw) (a + 1) (drop (a + 1) (strip raw)) before_array).leads
unfolding recover_partial_batch_response
recover_at loads raw analyzed_count a found =
    rw (truthy_of_find_array (strip raw) a found, found, recover_partial_batch_response) refl

-- An answer that was cut anywhere in its array, or after it, is recovered to exactly the leads
-- among the complete objects of the array, in their order: neither a nested object, nor a brace in
-- a string, nor the part behind the cut adds or hides one. Without a lead there is no response.
pub recover_exact :
    (loads : Text → Option Json) (raw pre : Text) (es : Elements) (t : Tail) (analyzed_count a : ℕ)
    → IsElements es
    → IsTail t
    → strip raw ≡ pre ++ (elements_text es ++ tail_text t)
    → find_array (strip raw) ≡ some a
    → length pre ≡ a + 1
    → recover_partial_batch_response loads raw analyzed_count
      ≡ respond analyzed_count (collect loads [] es)
recover_exact loads raw pre es t analyzed_count a h k shape found index =
    let array = elements_text es ++ tail_text t in
    let dropped : drop (a + 1) (strip raw) ≡ array = rw (← index, shape) (drop-length pre array) in
    rw (recover_at loads raw analyzed_count a found, dropped)
      (ap (respond analyzed_count)
        (leads-elements loads (strip raw) es t pre (a + 1) [] h k (sym index) shape))
