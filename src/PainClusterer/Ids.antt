-- ===== src/PainClusterer/Ids.antt =====
-- Where ids are unique, a pain that has the id of an unclustered pain is that pain.
use lead_finder.Prelude.{
  ℕ, ◌≡◌, ◌⊎◌, refl, true, false, none, some, List, [], ◌∷◌, ◌==◌, arith, Bool-cases, Option-cases,
  inl, inr,
}
use lead_finder.Prelude.Int.{ℤ}
use lead_finder.Models.{Pain}
use lead_finder.Models.Table.{All, Paired, where_rows, first_row}
use lead_finder.ClusterStats.Current.{is_affected}
use lead_finder.PainClusterer.{is_unclustered, has_pain_id}
use lead_finder.PainClusterer.Moves.{IsMoved}

-- No two pains have the same id.
abbrev pub HasUniqueIds : List Pain → Type 0
HasUniqueIds [] = Unit
HasUniqueIds (p ∷ ps) = All (λ (q : Pain). (q.id == p.id) ≡ false) ps × HasUniqueIds ps

-- A pain that stays as it is, or one of the program, without a cluster, that moves to an affected
-- one.
abbrev pub IsOwnMove : ℕ → List ℤ → Pain → Pain → Type 0
IsOwnMove program_id affected p q =
    (q ≡ p)
    ⊎ ((p.program_id ≡ program_id)
        × (p.cluster_id ≡ none)
        × (c : ℤ) × (q ≡ record p { cluster_id = some c })
        × (is_affected c affected ≡ true))

-- What the query finds under the id of a pain says that this pain is unclustered.
abbrev IsKnownRight : ℕ → List Pain → Pain → Type 0
IsKnownRight program_id ps p =
    (k : Pain)
    → first_row (has_pain_id p.id) (where_rows (is_unclustered program_id) ps) ≡ some k
    → is_unclustered program_id p ≡ true

module _ (program_id : ℕ) where
  no_other :
      (n : ℕ) (ps : List Pain)
      → All (λ (q : Pain). (q.id == n) ≡ false) ps
      → first_row (has_pain_id n) (where_rows (is_unclustered program_id) ps) ≡ none
  unfolding first_row where_rows has_pain_id
  no_other n [] h = refl
  no_other n (p ∷ ps) h = elim (Bool-cases (is_unclustered program_id p)) [
    | inl free ↦ rw (free, h.0) (no_other n ps h.1)
    | inr taken ↦ rw taken (no_other n ps h.1)
  ]

  head-IsKnownRight :
      (p : Pain) (ps : List Pain)
      → All (λ (q : Pain). (q.id == p.id) ≡ false) ps
      → IsKnownRight program_id (p ∷ ps) p
  unfolding where_rows
  head-IsKnownRight p ps h k e = elim (Bool-cases (is_unclustered program_id p)) [
    | inl free ↦ free
    | inr taken ↦
        let found = rw taken at e in let missing = no_other p.id ps h in absurd (ground arith)
  ]

  cons-IsKnownRight :
      (p r : Pain) (ps : List Pain)
      → (r.id == p.id) ≡ false
      → IsKnownRight program_id ps r
      → IsKnownRight program_id (p ∷ ps) r
  unfolding where_rows first_row has_pain_id
  cons-IsKnownRight p r ps other h k e = elim (Bool-cases (is_unclustered program_id p)) [
    | inl free ↦ let apart : (p.id == r.id) ≡ false = ground arith in h k (rw (free, apart) at e)
    | inr taken ↦ h k (rw taken at e)
  ]

  all_cons :
      (p : Pain) (all rest : List Pain)
      → All (λ (q : Pain). (q.id == p.id) ≡ false) rest
      → All (IsKnownRight program_id all) rest
      → All (IsKnownRight program_id (p ∷ all)) rest
  all_cons p all [] h k = tt
  all_cons p all (r ∷ rest) h k = (cons-IsKnownRight p r all h.0 k.0, all_cons p all rest h.1 k.1)

  all-IsKnownRight : (ps : List Pain) → HasUniqueIds ps → All (IsKnownRight program_id ps) ps
  all-IsKnownRight [] u = tt
  all-IsKnownRight (p ∷ ps) u =
      (head-IsKnownRight p ps u.0, all_cons p ps ps u.0 (all-IsKnownRight ps u.1))

  unclustered_parts :
      (p : Pain)
      → is_unclustered program_id p ≡ true
      → (p.program_id ≡ program_id) × (p.cluster_id ≡ none)
  unfolding is_unclustered
  unclustered_parts p h = elim (Option-cases p.cluster_id) [
    | inl free ↦ (ground arith, free)
    | inr (c, taken) ↦ absurd (ground arith)
  ]

  own_move :
      (affected : List ℤ) (all : List Pain) (p q : Pain)
      → IsKnownRight program_id all p
      → IsMoved (where_rows (is_unclustered program_id) all) affected p q
      → IsOwnMove program_id affected p q
  own_move affected all p q right (inl same) = inl same
  own_move affected all p q right (inr (c, to, met, k, found)) =
      let (own, free) = unclustered_parts p (right k found) in inr (own, free, c, to, met)

  own_moves :
      (affected : List ℤ) (all before after : List Pain)
      → All (IsKnownRight program_id all) before
      → Paired (IsMoved (where_rows (is_unclustered program_id) all) affected) before after
      → Paired (IsOwnMove program_id affected) before after
  own_moves affected all [] [] right h = tt
  own_moves affected all (p ∷ ps) (q ∷ qs) right h =
      (own_move affected all p q right.0 h.0, own_moves affected all ps qs right.1 h.1)
  own_moves affected all [] (q ∷ qs) right h = absurd h
  own_moves affected all (p ∷ ps) [] right h = absurd h

  pub IsMoved-own :
      (affected : List ℤ) (before after : List Pain)
      → HasUniqueIds before
      → Paired (IsMoved (where_rows (is_unclustered program_id) before) affected) before after
      → Paired (IsOwnMove program_id affected) before after
  IsMoved-own affected before after u h =
      own_moves affected before before after (all-IsKnownRight before u) h
