-- ===== src/PainClusterer/Moves.antt =====
-- Which pains a run moves, and what their clusters show afterwards.
use lead_finder.Prelude.{
  ℕ, ◌≡◌, ◌⊎◌, ap, subst, true, Option, none, some, List, [], ◌∷◌, ◌++◌, arith, eq_of_some,
  Option-cases, Bool-cases, inl, inr, ◌==◌, if◌then◌else◌,
}
use lead_finder.Prelude.Int.{ℤ, pos}
use lead_finder.Prelude.Text.{Text, text, text_eq}
use lead_finder.Json.{Json, Fields, get, get_or}
use lead_finder.Models.{Pain}
use lead_finder.Models.Table.{Paired, first_row, update_rows}
use lead_finder.ClusterStats.Current.{is_affected, eq_ℤ_refl}
use lead_finder.PainClusterer.{
  Assigning, PainKey, has_pain_id, flush_clusters, references_hold, find_cached, cache_key, text_or,
  assign, new_cluster, create_cluster, create_from, assign_new, assign_named, assign_ref,
  assign_known, assign_one, assign_all, pain_key,
}

-- A pain that stays as it is, or that is one of the known pains and moves to an affected cluster.
abbrev pub IsMoved : List Pain → List ℤ → Pain → Pain → Type 0
IsMoved known affected p q =
    (q ≡ p)
    ⊎ ((c : ℤ) × (q ≡ record p { cluster_id = some c })
        × (is_affected c affected ≡ true)
        × (k : Pain) × (first_row (has_pain_id p.id) known ≡ some k))

module _ (known : List Pain) (affected : List ℤ) (c : ℤ) where
  IsMoved-more : (p q : Pain) → IsMoved known affected p q → IsMoved known (c ∷ affected) p q
  unfolding is_affected
  IsMoved-more p q (inl same) = inl same
  IsMoved-more p q (inr (d, to, met, k, found)) = inr (d, to, ground arith, k, found)

  id-IsMoved : (p q : Pain) → IsMoved known affected p q → q.id ≡ p.id
  id-IsMoved p q (inl same) = ap (λ (r : Pain). r.id) same
  id-IsMoved p q (inr (d, to, met, j, old)) = ap (λ (r : Pain). r.id) to

  move-IsMoved :
      (p q k : Pain)
      → IsMoved known affected p q
      → first_row (has_pain_id p.id) known ≡ some k
      → IsMoved known (c ∷ affected) p (record q { cluster_id = some c })
  unfolding is_affected
  move-IsMoved p q k (inl same) found = inr (
    c,
    ap (λ (r : Pain). record r { cluster_id = some c }) same,
    ground (arith, eq_ℤ_refl c),
    k,
    found,
  )
  move-IsMoved p q k (inr (d, to, met, j, old)) found = inr (
    c,
    ap (λ (r : Pain). record r { cluster_id = some c }) to,
    ground (arith, eq_ℤ_refl c),
    k,
    found,
  )

  assign-IsMoved :
      (n : ℕ) (k : Pain) (before after : List Pain)
      → first_row (has_pain_id n) known ≡ some k
      → Paired (IsMoved known affected) before after
      → Paired
          (IsMoved known (c ∷ affected))
          before
          (update_rows (has_pain_id n) (λ p. record p { cluster_id = some c }) after)
  unfolding update_rows has_pain_id
  assign-IsMoved n k [] [] found h = tt
  assign-IsMoved n k [] (q ∷ qs) found h = absurd h
  assign-IsMoved n k (p ∷ ps) [] found h = absurd h
  assign-IsMoved n k (p ∷ ps) (q ∷ qs) found h =
      let rest = assign-IsMoved n k ps qs found h.1 in
      elim (Bool-cases (q.id == n)) [
        | inr other ↦ rw other (IsMoved-more p q h.0, rest)
        | inl this ↦
            let own : n ≡ p.id = ground (arith, id-IsMoved p q h.0) in
            rw this (move-IsMoved p q k h.0 (rw own at found), rest)
      ]

-- The state of the loop over the assignments, after the table `before`.
abbrev pub Moving : List Pain → List Pain → Assigning → Type 0
Moving known before acc = Paired (IsMoved known acc.affected) before acc.base.pains

assign-Moving :
    (known before : List Pain) (n : ℕ) (k : Pain) (c : ℤ) (acc : Assigning)
    → first_row (has_pain_id n) known ≡ some k
    → Moving known before acc
    → Moving known before (assign n c acc)
unfolding assign
assign-Moving known before n k c acc found h =
    assign-IsMoved known acc.affected c n k before acc.base.pains found h

module _ (user_id program_id : ℕ) (known before : List Pain) where
  create_cluster-Moving :
      (name category description : Text) (acc acc' : Assigning)
      → create_cluster user_id program_id name category description acc ≡ some acc'
      → Moving known before acc
      → Moving known before acc'
  unfolding create_cluster flush_clusters
  create_cluster-Moving name category description acc acc' e h =
      elim (Bool-cases (
        references_hold acc.base.pains (
          acc.base.clusters
          ++ new_cluster user_id program_id acc.base.next_id name category description ∷ []))) [
            | inl holds ↦
                let same : acc'.base.pains ≡ acc.base.pains = ground arith in
                let met : acc'.affected ≡ acc.affected = ground arith in rw (same, met) h
            | inr broken ↦ absurd (ground arith)
          ]

  create_from-Moving :
      (name : Text) (category description : Option Text) (acc acc' : Assigning)
      → create_from user_id program_id name category description acc ≡ some acc'
      → Moving known before acc
      → Moving known before acc'
  create_from-Moving name (some c) (some d) acc acc' e h =
      create_cluster-Moving name c d acc acc' e h
  create_from-Moving name (some c) none acc acc' e h = absurd (ground arith)
  create_from-Moving name none d acc acc' e h = absurd (ground arith)

  assign_new-Moving :
      (n : ℕ) (k : Pain) (name : Text) (fs : Fields) (acc acc' : Assigning)
      → first_row (has_pain_id n) known ≡ some k
      → assign_new user_id program_id n name fs acc ≡ some acc'
      → Moving known before acc
      → Moving known before acc'
  unfolding assign_new
  assign_new-Moving n k name fs acc acc' found e h =
      let category = text_or (text "new_cluster_category") (text "other") fs in
      let description = text_or (text "new_cluster_description") [] fs in
      elim (Option-cases (find_cached (cache_key name) acc.cache)) [
        | inr (id, hit) ↦
            let done : assign n (pos id) acc ≡ acc' = ground arith in
            subst (Moving known before) done (assign-Moving known before n k (pos id) acc found h)
        | inl miss ↦
            elim (Option-cases (create_from user_id program_id name category description acc)) [
              | inl failed ↦ absurd (ground arith)
              | inr (mid, created) ↦
                  let done : assign n (pos acc.base.next_id) mid ≡ acc' = ground arith in
                  subst (Moving known before) done (
                    assign-Moving known before n k (pos acc.base.next_id) mid found
                      (create_from-Moving name category description acc mid created h))
            ]
      ]

  assign_named-Moving :
      (n : ℕ) (k : Pain) (name : Json) (fs : Fields) (acc acc' : Assigning)
      → first_row (has_pain_id n) known ≡ some k
      → assign_named user_id program_id n name fs acc ≡ some acc'
      → Moving known before acc
      → Moving known before acc'
  assign_named-Moving n k (Json.str name) fs acc acc' found e h =
      assign_new-Moving n k name fs acc acc' found e h
  assign_named-Moving n k v fs acc acc' found e h = absurd (ground arith)

  assign_ref-Moving :
      (n : ℕ) (k : Pain) (ref : Option Json) (fs : Fields) (acc acc' : Assigning)
      → first_row (has_pain_id n) known ≡ some k
      → assign_ref user_id program_id n ref fs acc ≡ some acc'
      → Moving known before acc
      → Moving known before acc'
  unfolding assign_ref
  assign_ref-Moving n k (some (Json.str s)) fs acc acc' found e h =
      elim (Bool-cases (text_eq s (text "new"))) [
        | inl is_new ↦
            assign_named-Moving n k
              (get_or (text "new_cluster_name") (Json.str (text "Без названия")) fs) fs acc acc'
              found (rw is_new at e) h
        | inr invalid ↦ let same : acc ≡ acc' = ground arith in subst (Moving known before) same h
      ]
  assign_ref-Moving n k (some (Json.int c)) fs acc acc' found e h =
      subst (Moving known before) (eq_of_some e) (assign-Moving known before n k c acc found h)
  assign_ref-Moving n k (some (Json.bool b)) fs acc acc' found e h =
      subst (Moving known before) (eq_of_some e)
        (assign-Moving known before n k (pos (if b then 1 else 0)) acc found h)
  assign_ref-Moving n k none fs acc acc' found e h = subst (Moving known before) (eq_of_some e) h
  assign_ref-Moving n k (some v) fs acc acc' found e h =
      subst (Moving known before) (eq_of_some e) h

  assign_known-Moving :
      (key : PainKey) (fs : Fields) (acc acc' : Assigning)
      → assign_known user_id program_id known key fs acc ≡ some acc'
      → Moving known before acc
      → Moving known before acc'
  assign_known-Moving PainKey.unhashable fs acc acc' e h = absurd (ground arith)
  assign_known-Moving PainKey.unknown fs acc acc' e h = subst (Moving known before) (eq_of_some e) h
  assign_known-Moving (PainKey.number n) fs acc acc' e h =
      elim (Option-cases (first_row (has_pain_id n) known)) [
        | inl missing ↦ let same : acc ≡ acc' = ground arith in subst (Moving known before) same h
        | inr (k, found) ↦
            assign_ref-Moving n k (get (text "cluster_id") fs) fs acc acc' found (ground arith) h
      ]

  pub assign_all-Moving :
      (vs : List Json) (acc acc' : Assigning)
      → assign_all user_id program_id known vs acc ≡ some acc'
      → Moving known before acc
      → Moving known before acc'
  unfolding assign_all assign_one
  assign_all-Moving [] acc acc' e h = subst (Moving known before) (eq_of_some e) h
  assign_all-Moving (Json.obj fs ∷ vs) acc acc' e h =
      let key = pain_key (get_or (text "pain_id") Json.null fs) in
      elim (Option-cases (assign_known user_id program_id known key fs acc)) [
        | inl raised ↦ absurd (ground arith)
        | inr (mid, step) ↦
            assign_all-Moving vs mid acc' (ground arith) (assign_known-Moving key fs acc mid step h)
      ]
  assign_all-Moving (v ∷ vs) acc acc' e h = absurd (ground arith)
