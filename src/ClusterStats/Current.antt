-- ===== src/ClusterStats/Current.antt =====
-- After the update every affected cluster that has pains shows their figures.
use lead_finder.Prelude.{
  ℕ, ◌≤◌, ◌≡◌, refl, ap, ◌∙◌, subst, Bool, true, false, ◌||◌, List, [], ◌∷◌, arith, Bool-cases, inl,
  inr, length,
}
use lead_finder.Prelude.Int.{ℤ, pos, negsuc}
use lead_finder.DateTime.{DateTime}
use lead_finder.Models.{Pain, PainCluster}
use lead_finder.Models.Table.{where_rows, count_rows, update_rows, All}
use lead_finder.ClusterStats.{
  eq_ℤ, in_cluster, total_score, first_date, last_date, is_recent, is_previous, trend_of,
  with_stats, stats_of, has_id, update_cluster_stats, update_all_stats,
}

eq_ℤ-eq : (a b : ℤ) → eq_ℤ a b ≡ true → a ≡ b
unfolding eq_ℤ
eq_ℤ-eq (pos m) (pos n) h = ap pos (ground arith)
eq_ℤ-eq (pos m) (negsuc n) h = absurd (ground arith)
eq_ℤ-eq (negsuc m) (pos n) h = absurd (ground arith)
eq_ℤ-eq (negsuc m) (negsuc n) h = ap negsuc (ground arith)

pub eq_ℤ_refl : (a : ℤ) → eq_ℤ a a ≡ true
unfolding eq_ℤ
eq_ℤ_refl (pos n) = ground arith
eq_ℤ_refl (negsuc n) = ground arith

-- `cluster_id in affected_cluster_ids`
unfoldable pub is_affected : ℤ → List ℤ → Bool
is_affected c [] = false
is_affected c (d ∷ ds) = eq_ℤ c d || is_affected c ds

-- The figures of a cluster are those of the rows.
pub record IsCurrent (round2 : ℕ → ℕ → ℕ) (now : DateTime) (rows : List Pain)
    (cluster : PainCluster) : Type 0 where
  pub pain_count : cluster.pain_count ≡ length rows
  pub avg_intensity : cluster.avg_intensity ≡ round2 (total_score rows) (length rows)
  pub first_seen : cluster.first_seen ≡ first_date rows
  pub last_seen : cluster.last_seen ≡ last_date rows
  pub trend :
      cluster.trend ≡ trend_of (count_rows (is_recent now) rows) (count_rows (is_previous now) rows)

pub id-stats_of :
    (round2 : ℕ → ℕ → ℕ) (now : DateTime) (rows : List Pain) (cluster : PainCluster)
    → (stats_of round2 now rows cluster).id ≡ cluster.id
unfolding with_stats
id-stats_of round2 now [] cluster = refl
id-stats_of round2 now (p ∷ ps) cluster = refl

-- The rows of a cluster.
abbrev pub pains_in : List Pain → PainCluster → List Pain
pains_in pains cluster = where_rows (in_cluster (pos cluster.id)) pains

module _ (round2 : ℕ → ℕ → ℕ) (now : DateTime) (pains : List Pain) where
  -- Once the update has met it, a cluster that has pains is current.
  abbrev Updated : (ℤ → Bool) → PainCluster → Type 0
  Updated met cluster =
      met (pos cluster.id) ≡ true
      → 1 ≤ length (pains_in pains cluster)
      → IsCurrent round2 now (pains_in pains cluster) cluster

  stats_of-IsCurrent :
      (rows : List Pain) (cluster : PainCluster)
      → rows ≡ where_rows (in_cluster (pos cluster.id)) pains
      → 1 ≤ length rows
      → IsCurrent round2 now
          (where_rows (in_cluster (pos (stats_of round2 now rows cluster).id)) pains)
          (stats_of round2 now rows cluster)
  unfolding with_stats
  stats_of-IsCurrent [] cluster e h = absurd (omega arith)
  stats_of-IsCurrent (p ∷ ps) cluster e h =
      subst (λ (r : List Pain). IsCurrent round2 now r (stats_of round2 now (p ∷ ps) cluster)) e
        (record {
          pain_count = refl;
          avg_intensity = refl;
          first_seen = refl;
          last_seen = refl;
          trend = refl;
        })

  update_cluster_stats-Updated :
      (met : ℤ → Bool) (c : ℤ) (clusters : List PainCluster)
      → All (Updated met) clusters
      → All (Updated (λ z. eq_ℤ z c || met z)) (update_cluster_stats round2 now pains c clusters)
  unfolding update_cluster_stats update_rows has_id
  update_cluster_stats-Updated met c [] h = tt
  update_cluster_stats-Updated met c (cluster ∷ clusters) h =
      let rest = update_cluster_stats-Updated met c clusters h.1 in
      elim (Bool-cases (eq_ℤ (pos cluster.id) c)) [
        | inr other ↦ rw other (λ m full. h.0 (ground arith) full, rest)
        | inl this ↦
            let same = eq_ℤ-eq (pos cluster.id) c this in
            rw this (
              (λ m full.
                  stats_of-IsCurrent (where_rows (in_cluster c) pains) cluster (rw (← same) refl) (
                    subst (λ z. 1 ≤ length (where_rows (in_cluster z) pains))
                      (ap pos (id-stats_of round2 now (where_rows (in_cluster c) pains) cluster)
                        ∙ same)
                      full)),
              rest,
            )
      ]

  Updated-more :
      (met met' : ℤ → Bool) (clusters : List PainCluster)
      → ((z : ℤ) → met' z ≡ true → met z ≡ true)
      → All (Updated met) clusters
      → All (Updated met') clusters
  Updated-more met met' [] f h = tt
  Updated-more met met' (c ∷ cs) f h =
      (λ m full. h.0 (f (pos c.id) m) full, Updated-more met met' cs f h.1)

  update_all_stats-Updated :
      (met : ℤ → Bool) (affected : List ℤ) (clusters : List PainCluster)
      → All (Updated met) clusters
      → All
          (Updated (λ z. is_affected z affected || met z))
          (update_all_stats round2 now pains affected clusters)
  unfolding update_all_stats is_affected
  update_all_stats-Updated met [] clusters h = h
  update_all_stats-Updated met (c ∷ cs) clusters h =
      Updated-more (λ z. is_affected z cs || (eq_ℤ z c || met z))
        (λ z. (eq_ℤ z c || is_affected z cs) || met z)
        (update_all_stats round2 now pains cs (update_cluster_stats round2 now pains c clusters))
        (λ z m. ground arith)
        (update_all_stats-Updated (λ z. eq_ℤ z c || met z) cs
          (update_cluster_stats round2 now pains c clusters)
          (update_cluster_stats-Updated met c clusters h))

  Updated-none : (clusters : List PainCluster) → All (Updated (λ z. false)) clusters
  Updated-none [] = tt
  Updated-none (c ∷ cs) = (λ m full. absurd (ground arith), Updated-none cs)

  -- After the loop, whatever order and repetitions the affected ids come in, every cluster whose id
  -- is among them and that has pains shows the number, the average intensity, the first and the
  -- last date and the trend of exactly its pains.
  pub update_all_stats-IsCurrent :
      (affected : List ℤ) (clusters : List PainCluster)
      → All
          (λ cluster.
            is_affected (pos cluster.id) affected ≡ true
            → 1 ≤ length (pains_in pains cluster)
            → IsCurrent round2 now (pains_in pains cluster) cluster)
          (update_all_stats round2 now pains affected clusters)
  update_all_stats-IsCurrent affected clusters =
      Updated-more (λ z. is_affected z affected || false) (λ z. is_affected z affected)
        (update_all_stats round2 now pains affected clusters) (λ z m. ground arith)
        (update_all_stats-Updated (λ z. false) affected clusters (Updated-none clusters))
