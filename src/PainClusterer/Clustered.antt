-- ===== src/PainClusterer/Clustered.antt =====
-- What a run of the clusterer leaves in the two tables.
use lead_finder.Prelude.{
  ℕ, ◌≤◌, ◌≡◌, refl, sym, ◌∙◌, subst, Bool, true, ◌&&◌, Option, none, some, List, [], ◌∷◌, arith,
  eq_of_some, Option-cases, Bool-cases, inl, inr, length,
}
use lead_finder.Prelude.Int.{ℤ, pos}
use lead_finder.Prelude.Text.{Text}
use lead_finder.DateTime.{DateTime}
use lead_finder.Json.{Json}
use lead_finder.Models.{Pain, PainCluster}
use lead_finder.Models.Table.{All, Paired, where_rows, update_rows}
use lead_finder.Qualifier.Qualify.{Answer}
use lead_finder.ClusterStats.{has_id, in_cluster, update_cluster_stats, update_all_stats}
use lead_finder.ClusterStats.Current.{
  is_affected, IsCurrent, pains_in, id-stats_of, update_all_stats-IsCurrent,
}
use lead_finder.PainClusterer.{
  ClusterBase, Assigning, is_unclustered, flush_clusters, references_hold, in_clusters, assign_all,
  finish, cluster_known, cluster_new_pains, read_assignments,
}
use lead_finder.PainClusterer.Moves.{IsMoved, Moving, assign_all-Moving}
use lead_finder.PainClusterer.Ids.{HasUniqueIds, IsOwnMove, IsMoved-own}

Moved_refl :
    (known : List Pain) (affected : List ℤ) (ps : List Pain) → Paired (IsMoved known affected) ps ps
Moved_refl known affected [] = tt
Moved_refl known affected (p ∷ ps) = (inl refl, Moved_refl known affected ps)

module _ (round2 : ℕ → ℕ → ℕ) (now : DateTime) where
  in_clusters-update :
      (pains : List Pain) (c : ℤ) (ref : Option ℤ) (clusters : List PainCluster)
      → in_clusters ref (update_cluster_stats round2 now pains c clusters)
        ≡ in_clusters ref clusters
  unfolding update_cluster_stats update_rows has_id
  in_clusters-update pains c none clusters = refl
  in_clusters-update pains c (some d) [] = refl
  in_clusters-update pains c (some d) (cluster ∷ clusters) =
      let same = id-stats_of round2 now (where_rows (in_cluster c) pains) cluster in
      ground (arith, same, in_clusters-update pains c (some d) clusters)

  references_hold-update :
      (all pains : List Pain) (c : ℤ) (clusters : List PainCluster)
      → references_hold pains (update_cluster_stats round2 now all c clusters)
        ≡ references_hold pains clusters
  unfolding references_hold
  references_hold-update all [] c clusters = refl
  references_hold-update all (p ∷ ps) c clusters =
      rw (in_clusters-update all c p.cluster_id clusters, references_hold-update all ps c clusters)
        refl

  references_hold-update_all :
      (pains : List Pain) (affected : List ℤ) (clusters : List PainCluster)
      → references_hold pains (update_all_stats round2 now pains affected clusters)
        ≡ references_hold pains clusters
  unfolding update_all_stats
  references_hold-update_all pains [] clusters = refl
  references_hold-update_all pains (c ∷ cs) clusters =
      references_hold-update_all pains cs (update_cluster_stats round2 now pains c clusters)
      ∙ references_hold-update pains pains c clusters

  -- What the tables are after a run, in terms of those before.
  pub record IsClustered (program_id : ℕ) (b after : ClusterBase) : Type 0 where
    pub affected : List ℤ
    pub moved : Paired (IsOwnMove program_id affected) b.pains after.pains
    pub current :
        All
          (λ cluster.
            is_affected (pos cluster.id) affected ≡ true
            → 1 ≤ length (pains_in after.pains cluster)
            → IsCurrent round2 now (pains_in after.pains cluster) cluster)
          after.clusters
    pub references : references_hold after.pains after.clusters ≡ true

  -- The same, where a pain that moved is known by its id only.
  record ClusteredByIds (program_id : ℕ) (b after : ClusterBase) : Type 0 where
    affected : List ℤ
    moved :
        Paired
          (IsMoved (where_rows (is_unclustered program_id) b.pains) affected)
          b.pains
          after.pains
    current :
        All
          (λ cluster.
            is_affected (pos cluster.id) affected ≡ true
            → 1 ≤ length (pains_in after.pains cluster)
            → IsCurrent round2 now (pains_in after.pains cluster) cluster)
          after.clusters
    references : references_hold after.pains after.clusters ≡ true

  -- A run that has nothing to do.
  idle-ByIds :
      (program_id : ℕ) (b : ClusterBase)
      → references_hold b.pains b.clusters ≡ true
      → ClusteredByIds program_id b b
  unfolding update_all_stats
  idle-ByIds program_id b h = record {
    affected = [];
    moved = Moved_refl (where_rows (is_unclustered program_id) b.pains) [] b.pains;
    current = update_all_stats-IsCurrent round2 now b.pains [] b.clusters;
    references = h;
  }

  finish-ByIds :
      (program_id : ℕ) (b : ClusterBase) (acc : Assigning) (r : ClusterBase × ℕ)
      → Moving (where_rows (is_unclustered program_id) b.pains) b.pains acc
      → finish round2 now (some acc) ≡ some r
      → ClusteredByIds program_id b r.0
  unfolding flush_clusters
  finish-ByIds program_id b acc r h e =
      let clusters = update_all_stats round2 now acc.base.pains acc.affected acc.base.clusters in
      let after = record acc.base { clusters = clusters } in
      elim (Bool-cases (references_hold acc.base.pains acc.base.clusters)) [
        | inr broken ↦ absurd (ground arith)
        | inl holds ↦
            let done : after ≡ r.0 = ground arith in
            subst (ClusteredByIds program_id b) done (record {
              affected = acc.affected;
              moved = h;
              current =
                  update_all_stats-IsCurrent round2 now acc.base.pains acc.affected
                    acc.base.clusters;
              references =
                  references_hold-update_all acc.base.pains acc.affected acc.base.clusters ∙ holds;
            })
      ]

module _ (loads : Text → Option Json) (round2 : ℕ → ℕ → ℕ) (now : DateTime) (program_id : ℕ) where
  untouched-ByIds :
      (b : ClusterBase) (r : ClusterBase × ℕ)
      → references_hold b.pains b.clusters ≡ true
      → ◌≡◌ {A = Option (ClusterBase × ℕ)} (some (b, 0)) (some r)
      → ClusteredByIds round2 now program_id b r.0
  untouched-ByIds b r h e =
      subst (λ (q : ClusterBase × ℕ). ClusteredByIds round2 now program_id b q.0) (eq_of_some e)
        (idle-ByIds round2 now program_id b h)

  cluster_known-ByIds :
      (known : List Pain) (assignments : Option (List Json)) (b : ClusterBase) (r : ClusterBase × ℕ)
      → references_hold b.pains b.clusters ≡ true
      → where_rows (is_unclustered program_id) b.pains ≡ known
      → cluster_known loads round2 now program_id known assignments b ≡ some r
      → ClusteredByIds round2 now program_id b r.0
  cluster_known-ByIds [] assignments b r h k e = untouched-ByIds b r h e
  cluster_known-ByIds (p ∷ ps) none b r h k e = absurd (ground arith)
  cluster_known-ByIds (p ∷ ps) (some []) b r h k e = untouched-ByIds b r h e
  cluster_known-ByIds (p ∷ ps) (some (v ∷ vs)) b r h k e =
      let start : Assigning = record { base = b; cache = []; affected = []; count = 0 } in
      elim (Option-cases (assign_all p.user_id program_id (p ∷ ps) (v ∷ vs) start)) [
        | inl raised ↦ absurd (ground arith)
        | inr (acc, assigned) ↦
            finish-ByIds round2 now program_id b acc r
              (subst (λ ks. Moving ks b.pains acc) (sym k)
                (assign_all-Moving p.user_id program_id (p ∷ ps) b.pains (v ∷ vs) start acc assigned
                  (Moved_refl (p ∷ ps) [] b.pains)))
              (rw assigned at e)
      ]

  cluster_new_pains-ByIds :
      (enabled has_llm : Bool) (answer : Answer) (b : ClusterBase) {r : ClusterBase × ℕ}
      → references_hold b.pains b.clusters ≡ true
      → cluster_new_pains loads round2 now program_id enabled has_llm answer b ≡ some r
      → ClusteredByIds round2 now program_id b r.0
  unfolding cluster_new_pains
  cluster_new_pains-ByIds enabled has_llm answer b {r} h e =
      elim (Bool-cases (enabled && has_llm)) [
        | inr off ↦ untouched-ByIds b r h (rw off at e)
        | inl on ↦
            cluster_known-ByIds (where_rows (is_unclustered program_id) b.pains)
              (read_assignments loads answer) b r h refl (rw on at e)
      ]

  -- A run that does not raise, on tables where every pain's cluster exists and no two pains have
  -- the same id, leaves such references. It changes pains in their cluster only, and only those of
  -- the program that had no cluster; the clusters they move to are among the affected ones. Every
  -- affected cluster that has pains shows the number, average intensity, dates and trend of exactly
  -- its pains.
  pub cluster_new_pains-IsClustered :
      (enabled has_llm : Bool) (answer : Answer) (b : ClusterBase) {r : ClusterBase × ℕ}
      → HasUniqueIds b.pains
      → references_hold b.pains b.clusters ≡ true
      → cluster_new_pains loads round2 now program_id enabled has_llm answer b ≡ some r
      → IsClustered round2 now program_id b r.0
  cluster_new_pains-IsClustered enabled has_llm answer b {r} u h e =
      let g = cluster_new_pains-ByIds enabled has_llm answer b h e in
      record {
        affected = g.affected;
        moved = IsMoved-own program_id g.affected b.pains r.0.pains u g.moved;
        current = g.current;
        references = g.references;
      }
