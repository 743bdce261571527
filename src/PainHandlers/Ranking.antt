-- ===== src/PainHandlers/Ranking.antt =====
-- The order in which clusters are listed.
use mathlib.Core.List.{Perm}
use lead_finder.Prelude.{
  ℕ, ◌+◌, ◌*◌, ◌≡◌, refl, ap, ◌∙◌, subst, Bool, true, false, List, [], ◌∷◌, ltb, ◌==◌,
  if◌then◌else◌, arith,
}
use lead_finder.Prelude.Int.{pos, ltb_ℤ, sub_ℕ}
use lead_finder.Prelude.Sorting.{IsSorted, sort_by-IsSorted, sort_by-perm}
use lead_finder.DateTime.{DateTime}
use lead_finder.Models.{Program, PainCluster}
use lead_finder.Models.Table.{where_rows}
use lead_finder.PainMenu.{scores_more, cluster_score, freshness_bonus, days_since}
use lead_finder.PainHandlers.{
  Content, ranked_clusters, visible_clusters, is_visible, get_program_ids_for_user,
}
use lead_finder.PainHandlers.Owned.{owns, is_in-owns}

scores_more-asymm :
    (now : DateTime) (c d : PainCluster) → scores_more now c d ≡ true → scores_more now d c ≡ false
unfolding scores_more
scores_more-asymm now c d h = ground (arith)

scores_more-chain :
    (now : DateTime) (c d e : PainCluster)
    → scores_more now e d ≡ false
    → scores_more now d c ≡ false
    → scores_more now e c ≡ false
unfolding scores_more
scores_more-chain now c d e h k = ground (arith)

-- 2 for each pain, 2 for each point of the average intensity, where 0 counts as 1, and 3 for a
-- cluster that was seen in the last 3 days, 1 in the last 7; in hundredths.
abbrev pub earned : DateTime → PainCluster → ℕ
earned now c =
    200 * c.pain_count
    + 2 * (if c.avg_intensity == 0 then 100 else c.avg_intensity)
    + (if ltb_ℤ (days_since now c.last_seen) (pos 3)
        then 300
        else if ltb_ℤ (days_since now c.last_seen) (pos 7)
        then 100
        else 0)

-- With 10 more as long as no post was made of the cluster, where the program takes 10 away after
-- it.
abbrev pub points : DateTime → PainCluster → ℕ
points now c = earned now c + (if c.post_generated then 0 else 1000)

cluster_score-earned :
    (now : DateTime) (c : PainCluster)
    → cluster_score now c ≡ sub_ℕ (earned now c) (if c.post_generated then 1000 else 0)
unfolding cluster_score freshness_bonus
cluster_score-earned now c =
    let days = days_since now c.last_seen in
    let bonus : 100 * (if ltb_ℤ days (pos 3) then 3 else if ltb_ℤ days (pos 7) then 1 else 0)
        ≡ (if ltb_ℤ days (pos 3) then 300 else if ltb_ℤ days (pos 7) then 100 else 0) =
      ground arith in
    let intensity = if c.avg_intensity == 0 then 100 else c.avg_intensity in
    ap (λ n. sub_ℕ n (if c.post_generated then 1000 else 0)) (omega (arith, bonus))

ltb_ℤ-sub_ℕ : (a p b q : ℕ) → ltb_ℤ (sub_ℕ a p) (sub_ℕ b q) ≡ ltb (a + q) (b + p)
ltb_ℤ-sub_ℕ a p b q = ground arith

ltb-posted :
    (a b : ℕ) (x y : Bool)
    → ltb (a + (if y then 1000 else 0)) (b + (if x then 1000 else 0))
      ≡ ltb (a + (if x then 0 else 1000)) (b + (if y then 0 else 1000))
ltb-posted a b x y = ground arith

scores_more-points :
    (now : DateTime) (c d : PainCluster) → scores_more now c d ≡ ltb (points now d) (points now c)
unfolding scores_more
scores_more-points now c d =
    ap (λ x. ltb_ℤ x (cluster_score now c)) (cluster_score-earned now d)
    ∙ ap (ltb_ℤ (sub_ℕ (earned now d) (if d.post_generated then 1000 else 0)))
        (cluster_score-earned now c)
    ∙ ltb_ℤ-sub_ℕ (earned now d) (if d.post_generated then 1000 else 0) (earned now c)
        (if c.post_generated then 1000 else 0)
    ∙ ltb-posted (earned now d) (earned now c) d.post_generated c.post_generated

where_rows-visible :
    (user_id : ℕ) (ps : List Program) (cs : List PainCluster)
    → where_rows (is_visible (get_program_ids_for_user user_id ps)) cs
      ≡ where_rows (λ c. owns user_id c.program_id ps) cs
unfolding where_rows is_visible
where_rows-visible user_id ps [] = refl
where_rows-visible user_id ps (c ∷ cs) =
    rw (is_in-owns user_id c.program_id ps, where_rows-visible user_id ps cs) refl

-- The ranking lists exactly the clusters of the programs that are the user's, each once, and none
-- of them is followed by one with more points.
pub ranked_clusters-IsSorted :
    (user_id : ℕ) (t : Content) (now : DateTime)
    → IsSorted (λ c d. ltb (points now d) (points now c)) (ranked_clusters user_id t now)
      × Perm
          (ranked_clusters user_id t now)
          (where_rows (λ c. owns user_id c.program_id t.programs) t.clusters)
unfolding ranked_clusters visible_clusters
ranked_clusters-IsSorted user_id t now = (
  subst
      (λ (before : PainCluster → PainCluster → Bool).
        IsSorted before (ranked_clusters user_id t now))
      (λ i c d. scores_more-points now c d i)
      (sort_by-IsSorted (scores_more now) (scores_more-asymm now) (scores_more-chain now)
        (visible_clusters user_id t)),
  rw (← where_rows-visible user_id t.programs t.clusters)
      (sort_by-perm (scores_more now) (visible_clusters user_id t)),
)
