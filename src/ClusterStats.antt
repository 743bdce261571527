-- ===== src/ClusterStats.antt =====
-- modules/pain_clusterer.py, `_update_cluster_stats`: what a cluster says of its pains.
-- `round2 s n` is `round(s / n, 2)` in hundredths. A comparison of a count with another times 1.2
-- or 0.8 is exact below 2^53, so it is written on integers.
pub mod Current
pub mod Figures
mod Tests
use lead_finder.Prelude.{
  ℕ, suc, ◌+◌, ◌*◌, Bool, true, false, ◌&&◌, ◌||◌, not, Option, none, some, List, [], ◌∷◌, ◌==◌,
  if◌then◌else◌, leb, ltb, length,
}
use lead_finder.Prelude.Int.{ℤ, pos, negsuc}
use lead_finder.Prelude.Text.{Text, text, text_eq}
use lead_finder.DateTime.{DateTime, before, instant, day_micros}
use lead_finder.Models.{Pain, PainCluster}
use lead_finder.Models.Table.{where_rows, count_rows, update_rows}

unfoldable pub eq_ℤ : ℤ → ℤ → Bool
eq_ℤ (pos m) (pos n) = m == n
eq_ℤ (negsuc m) (negsuc n) = m == n
eq_ℤ a b = false

-- `Pain.cluster_id == cluster_id`
unfoldable pub in_cluster : ℤ → Pain → Bool
in_cluster c p = elim p.cluster_id [ none ↦ false | some d ↦ eq_ℤ d c ]

-- `_INTENSITY_MAP.get(p.intensity, 1)`
unfoldable pub intensity_score : Text → ℕ
intensity_score s =
    if text_eq s (text "medium") then 2 else if text_eq s (text "high") then 3 else 1

unfoldable pub total_score : List Pain → ℕ
total_score [] = 0
total_score (p ∷ ps) = intensity_score p.intensity + total_score ps

-- `min(dates)` and `max(dates)`, where the first of equal dates is kept.
abbrev pub earlier : DateTime → Option DateTime → DateTime
earlier d none = d
earlier d (some e) = if before e d then e else d

abbrev pub later : DateTime → Option DateTime → DateTime
later d none = d
later d (some e) = if before d e then e else d

unfoldable pub first_date : List Pain → Option DateTime
first_date [] = none
first_date (p ∷ ps) =
    let rest = first_date ps in elim p.message_date [ none ↦ rest | some d ↦ some (earlier d rest) ]

unfoldable pub last_date : List Pain → Option DateTime
last_date [] = none
last_date (p ∷ ps) =
    let rest = last_date ps in elim p.message_date [ none ↦ rest | some d ↦ some (later d rest) ]

-- `d >= now - timedelta(days=days)`
unfoldable pub is_since : DateTime → ℕ → DateTime → Bool
is_since now days d = leb (instant now) (instant d + days * day_micros)

unfoldable pub is_recent : DateTime → Pain → Bool
is_recent now p = elim p.message_date [ none ↦ false | some d ↦ is_since now 7 d ]

unfoldable pub is_previous : DateTime → Pain → Bool
is_previous now p = elim p.message_date [
  | none ↦ false
  | some d ↦ is_since now 14 d && not (is_since now 7 d)
]

unfoldable pub trend_of : ℕ → ℕ → Text
trend_of recent previous =
    if previous == 0
    then text "stable"
    else if ltb (previous * 6) (recent * 5)
    then text "growing"
    else if ltb (recent * 5) (previous * 4)
    then text "declining"
    else text "stable"

-- `session.get(PainCluster, cluster_id)`
unfoldable pub has_id : ℤ → PainCluster → Bool
has_id c cluster = eq_ℤ (pos cluster.id) c

module _ (round2 : ℕ → ℕ → ℕ) (now : DateTime) where
  -- The cluster's row with the figures of its pains.
  unfoldable pub with_stats : List Pain → PainCluster → PainCluster
  with_stats pains cluster = record cluster {
    pain_count = length pains;
    avg_intensity = round2 (total_score pains) (length pains);
    first_seen = first_date pains;
    last_seen = last_date pains;
    trend = trend_of (count_rows (is_recent now) pains) (count_rows (is_previous now) pains);
  }

  abbrev pub stats_of : List Pain → PainCluster → PainCluster
  stats_of [] cluster = cluster
  stats_of (p ∷ ps) cluster = with_stats (p ∷ ps) cluster

  unfoldable pub update_cluster_stats : List Pain → ℤ → List PainCluster → List PainCluster
  update_cluster_stats pains c clusters =
      update_rows (has_id c) (stats_of (where_rows (in_cluster c) pains)) clusters

  -- The loop over `affected_cluster_ids`.
  unfoldable pub update_all_stats : List Pain → List ℤ → List PainCluster → List PainCluster
  update_all_stats pains [] clusters = clusters
  update_all_stats pains (c ∷ cs) clusters =
      update_all_stats pains cs (update_cluster_stats pains c clusters)
