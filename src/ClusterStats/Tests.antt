-- ===== src/ClusterStats/Tests.antt =====
-- The figures of a cluster of two pains, with rounding half up.
use native.Mathlib.Nat.{div-add-mod, mod-lt}
use lead_finder.Prelude.{
  ℕ, ◌+◌, ◌*◌, ◌/◌, ◌%◌, ◌≤◌, ◌≡◌, refl, true, false, none, some, List, [], ◌∷◌, arith, length,
}
use lead_finder.Prelude.Int.{pos}
use lead_finder.Prelude.Text.{Text, text, text_eq}
use lead_finder.DateTime.{DateTime, instant, before}
use lead_finder.Models.{Pain, PainCluster}
use lead_finder.Models.Table.{All, where_rows, count_rows, update_rows}
use lead_finder.ClusterStats.{
  eq_ℤ, in_cluster, with_stats, intensity_score, total_score, first_date, last_date, is_since,
  is_recent, is_previous, trend_of, has_id, update_cluster_stats, update_all_stats,
}
use lead_finder.ClusterStats.Current.{is_affected, IsCurrent, pains_in, update_all_stats-IsCurrent}
use lead_finder.ClusterStats.Figures.{IsRounding, with_stats-avg_intensity}

unfoldable rounded : ℕ → ℕ → ℕ
rounded s n = (200 * s + n) / (2 * n)

rounded-IsRounding : IsRounding rounded
unfolding rounded
rounded-IsRounding s n h =
    let q = (200 * s + n) / (2 * n) in
    let r = (200 * s + n) % (2 * n) in
    let whole = div-add-mod (200 * s + n) (2 * n) in
    let below = mod-lt (200 * s + n) {m = 2 * n} (omega arith) in
    let product : 2 * n * q ≡ 2 * (n * q) = omega arith in (omega arith, omega arith)

abbrev day : ℕ → DateTime
day d = record { year = 2025; month = 6; day = d; micros = 0 }

abbrev pain : Text → ℕ → Pain
pain intensity d = record {
  id = d;
  user_id = 4;
  program_id = 8;
  text = text "a";
  original_quote = text "b";
  category = text "other";
  intensity = intensity;
  business_type = none;
  source_chat = text "shop";
  source_message_id = d;
  source_message_link = none;
  source_user_id = none;
  source_username = none;
  message_date = some (day d);
  cluster_id = some (pos 3);
  used_in_post = false;
}

abbrev cluster : PainCluster
cluster = record {
  id = 3;
  user_id = 4;
  program_id = 8;
  name = text "c";
  category = text "other";
  description = [];
  pain_count = 0;
  avg_intensity = 0;
  first_seen = none;
  last_seen = none;
  trend = text "stable";
  post_generated = false;
}

abbrev pains : List Pain
pains = pain (text "high") 25 ∷ pain (text "low") 20 ∷ pain (text "medium") 28 ∷ []

-- Two pains of the last week against one of the week before: the cluster grows.
figures :
    update_cluster_stats rounded (day 30) pains (pos 3) (cluster ∷ [])
    ≡ record cluster {
      pain_count = 3;
      avg_intensity = 200;
      first_seen = some (day 20);
      last_seen = some (day 28);
      trend = text "growing";
    }
      ∷ []
unfolding update_cluster_stats update_rows has_id eq_ℤ where_rows in_cluster with_stats total_score
    intensity_score text_eq rounded first_date last_date before trend_of count_rows is_recent
    is_previous is_since instant
figures = refl

with_stats-avg_intensity_example :
    (100 ≤ (with_stats rounded (day 30) pains cluster).avg_intensity)
    × ((with_stats rounded (day 30) pains cluster).avg_intensity ≤ 300)
with_stats-avg_intensity_example =
    with_stats-avg_intensity rounded (day 30) (pain (text "high") 25)
      (pain (text "low") 20 ∷ pain (text "medium") 28 ∷ []) cluster rounded-IsRounding

update_all_stats-IsCurrent_example :
    All
      (λ c.
        is_affected (pos c.id) (pos 3 ∷ pos 3 ∷ []) ≡ true
        → 1 ≤ length (pains_in pains c)
        → IsCurrent rounded (day 30) (pains_in pains c) c)
      (update_all_stats rounded (day 30) pains (pos 3 ∷ pos 3 ∷ []) (cluster ∷ []))
update_all_stats-IsCurrent_example =
    update_all_stats-IsCurrent rounded (day 30) pains (pos 3 ∷ pos 3 ∷ []) (cluster ∷ [])
