-- ===== src/PainClusterer/Tests.antt =====
-- A run over two pains, of which an answer moves one to a new cluster and one to an old one.
use lead_finder.Prelude.{ℕ, ◌≡◌, refl, true, false, Option, none, some, [], ◌∷◌}
use lead_finder.Prelude.Int.{ℤ, pos}
use lead_finder.Prelude.Text.{Text, text, text_eq, strip, lower, lower_char}
use lead_finder.DateTime.{DateTime}
use lead_finder.Json.{Json, Items, Fields, get}
use lead_finder.Models.{Pain, PainCluster}
use lead_finder.Models.Table.{where_rows, first_row, update_rows, count_rows}
use lead_finder.Qualifier.Qualify.{Answer}
use lead_finder.ClusterStats.{
  eq_ℤ, in_cluster, with_stats, intensity_score, total_score, first_date, last_date, is_recent,
  is_previous, trend_of, has_id, update_cluster_stats, update_all_stats,
}
use lead_finder.PainClusterer.{
  ClusterBase, is_unclustered, pain_key, has_pain_id, references_hold, flush_clusters, cache_key,
  find_cached, assign, new_cluster, create_cluster, assign_new, assign_ref, assign_one, assign_all,
  assignments_of, read_assignments, cluster_new_pains,
}
use lead_finder.PainClusterer.Clustered.{IsClustered, cluster_new_pains-IsClustered}

abbrev now : DateTime
now = record { year = 2025; month = 6; day = 30; micros = 0 }

abbrev pain : ℕ → Option ℤ → Pain
pain id cluster_id = record {
  id = id;
  user_id = 4;
  program_id = 8;
  text = text "a";
  original_quote = text "b";
  category = text "other";
  intensity = text "high";
  business_type = none;
  source_chat = text "shop";
  source_message_id = id;
  source_message_link = none;
  source_user_id = none;
  source_username = none;
  message_date = none;
  cluster_id = cluster_id;
  used_in_post = false;
}

abbrev cluster : ℕ → Text → ℕ → ℕ → PainCluster
cluster id name pain_count avg_intensity = record {
  id = id;
  user_id = 4;
  program_id = 8;
  name = name;
  category = text "other";
  description = [];
  pain_count = pain_count;
  avg_intensity = avg_intensity;
  first_seen = none;
  last_seen = none;
  trend = text "stable";
  post_generated = false;
}

abbrev before : ClusterBase
before = record {
  pains = pain 1 none ∷ pain 2 (some (pos 3)) ∷ pain 5 none ∷ [];
  clusters = cluster 3 (text "old") 1 300 ∷ [];
  next_id = 4;
}

abbrev after : ClusterBase
after = record {
  pains = pain 1 (some (pos 4)) ∷ pain 2 (some (pos 3)) ∷ pain 5 (some (pos 3)) ∷ [];
  clusters = cluster 3 (text "old") 2 300 ∷ cluster 4 (text "New ") 1 300 ∷ [];
  next_id = 5;
}

-- The second assignment is of a pain that has a cluster, so it is skipped.
abbrev assignments : Items
assignments =
    Items.cons
      (Json.obj (
        Fields.field (text "pain_id") (Json.int (pos 1)) (
          Fields.field (text "cluster_id") (Json.str (text "new"))
            (Fields.field (text "new_cluster_name") (Json.str (text "New ")) Fields.end))))
      (Items.cons
        (Json.obj (
          Fields.field (text "pain_id") (Json.int (pos 2))
            (Fields.field (text "cluster_id") (Json.int (pos 9)) Fields.end)))
        (Items.cons
          (Json.obj (
            Fields.field (text "pain_id") (Json.int (pos 5))
              (Fields.field (text "cluster_id") (Json.int (pos 3)) Fields.end)))
          Items.nil))

abbrev reads : Text → Option Json
reads s = some (Json.obj (Fields.field (text "assignments") (Json.arr assignments) Fields.end))

-- All scores are 3.
abbrev round2 : ℕ → ℕ → ℕ
round2 s n = 300

run :
    cluster_new_pains reads round2 now 8 true true (Answer.content (text "{}")) before
    ≡ some (after, 2)
unfolding cluster_new_pains read_assignments assignments_of get text_eq where_rows is_unclustered
    assign_all assign_one pain_key has_pain_id first_row assign_ref assign_new cache_key strip lower
    lower_char find_cached create_cluster new_cluster flush_clusters references_hold has_id eq_ℤ
    assign update_rows update_all_stats update_cluster_stats in_cluster with_stats total_score
    intensity_score first_date last_date trend_of count_rows is_recent is_previous
run = refl

references : references_hold before.pains before.clusters ≡ true
unfolding references_hold has_id eq_ℤ
references = refl

cluster_new_pains-IsClustered_example : IsClustered round2 now 8 before after
cluster_new_pains-IsClustered_example =
    cluster_new_pains-IsClustered reads round2 now 8 true true (Answer.content (text "{}")) before
      ((refl, (refl, tt)), ((refl, tt), (tt, tt))) references run
