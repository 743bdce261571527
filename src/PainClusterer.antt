-- ===== src/PainClusterer.antt =====
-- modules/pain_clusterer.py, `cluster_new_pains`: the assignments of an answer, applied to the
-- pains of a program that have no cluster yet. `loads` is `json.loads`, `none` a raised exception;
-- an id that the database gives is the next number. Column lengths are not checked.
pub mod Moves
pub mod Ids
pub mod Clustered
mod Tests
use lead_finder.Prelude.{
  ℕ, suc, ◌+◌, ◌%◌, ◌/◌, ◌^◌, Bool, true, false, ◌&&◌, ◌||◌, not, Option, none, some, List, [], ◌∷◌,
  ◌++◌, ◌==◌, if◌then◌else◌,
}
use lead_finder.Prelude.Int.{ℤ, pos, negsuc}
use lead_finder.Prelude.Text.{Text, text, text_eq, strip, lower}
use lead_finder.DateTime.{DateTime}
use lead_finder.Json.{Json, Items, Fields, get, get_or, truth}
use lead_finder.Models.{Pain, PainCluster}
use lead_finder.Models.Table.{where_rows, first_row, update_rows}
use lead_finder.Qualifier.Qualify.{Answer}
use lead_finder.PainCollector.{llm_json_text}
use lead_finder.PainSaver.{iterated}
use lead_finder.ClusterStats.{has_id, update_all_stats}

-- The two tables under the session, and the id of the next cluster.
pub record ClusterBase : Type 0 where
  pub pains : List Pain
  pub clusters : List PainCluster
  pub next_id : ℕ

-- An entry of `new_clusters_cache`.
pub record CacheEntry : Type 0 where
  pub key : Text
  pub id : ℕ

pub record Assigning : Type 0 where
  pub base : ClusterBase
  pub cache : List CacheEntry
  pub affected : List ℤ
  pub count : ℕ

-- `Pain.program_id == program_id, Pain.cluster_id.is_(None)`
unfoldable pub is_unclustered : ℕ → Pain → Bool
is_unclustered program_id p =
    p.program_id == program_id && elim p.cluster_id [ none ↦ true | some c ↦ false ]

-- `pain_by_id.get(pain_id)` for a key of the answer: a number that equals an id, another key, or a
-- value that cannot be a key.
pub data PainKey : Type 0 where
  number : ℕ → PainKey
  unknown unhashable : PainKey

unfoldable pub pain_key : Json → PainKey
pain_key (Json.int (pos n)) = PainKey.number n
pain_key (Json.bool b) = PainKey.number (if b then 1 else 0)
pain_key (Json.float (pos m) e) =
    if m % 10 ^ e == 0 then PainKey.number (m / 10 ^ e) else PainKey.unknown
pain_key (Json.arr xs) = PainKey.unhashable
pain_key (Json.obj fs) = PainKey.unhashable
pain_key v = PainKey.unknown

unfoldable pub has_pain_id : ℕ → Pain → Bool
has_pain_id n p = p.id == n

abbrev pub in_clusters : Option ℤ → List PainCluster → Bool
in_clusters none clusters = true
in_clusters (some c) [] = false
in_clusters (some c) (cluster ∷ clusters) = has_id c cluster || in_clusters (some c) clusters

-- The foreign key of `pains.cluster_id`.
unfoldable pub references_hold : List Pain → List PainCluster → Bool
references_hold [] clusters = true
references_hold (p ∷ ps) clusters = in_clusters p.cluster_id clusters && references_hold ps clusters

-- `session.flush()`
unfoldable pub flush_clusters : ClusterBase → Option ClusterBase
flush_clusters b = if references_hold b.pains b.clusters then some b else none

-- `new_name.lower().strip()`
unfoldable pub cache_key : Text → Text
cache_key name = strip (lower name)

unfoldable pub find_cached : Text → List CacheEntry → Option ℕ
find_cached key [] = none
find_cached key (e ∷ es) = if text_eq e.key key then some e.id else find_cached key es

-- `assignment.get(key, default)` for a text column: anything but a string fails at the flush.
abbrev pub text_or : Text → Text → Fields → Option Text
text_or key default fs = elim (get_or key (Json.str default) fs) [
  | Json.str s ↦ some s
  | Json.null ↦ none
  | Json.bool b ↦ none
  | Json.int n ↦ none
  | Json.float m e ↦ none
  | Json.arr xs ↦ none
  | Json.obj gs ↦ none
]

-- `pain.cluster_id = ...`, and the two lines after it.
unfoldable pub assign : ℕ → ℤ → Assigning → Assigning
assign pain_id c acc = record acc {
  base = record acc.base {
    pains =
        update_rows (has_pain_id pain_id) (λ p. record p { cluster_id = some c }) acc.base.pains;
  };
  affected = c ∷ acc.affected;
  count = suc acc.count;
}

module _ (user_id program_id : ℕ) where
  unfoldable pub new_cluster : ℕ → Text → Text → Text → PainCluster
  new_cluster id name category description = record {
    id = id;
    user_id = user_id;
    program_id = program_id;
    name = name;
    category = category;
    description = description;
    pain_count = 0;
    avg_intensity = 0;
    first_seen = none;
    last_seen = none;
    trend = text "stable";
    post_generated = false;
  }

  -- A new cluster is added, flushed and remembered.
  unfoldable pub create_cluster : Text → Text → Text → Assigning → Option Assigning
  create_cluster name category description acc =
      elim (flush_clusters (record acc.base {
        clusters = acc.base.clusters ++ new_cluster acc.base.next_id name category description ∷ [];
        next_id = suc acc.base.next_id;
      })) [
        | none ↦ none
        | some b ↦ some (record acc {
          base = b;
          cache = record { key = cache_key name; id = acc.base.next_id } ∷ acc.cache;
        })
      ]

  abbrev pub create_from : Text → Option Text → Option Text → Assigning → Option Assigning
  create_from name (some category) (some description) acc =
      create_cluster name category description acc
  create_from name category description acc = none

  unfoldable pub assign_new : ℕ → Text → Fields → Assigning → Option Assigning
  assign_new pain_id name fs acc = elim (find_cached (cache_key name) acc.cache) [
    | some id ↦ some (assign pain_id (pos id) acc)
    | none ↦
        elim (create_from name (text_or (text "new_cluster_category") (text "other") fs)
          (text_or (text "new_cluster_description") [] fs) acc) [
            | none ↦ none
            | some acc' ↦ some (assign pain_id (pos acc.base.next_id) acc')
          ]
  ]

  abbrev pub assign_named : ℕ → Json → Fields → Assigning → Option Assigning
  assign_named pain_id (Json.str name) fs acc = assign_new pain_id name fs acc
  assign_named pain_id v fs acc = none

  -- The reference to a cluster in an assignment of a known pain.
  unfoldable pub assign_ref : ℕ → Option Json → Fields → Assigning → Option Assigning
  assign_ref pain_id (some (Json.str s)) fs acc =
      if text_eq s (text "new")
      then assign_named pain_id
          (get_or (text "new_cluster_name") (Json.str (text "Без названия")) fs) fs acc
      else some acc
  assign_ref pain_id (some (Json.int c)) fs acc = some (assign pain_id c acc)
  assign_ref pain_id (some (Json.bool b)) fs acc =
      some (assign pain_id (pos (if b then 1 else 0)) acc)
  assign_ref pain_id ref fs acc = some acc

  -- One assignment; `known` are the pains of `pain_by_id`.
  abbrev pub assign_known : List Pain → PainKey → Fields → Assigning → Option Assigning
  assign_known known PainKey.unhashable fs acc = none
  assign_known known PainKey.unknown fs acc = some acc
  assign_known known (PainKey.number n) fs acc = elim (first_row (has_pain_id n) known) [
    | none ↦ some acc
    | some p ↦ assign_ref n (get (text "cluster_id") fs) fs acc
  ]

  unfoldable pub assign_one : List Pain → Json → Assigning → Option Assigning
  assign_one known (Json.obj fs) acc =
      assign_known known (pain_key (get_or (text "pain_id") Json.null fs)) fs acc
  assign_one known v acc = none

  unfoldable pub assign_all : List Pain → List Json → Assigning → Option Assigning
  assign_all known [] acc = some acc
  assign_all known (v ∷ vs) acc = elim (assign_one known v acc) [
    | none ↦ none
    | some acc' ↦ assign_all known vs acc'
  ]

-- The assignments of an answer: it is no JSON or the call failed (an empty list, and the function
-- returns 0), or something that cannot be read raises.
unfoldable pub assignments_of : Option Json → Option (List Json)
assignments_of none = some []
assignments_of (some (Json.obj r)) =
    let v = get_or (text "assignments") (Json.arr Items.nil) r in
    if truth v then iterated v else some []
assignments_of (some v) = none

module _ (loads : Text → Option Json) where
  unfoldable pub read_assignments : Answer → Option (List Json)
  read_assignments (Answer.raised message) = some []
  read_assignments (Answer.content raw) = assignments_of (loads (llm_json_text raw))

module _ (round2 : ℕ → ℕ → ℕ) (now : DateTime) where
  -- The last flush and the update of the affected clusters.
  abbrev pub finish : Option Assigning → Option (ClusterBase × ℕ)
  finish none = none
  finish (some acc) = elim (flush_clusters acc.base) [
    | none ↦ none
    | some b ↦ some (
      record b { clusters = update_all_stats round2 now b.pains acc.affected b.clusters },
      acc.count,
    )
  ]

module _ (loads : Text → Option Json) (round2 : ℕ → ℕ → ℕ) (now : DateTime) (program_id : ℕ) where
  abbrev pub cluster_known : List Pain → Option (List Json) → ClusterBase → Option (ClusterBase × ℕ)
  cluster_known [] assignments b = some (b, 0)
  cluster_known (p ∷ ps) none b = none
  cluster_known (p ∷ ps) (some []) b = some (b, 0)
  cluster_known (p ∷ ps) (some (v ∷ vs)) b = finish round2 now (
      assign_all p.user_id program_id (p ∷ ps) (v ∷ vs)
        (record { base = b; cache = []; affected = []; count = 0 }))

  -- `has_llm` is `_llm` being there.
  unfoldable pub cluster_new_pains : Bool → Bool → Answer → ClusterBase → Option (ClusterBase × ℕ)
  cluster_new_pains enabled has_llm answer b =
      if enabled && has_llm
      then cluster_known (where_rows (is_unclustered program_id) b.pains)
          (read_assignments loads answer) b
      else some (b, 0)
