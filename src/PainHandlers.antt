-- ===== src/PainHandlers.antt =====
-- bot/handlers/pains_handler.py: the screens on pains, clusters and draft posts. A handler gets the
-- user's id and the data of the button that was pressed; `none` is the ValueError of an `int(...)`
-- on that data. A reply is the last message, with the rows that its text shows.
pub mod Pages
pub mod Ranking
pub mod Owned
pub mod Drafts
mod Tests
use lead_finder.Prelude.{
  ℕ, suc, ◌+◌, Bool, true, false, ◌&&◌, ◌||◌, Option, none, some, List, [], ◌∷◌, ltb, ◌==◌,
  if◌then◌else◌, take, get_elem?, length, map,
}
use lead_finder.Prelude.Int.{ℤ, pos, negsuc}
use lead_finder.Prelude.Text.{Text, text, split, starts_with}
use lead_finder.Prelude.Numeral.{parse_int}
use lead_finder.Prelude.Sorting.{sort_by}
use lead_finder.Prelude.Paging.{page_count, clamp_page, page_of}
use lead_finder.DateTime.{DateTime, before}
use lead_finder.Json.{Json}
use lead_finder.Models.{Program, Pain, PainCluster, GeneratedPost}
use lead_finder.Models.Table.{where_rows, first_row, count_rows, delete_rows}
use lead_finder.Qualifier.Qualify.{Answer}
use lead_finder.Payments.{last_piece}
use lead_finder.ContentGenerator.{Posts, Generated, generate_post, has_cluster_id, is_pain_of}
use lead_finder.PainMenu.{Mode, top, generate, scores_more}

abbrev pub quotes_page_size : ℕ
quotes_page_size = 5

abbrev pub drafts_page_size : ℕ
drafts_page_size = 5

abbrev pub clusters_page_size : ℕ
clusters_page_size = 10

-- The tables that the screens read.
pub record Content : Type 0 where
  pub programs : List Program
  pub clusters : List PainCluster
  pub pains : List Pain
  pub posts : Posts

-- A page of a list: its rows, its number, and how many pages there are.
pub record Page (A : Type 0) : Type 0 where
  pub rows : List A
  pub number : ℕ
  pub total_pages : ℕ

pub data Screen : Type 0 where
  no_programs no_pains no_clusters cluster_not_found no_quotes no_drafts draft_not_found : Screen
  generation_failed : ℕ → Screen
  pains_summary : ℕ → ℕ → ℕ → Screen
  clusters_page : Mode → Page PainCluster → Screen
  cluster_detail : PainCluster → List Pain → Screen
  quotes_page : PainCluster → Page Pain → Screen
  drafts_page : Page GeneratedPost → Screen
  draft : GeneratedPost → Text → Screen

-- The page that is shown of a list: `page` is brought into the range of the pages.
unfoldable pub shown_page : {A : Type 0} → ℕ → ℤ → List A → Page A
shown_page size page rows =
    let total_pages = page_count size (length rows) in
    let number = clamp_page page total_pages in
    record { rows = page_of size number rows; number = number; total_pages = total_pages }

-- `_get_program_ids_for_user`
unfoldable pub get_program_ids_for_user : ℕ → List Program → List ℕ
get_program_ids_for_user user_id programs =
    sort_by ltb
      (map (λ (p : Program). p.id) (where_rows (λ (p : Program). p.user_id == user_id) programs))

-- `n.in_(ids)`
unfoldable pub is_in : ℕ → List ℕ → Bool
is_in n [] = false
is_in n (m ∷ ms) = n == m || is_in n ms

-- `PainCluster.program_id.in_(program_ids)`
unfoldable pub is_visible : List ℕ → PainCluster → Bool
unfolding is_in
is_visible program_ids c = is_in c.program_id program_ids

-- A post whose cluster is visible: the join with the clusters, whose ids are primary keys.
unfoldable pub is_visible_post : List ℕ → List PainCluster → GeneratedPost → Bool
is_visible_post program_ids [] p = false
is_visible_post program_ids (c ∷ clusters) p =
    p.cluster_id == c.id && is_visible program_ids c || is_visible_post program_ids clusters p

-- `int(parts[n]) if len(parts) > n else 0`
unfoldable pub page_in : ℕ → List Text → Option ℤ
page_in n parts = elim (get_elem? parts n) [ none ↦ some (pos 0) | some t ↦ parse_int t ]

-- `int(callback.data.split("_")[-1])`
unfoldable pub last_int : Text → Option ℤ
last_int callback_data = parse_int (last_piece (split b'_' callback_data))

-- No row has a negative id.
abbrev pub with_cluster_id : ℤ → PainCluster → Bool
with_cluster_id (pos n) c = has_cluster_id n c
with_cluster_id (negsuc n) c = false

abbrev pub name_of : Option PainCluster → Text
name_of none = text "Неизвестный кластер"
name_of (some c) = c.name

abbrev pub with_post_id : ℤ → GeneratedPost → Bool
with_post_id (pos n) p = p.id == n
with_post_id (negsuc n) p = false

module _ (user_id : ℕ) (t : Content) where
  unfoldable pub visible_clusters : List PainCluster
  visible_clusters =
      where_rows (is_visible (get_program_ids_for_user user_id t.programs)) t.clusters

  -- The query that guards the screens of one cluster.
  unfoldable pub find_cluster : ℤ → Option PainCluster
  find_cluster cluster_id =
      first_row
        (λ c.
          with_cluster_id cluster_id c
          && is_visible (get_program_ids_for_user user_id t.programs) c)
        t.clusters

  unfoldable pub visible_posts : List GeneratedPost
  visible_posts =
      where_rows (is_visible_post (get_program_ids_for_user user_id t.programs) t.clusters)
        t.posts.rows

  abbrev pub summary_for : List ℕ → Screen
  summary_for [] = no_programs
  summary_for (i ∷ ids) =
      pains_summary (count_rows (λ (p : Pain). is_in p.program_id (i ∷ ids)) t.pains)
        (count_rows (is_visible (i ∷ ids)) t.clusters)
        (count_rows (is_visible_post (i ∷ ids) t.clusters) t.posts.rows)

  unfoldable pub pains_menu_handler : Screen
  pains_menu_handler = summary_for (get_program_ids_for_user user_id t.programs)

  -- `sorted(clusters, key=cluster_score, reverse=True)`
  unfoldable pub ranked_clusters : DateTime → List PainCluster
  ranked_clusters now = sort_by (scores_more now) visible_clusters

  abbrev pub clusters_or : Mode → Screen → ℤ → List PainCluster → Screen
  clusters_or mode empty page [] = empty
  clusters_or mode empty page (c ∷ cs) =
      clusters_page mode (shown_page clusters_page_size page (c ∷ cs))

  abbrev pub clusters_for : Mode → Screen → ℤ → DateTime → List ℕ → Screen
  clusters_for mode empty page now [] = no_programs
  clusters_for mode empty page now (i ∷ ids) = clusters_or mode empty page (ranked_clusters now)

  abbrev pub show_clusters : Mode → Screen → DateTime → Option ℤ → Option Screen
  show_clusters mode empty now none = none
  show_clusters mode empty now (some page) =
      some (clusters_for mode empty page now (get_program_ids_for_user user_id t.programs))

  unfoldable pub top_pains_handler : DateTime → Text → Option Screen
  top_pains_handler now callback_data =
      show_clusters top no_pains now (page_in 2 (split b'_' callback_data))

  unfoldable pub generate_post_menu_handler : DateTime → Text → Option Screen
  generate_post_menu_handler now callback_data = show_clusters generate no_clusters now (
      if starts_with (text "generate_pains_") callback_data
      then page_in 2 (split b'_' callback_data)
      else some (pos 0))

  abbrev pub detail_of : Option PainCluster → Screen
  detail_of none = cluster_not_found
  detail_of (some c) = cluster_detail c (take 3 (where_rows (is_pain_of c.id) t.pains))

  abbrev pub show_detail : Option ℤ → Option Screen
  show_detail none = none
  show_detail (some cluster_id) = some (detail_of (find_cluster cluster_id))

  unfoldable pub cluster_detail_handler : Text → Option Screen
  cluster_detail_handler callback_data = show_detail (last_int callback_data)

  abbrev pub quotes_or : PainCluster → ℤ → List Pain → Screen
  quotes_or c page [] = no_quotes
  quotes_or c page (p ∷ ps) = quotes_page c (shown_page quotes_page_size page (p ∷ ps))

  abbrev pub quotes_of : ℤ → Option PainCluster → Screen
  quotes_of page none = cluster_not_found
  quotes_of page (some c) = quotes_or c page (where_rows (is_pain_of c.id) t.pains)

  abbrev pub show_quotes : Option ℤ → Option ℤ → Option Screen
  show_quotes (some cluster_id) (some page) = some (quotes_of page (find_cluster cluster_id))
  show_quotes cluster_id page = none

  -- The data has at least three parts, as it starts with `cluster_quotes_`.
  unfoldable pub cluster_quotes_handler : Text → Option Screen
  cluster_quotes_handler callback_data =
      show_quotes (page_in 2 (split b'_' callback_data)) (page_in 3 (split b'_' callback_data))

  abbrev pub drafts_or : ℤ → List GeneratedPost → Screen
  drafts_or page [] = no_drafts
  drafts_or page (p ∷ ps) = drafts_page (shown_page drafts_page_size page (p ∷ ps))

  -- `order_by(GeneratedPost.generated_at.desc())`
  unfoldable pub sorted_posts : List GeneratedPost
  sorted_posts = sort_by (λ p q. before q.generated_at p.generated_at) visible_posts

  abbrev pub drafts_for : ℤ → List ℕ → Screen
  drafts_for page [] = no_programs
  drafts_for page (i ∷ ids) = drafts_or page sorted_posts

  abbrev pub show_drafts : Option ℤ → Option Screen
  show_drafts none = none
  show_drafts (some page) = some (drafts_for page (get_program_ids_for_user user_id t.programs))

  unfoldable pub my_drafts_handler : Text → Option Screen
  my_drafts_handler callback_data = show_drafts (page_in 2 (split b'_' callback_data))

  abbrev pub draft_of : Option GeneratedPost → Screen
  draft_of none = draft_not_found
  draft_of (some p) = draft p (name_of (first_row (has_cluster_id p.cluster_id) t.clusters))

  unfoldable pub find_post : ℤ → Option GeneratedPost
  find_post post_id =
      first_row
        (λ p.
          with_post_id post_id p
          && is_visible_post (get_program_ids_for_user user_id t.programs) t.clusters p)
        t.posts.rows

  abbrev pub show_draft : Option ℤ → Option Screen
  show_draft none = none
  show_draft (some post_id) = some (draft_of (find_post post_id))

  unfoldable pub view_draft_handler : Text → Option Screen
  view_draft_handler callback_data = show_draft (last_int callback_data)

unfoldable pub delete_post : ℤ → Content → Content
delete_post post_id t = record t {
  posts = record t.posts { rows = delete_rows (with_post_id post_id) t.posts.rows };
}

abbrev pub delete_at : ℕ → Text → Content → Option ℤ → Option (Content × Option Screen)
delete_at user_id callback_data t none = none
delete_at user_id callback_data t (some post_id) =
    let later = delete_post post_id t in some (later, my_drafts_handler user_id later callback_data)

-- Deletes the post, and shows the drafts with the same data.
unfoldable pub delete_draft_handler : ℕ → Text → Content → Option (Content × Option Screen)
delete_draft_handler user_id callback_data t =
    delete_at user_id callback_data t (last_int callback_data)

module _ (loads : Text → Option Json) (has_llm : Bool) (ask : PainCluster → List Text → Answer)
    (now : DateTime) (user_id : ℕ) where
  abbrev pub conclude : PainCluster → Content → Option Generated → Content × Screen
  conclude c t none = (t, generation_failed c.id)
  conclude c t (some g) = (record t { clusters = g.clusters; posts = g.posts }, draft g.post c.name)

  abbrev pub generate_for : Content → Option PainCluster → Content × Screen
  generate_for t none = (t, cluster_not_found)
  generate_for t (some c) =
      conclude c t (generate_post loads has_llm ask now c.id t.clusters t.pains t.posts)

  abbrev pub generate_at : Content → Option ℤ → Option (Content × Screen)
  generate_at t none = none
  generate_at t (some cluster_id) = some (generate_for t (find_cluster user_id t cluster_id))

  unfoldable pub generate_post_choose_type : Text → Content → Option (Content × Screen)
  generate_post_choose_type callback_data t = generate_at t (last_int callback_data)

  -- The data is `gen_<type>_<digits>`.
  unfoldable pub generate_post_execute : Text → Content → Option (Content × Screen)
  generate_post_execute callback_data t = generate_at t (page_in 2 (split b'_' callback_data))

  unfoldable pub regen_post_handler : Text → Content → Option (Content × Screen)
  regen_post_handler callback_data t = generate_at t (last_int callback_data)
