-- ===== src/PainHandlers/Tests.antt =====
-- The screens at a user with one program, one cluster and one draft, and a stranger with none.
use lead_finder.Payments.{last_piece}
use lead_finder.Prelude.Numeral.{parse_int}
use lead_finder.Models.Table.{where_rows, first_row}
use lead_finder.Prelude.{
  ltb, ℕ, ◌≡◌, ◌≢◌, refl, true, false, Option, none, some, List, [], ◌∷◌, length, arith,
}
use mathlib.Core.List.{Perm}
use lead_finder.Prelude.Int.{ℤ, pos}
use lead_finder.Prelude.Text.{Text, text, split, text_eq}
use lead_finder.Prelude.Sorting.{IsSorted, sort_by}
use lead_finder.Prelude.Paging.{page_count, page_of}
use lead_finder.DateTime.{DateTime, delta_days, elapsed}
use lead_finder.Json.{Json, Fields, get}
use lead_finder.Models.{Program, PainCluster, GeneratedPost}
use lead_finder.Qualifier.Qualify.{Answer}
use lead_finder.ContentGenerator.{generate_post, body_in}
use lead_finder.PainMenu.{top, pains_data, scores_more, cluster_score, freshness_bonus, days_since}
use lead_finder.PainHandlers.{
  Content, Screen, clusters_page, draft, no_programs, draft_not_found, shown_page,
  get_program_ids_for_user, visible_clusters, ranked_clusters, find_post, my_drafts_handler,
  view_draft_handler, delete_draft_handler, delete_post, regen_post_handler, last_int, is_visible,
  is_visible_post, page_in, find_cluster,
}
use lead_finder.PainHandlers.Pages.{
  IsPage, shown_page-IsPage, open_clusters, open_clusters-pains_data,
}
use lead_finder.PainHandlers.Ranking.{points, ranked_clusters-IsSorted}
use lead_finder.PainHandlers.Owned.{owns, IsOwn, view_draft, respond-IsOwn}
use lead_finder.PainHandlers.Drafts.{
  IsGeneration, regenerate, write_draft-IsGeneration, delete_draft-exact,
}

abbrev day : ℕ → DateTime
day d = record { year = 2024; month = 3; day = d; micros = 0 }

abbrev program : Program
program = record {
  id = 4;
  user_id = 1;
  name = text "shops";
  niche_description = text "shops";
  min_score = pos 2;
  max_leads_per_run = pos 5;
  enrich = false;
  schedule_time = text "09:00";
  auto_collect_enabled = false;
  owner_chat_id = none;
  chats = [];
}

abbrev cluster : ℕ → ℕ → PainCluster
cluster id count = record {
  id = id;
  user_id = 1;
  program_id = 4;
  name = text "slow";
  category = text "sales";
  description = [];
  pain_count = count;
  avg_intensity = 200;
  first_seen = none;
  last_seen = some (day 19);
  trend = text "stable";
  post_generated = false;
}

abbrev post : GeneratedPost
post = record {
  id = 9;
  user_id = 1;
  cluster_id = 7;
  post_type = text "single";
  title = text "a";
  body = text "b";
  status = text "draft";
  generated_at = day 19;
}

abbrev content : Content
content = record {
  programs = program ∷ [];
  clusters = cluster 7 1 ∷ cluster 8 3 ∷ [];
  pains = [];
  posts = record { rows = post ∷ []; next_id = 10 };
}

abbrev numbers : List ℕ
numbers = 1 ∷ 2 ∷ 3 ∷ 4 ∷ 5 ∷ 6 ∷ []

shown_page-IsPage_example : IsPage 5 numbers (shown_page 5 (pos 40) numbers)
shown_page-IsPage_example = shown_page-IsPage 5 (pos 40) numbers (omega arith) (omega arith)

-- The cluster with more pains comes first.
ranking : ranked_clusters 1 content (day 20) ≡ cluster 8 3 ∷ cluster 7 1 ∷ []
unfolding ranked_clusters sort_by visible_clusters where_rows is_visible get_program_ids_for_user
    scores_more cluster_score freshness_bonus days_since delta_days elapsed
ranking = refl

ranked_clusters-IsSorted_example :
    IsSorted
      (λ c d. ltb (points (day 20) d) (points (day 20) c))
      (ranked_clusters 1 content (day 20))
    × Perm
        (ranked_clusters 1 content (day 20))
        (where_rows (λ c. owns 1 c.program_id content.programs) content.clusters)
ranked_clusters-IsSorted_example = ranked_clusters-IsSorted 1 content (day 20)

ids : get_program_ids_for_user 1 content.programs ≡ 4 ∷ []
unfolding get_program_ids_for_user sort_by where_rows
ids = refl

one_page : page_count 10 (length (ranked_clusters 1 content (day 20))) ≡ 1
unfolding ranked_clusters page_count sort_by visible_clusters where_rows is_visible
    get_program_ids_for_user scores_more cluster_score freshness_bonus days_since delta_days elapsed
one_page = refl

open_clusters-pains_data_example :
    open_clusters top 1 content (day 20) (pains_data top 0)
    ≡ some (
        clusters_page top (record {
          rows = page_of 10 0 (ranked_clusters 1 content (day 20));
          number = 0;
          total_pages = page_count 10 (length (ranked_clusters 1 content (day 20)));
        }))
open_clusters-pains_data_example =
    open_clusters-pains_data top 1 content (day 20) 0 4 [] ids (omega (arith, one_page))

respond-IsOwn_example : IsOwn 1 content (draft post (text "slow"))
unfolding view_draft_handler last_int parse_int last_piece split find_post first_row is_visible_post
    is_visible get_program_ids_for_user sort_by where_rows
respond-IsOwn_example =
    respond-IsOwn view_draft 1 content (day 20) (text "view_draft_9") (draft post (text "slow"))
      refl

-- A stranger does not see the draft, but may delete it.
stranger_view : view_draft_handler 2 content (text "view_draft_9") ≡ some draft_not_found
unfolding view_draft_handler last_int parse_int last_piece split find_post first_row is_visible_post
    is_visible get_program_ids_for_user sort_by where_rows
stranger_view = refl

-- The id of the post, 9, is read as the number of the page.
stranger_delete :
    delete_draft_handler 2 (text "delete_draft_9") content
    ≡ some (delete_post (pos 9) content, some no_programs)
unfolding delete_draft_handler last_int parse_int last_piece split my_drafts_handler page_in
    get_program_ids_for_user sort_by where_rows delete_post
stranger_delete = refl

delete_draft-exact_example :
    ((reader : ℕ) → find_post reader (delete_post (pos 9) content) (pos 9) ≡ none)
    × ((reader : ℕ) (other : ℤ)
        → pos 9 ≢ other
        → find_post reader (delete_post (pos 9) content) other ≡ find_post reader content other)
unfolding delete_draft_handler last_int parse_int last_piece split
delete_draft-exact_example =
    delete_draft-exact 2 (text "delete_draft_9") content (delete_post (pos 9) content)
      (some no_programs) (pos 9) refl stranger_delete

abbrev reads : Text → Option Json
reads s = some (
    Json.obj (
      Fields.field (text "title") (Json.str (text "t"))
        (Fields.field (text "body") (Json.str (text "b")) Fields.end)))

abbrev answers : PainCluster → List Text → Answer
answers c quotes = Answer.content (text "{}")

abbrev or_nothing : Option (Content × Screen) → Content × Screen
or_nothing none = (content, no_programs)
or_nothing (some r) = r

unfoldable regenerated : Content × Screen
unfolding regen_post_handler
regenerated =
    or_nothing (regen_post_handler reads true answers (day 20) 1 (text "regen_post_7") content)

two_drafts : length regenerated.0.posts.rows ≡ 2
unfolding regenerated last_int parse_int last_piece split find_cluster first_row is_visible
    get_program_ids_for_user sort_by where_rows generate_post get text_eq body_in
two_drafts = refl

write_draft-IsGeneration_example : IsGeneration reads true answers (day 20) 1 content regenerated
unfolding regenerated last_int parse_int last_piece split
write_draft-IsGeneration_example =
    write_draft-IsGeneration reads true answers (day 20) 1 regenerate (text "regen_post_7") content
      regenerated refl
