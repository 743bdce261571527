-- ===== src/PainHandlers/Pages.antt =====
-- The pages of a list: what a screen shows of it, and that the buttons open the pages they name.
use lead_finder.Prelude.{
  ℕ, ◌-◌, ◌≤◌, ◌<◌, ◌≡◌, refl, ap, true, Option, some, List, [], ◌∷◌, ◌++◌, min, arith, length,
}
use lead_finder.Prelude.Int.{ℤ, pos, negsuc}
use lead_finder.Prelude.Text.{Text, text, split, split-append, split-lacks, lacks, starts_with}
use lead_finder.Prelude.Numeral.{show}
use lead_finder.Prelude.Decimal.{parse_int-show, show-digits, lacks-digits}
use lead_finder.Prelude.Paging.{
  page_count, clamp_page, page_of, pages_from, pages_from-all, length-page_of, page_count-covers,
  page_count-positive, page_count-last,
}
use lead_finder.DateTime.{DateTime}
use lead_finder.Models.{PainCluster}
use lead_finder.PainMenu.{Mode, top, generate, pains_data}
use lead_finder.PainHandlers.{
  Content, Page, Screen, clusters_page, no_pains, no_clusters, shown_page, get_program_ids_for_user,
  page_in, ranked_clusters, clusters_page_size, top_pains_handler, generate_post_menu_handler,
  show_clusters, clusters_or,
}

-- One of the pages that make up the list, in the range of the pages, neither empty nor too long.
pub record IsPage {A : Type 0} (size : ℕ) (rows : List A) (p : Page A) : Type 0 where
  pub in_range : p.number < p.total_pages
  pub is_slice : p.rows ≡ page_of size p.number rows
  pub nonempty : 0 < length p.rows
  pub capped : length p.rows ≤ size
  pub whole : pages_from size p.total_pages 0 rows ≡ rows

clamp_page-in_range : (page : ℤ) (n : ℕ) → 0 < n → clamp_page page n < n
unfolding clamp_page
clamp_page-in_range (pos page) n h = omega arith
clamp_page-in_range (negsuc m) n h = h

-- Whatever number a button asks for, of a list that is not empty a page of it is shown: the page
-- number is in the range of the pages, the page has at least one row and at most `size`, and the
-- pages of that range, one after the other, are the list.
pub shown_page-IsPage :
    {A : Type 0} (size : ℕ) (page : ℤ) (rows : List A)
    → 0 < size
    → 0 < length rows
    → IsPage size rows (shown_page size page rows)
unfolding shown_page
shown_page-IsPage size page rows positive some_rows =
    let covers = page_count-covers size (length rows) positive in
    let range : clamp_page page (page_count size (length rows)) < page_count size (length rows) =
      clamp_page-in_range page (page_count size (length rows))
        (page_count-positive size (length rows) positive some_rows) in
    let start =
      page_count-last size (length rows) (clamp_page page (page_count size (length rows))) positive
        range in
    let measured = length-page_of size (clamp_page page (page_count size (length rows))) rows in
    record {
      in_range = range;
      is_slice = refl;
      nonempty = omega (arith, start, measured);
      capped = omega (arith, measured);
      whole = pages_from-all size (page_count size (length rows)) rows covers;
    }

page_in-show :
    (word : Text) (word' : Text) (n : ℕ)
    → lacks b'_' word ≡ true
    → lacks b'_' word' ≡ true
    → page_in 2 (split b'_' (word ++ b'_' ∷ (word' ++ b'_' ∷ show n))) ≡ some (pos n)
unfolding page_in
page_in-show word word' n h k = rw (split-append b'_' word (word' ++ b'_' ∷ show n) h) (
    rw (split-append b'_' word' (show n) k) (
      rw (split-lacks b'_' (show n) (lacks-digits b'_' (show n) refl (show-digits n)))
        (parse_int-show n)))

page_in-pains : (mode : Mode) (n : ℕ) → page_in 2 (split b'_' (pains_data mode n)) ≡ some (pos n)
unfolding pains_data lacks
page_in-pains top n = page_in-show (text "top") (text "pains") n refl refl
page_in-pains generate n = page_in-show (text "generate") (text "pains") n refl refl

-- The handler that a button of the list of clusters leads to.
abbrev pub open_clusters : Mode → ℕ → Content → DateTime → Text → Option Screen
open_clusters top user_id t now callback_data = top_pains_handler user_id t now callback_data
open_clusters generate user_id t now callback_data =
    generate_post_menu_handler user_id t now callback_data

generate-prefix : (n : ℕ) → starts_with (text "generate_pains_") (pains_data generate n) ≡ true
unfolding starts_with pains_data
generate-prefix n = refl

shown_page-exact :
    {A : Type 0} (size n : ℕ) (rows : List A)
    → n < page_count size (length rows)
    → shown_page size (pos n) rows ≡ record {
      rows = page_of size n rows;
      number = n;
      total_pages = page_count size (length rows);
    }
unfolding shown_page clamp_page
shown_page-exact size n rows h =
    let same : min n (page_count size (length rows) - 1) ≡ n = omega arith in rw same refl

clusters_or-exact :
    (mode : Mode) (empty : Screen) (n : ℕ) (cs : List PainCluster) (user_id : ℕ) (t : Content)
    → n < page_count clusters_page_size (length cs)
    → clusters_or user_id t mode empty (pos n) cs
      ≡ clusters_page mode (record {
        rows = page_of clusters_page_size n cs;
        number = n;
        total_pages = page_count clusters_page_size (length cs);
      })
clusters_or-exact mode empty n [] user_id t h = absurd (unfold page_count in omega (arith, h))
clusters_or-exact mode empty n (c ∷ cs) user_id t h =
    ap (clusters_page mode) (shown_page-exact clusters_page_size n (c ∷ cs) h)

show_clusters-exact :
    (mode : Mode) (empty : Screen) (user_id : ℕ) (t : Content) (now : DateTime) (n : ℕ) (i : ℕ)
    (ids : List ℕ)
    → get_program_ids_for_user user_id t.programs ≡ i ∷ ids
    → n < page_count clusters_page_size (length (ranked_clusters user_id t now))
    → show_clusters user_id t mode empty now (some (pos n))
      ≡ some (
          clusters_page mode (record {
            rows = page_of clusters_page_size n (ranked_clusters user_id t now);
            number = n;
            total_pages = page_count clusters_page_size (length (ranked_clusters user_id t now));
          }))
show_clusters-exact mode empty user_id t now n i ids e h =
    rw e (ap some (clusters_or-exact mode empty n (ranked_clusters user_id t now) user_id t h))

-- The button of a page that exists opens it: where the user has a program and a cluster, the data
-- made for the mode and this page leads the mode's handler to this page of the ranking.
pub open_clusters-pains_data :
    (mode : Mode) (user_id : ℕ) (t : Content) (now : DateTime) (n : ℕ) (i : ℕ) (ids : List ℕ)
    → get_program_ids_for_user user_id t.programs ≡ i ∷ ids
    → n < page_count clusters_page_size (length (ranked_clusters user_id t now))
    → open_clusters mode user_id t now (pains_data mode n)
      ≡ some (
          clusters_page mode (record {
            rows = page_of clusters_page_size n (ranked_clusters user_id t now);
            number = n;
            total_pages = page_count clusters_page_size (length (ranked_clusters user_id t now));
          }))
open_clusters-pains_data top user_id t now n i ids e h =
    unfold top_pains_handler in
    rw (page_in-pains top n) (show_clusters-exact top no_pains user_id t now n i ids e h)
open_clusters-pains_data generate user_id t now n i ids e h =
    unfold generate_post_menu_handler in
    rw (generate-prefix n) (
      rw (page_in-pains generate n)
        (show_clusters-exact generate no_clusters user_id t now n i ids e h))
