-- ===== src/PainHandlers/Owned.antt =====
-- A user sees only what belongs to the user's own programs, whatever data a button carries.
use lead_finder.Prelude.{
  ℕ, ◌≡◌, refl, sym, ap, subst, ◌∙◌, Bool, true, false, ◌&&◌, ◌||◌, Option, none, some, List, [],
  ◌∷◌, arith, ltb, ◌==◌, map, eq_of_some,
}
use lead_finder.Prelude.Int.{ℤ}
use lead_finder.Prelude.Text.{Text}
use lead_finder.Prelude.Sorting.{insert_by, sort_by}
use lead_finder.DateTime.{DateTime}
use lead_finder.Models.{Program, Pain, PainCluster, GeneratedPost}
use lead_finder.Models.Table.{All, where_rows, first_row-test}
use lead_finder.Models.Kept.{sort_by-All, take-All, page_of-All, where_rows-All, All-imply}
use lead_finder.ContentGenerator.{is_pain_of}
use lead_finder.PainMenu.{Mode, scores_more}
use lead_finder.PainHandlers.{
  Content, Screen, no_pains, no_clusters, clusters_page, cluster_detail, quotes_page, drafts_page,
  draft, shown_page, get_program_ids_for_user, is_in, is_visible, is_visible_post, visible_clusters,
  find_cluster, visible_posts, ranked_clusters, clusters_or, clusters_for, show_clusters,
  top_pains_handler, generate_post_menu_handler, detail_of, cluster_detail_handler, quotes_or,
  quotes_of, show_quotes, cluster_quotes_handler, drafts_or, sorted_posts, drafts_for, show_drafts,
  my_drafts_handler, draft_of, find_post, show_detail, show_draft, view_draft_handler,
}

-- A program with this id belongs to the user.
unfoldable pub owns : ℕ → ℕ → List Program → Bool
owns user_id program_id [] = false
owns user_id program_id (p ∷ ps) =
    p.user_id == user_id && program_id == p.id || owns user_id program_id ps

is_in-insert : (n x : ℕ) (xs : List ℕ) → is_in n (insert_by ltb x xs) ≡ (n == x || is_in n xs)
unfolding is_in insert_by
is_in-insert n x [] = refl
is_in-insert n x (y ∷ ys) = ground (arith, is_in-insert n x ys)

is_in-sort : (n : ℕ) (xs : List ℕ) → is_in n (sort_by ltb xs) ≡ is_in n xs
unfolding is_in sort_by
is_in-sort n [] = refl
is_in-sort n (x ∷ xs) =
    is_in-insert n x (sort_by ltb xs) ∙ ap (λ (b : Bool). n == x || b) (is_in-sort n xs)

is_in-map :
    (user_id n : ℕ) (ps : List Program)
    → is_in n (map (λ (p : Program). p.id) (where_rows (λ (p : Program). p.user_id == user_id) ps))
      ≡ owns user_id n ps
unfolding is_in where_rows owns
is_in-map user_id n [] = refl
is_in-map user_id n (p ∷ ps) = ground (arith, is_in-map user_id n ps)

-- The ids that guard the screens are those of the user's programs.
pub is_in-owns :
    (user_id n : ℕ) (ps : List Program)
    → is_in n (get_program_ids_for_user user_id ps) ≡ owns user_id n ps
unfolding get_program_ids_for_user
is_in-owns user_id n ps =
    is_in-sort n
      (map (λ (p : Program). p.id) (where_rows (λ (p : Program). p.user_id == user_id) ps))
    ∙ is_in-map user_id n ps

module _ (user_id : ℕ) (t : Content) where
  abbrev pub IsOwnCluster : PainCluster → Type 0
  IsOwnCluster c = owns user_id c.program_id t.programs ≡ true

  -- The post's cluster is one of the user's.
  abbrev pub own_post : GeneratedPost → List PainCluster → Bool
  own_post p [] = false
  own_post p (c ∷ cs) =
      p.cluster_id == c.id && owns user_id c.program_id t.programs || own_post p cs

  abbrev pub IsOwnPost : GeneratedPost → Type 0
  IsOwnPost p = own_post p t.clusters ≡ true

  -- Every cluster and post on the screen is the user's, and every quote is of the cluster that is
  -- shown with it.
  abbrev pub IsOwn : Screen → Type 0
  IsOwn (clusters_page mode p) = All IsOwnCluster p.rows
  IsOwn (cluster_detail c ps) = IsOwnCluster c × All (λ (p : Pain). is_pain_of c.id p ≡ true) ps
  IsOwn (quotes_page c p) = IsOwnCluster c × All (λ (q : Pain). is_pain_of c.id q ≡ true) p.rows
  IsOwn (drafts_page p) = All IsOwnPost p.rows
  IsOwn (draft p name) = IsOwnPost p
  IsOwn _ = Unit

  visible-IsOwnCluster :
      (c : PainCluster)
      → is_visible (get_program_ids_for_user user_id t.programs) c ≡ true
      → IsOwnCluster c
  unfolding is_visible
  visible-IsOwnCluster c h = sym (is_in-owns user_id c.program_id t.programs) ∙ h

  visible-own_post :
      (p : GeneratedPost) (cs : List PainCluster)
      → is_visible_post (get_program_ids_for_user user_id t.programs) cs p ≡ own_post p cs
  unfolding is_visible_post is_visible
  visible-own_post p [] = refl
  visible-own_post p (c ∷ cs) =
      rw (is_in-owns user_id c.program_id t.programs, visible-own_post p cs) refl

  visible_clusters-All : All IsOwnCluster (visible_clusters user_id t)
  unfolding visible_clusters
  visible_clusters-All =
      All-imply (where_rows (is_visible (get_program_ids_for_user user_id t.programs)) t.clusters)
        visible-IsOwnCluster
        (where_rows-All (is_visible (get_program_ids_for_user user_id t.programs)) t.clusters)

  ranked-All : (now : DateTime) → All IsOwnCluster (ranked_clusters user_id t now)
  unfolding ranked_clusters
  ranked-All now =
      sort_by-All IsOwnCluster (scores_more now) (visible_clusters user_id t) visible_clusters-All

  visible_posts-All : All IsOwnPost (visible_posts user_id t)
  unfolding visible_posts
  visible_posts-All =
      All-imply
        (where_rows (is_visible_post (get_program_ids_for_user user_id t.programs) t.clusters)
          t.posts.rows)
        (λ p h. sym (visible-own_post p t.clusters) ∙ h)
        (where_rows-All (is_visible_post (get_program_ids_for_user user_id t.programs) t.clusters)
          t.posts.rows)

  sorted_posts-All : All IsOwnPost (sorted_posts user_id t)
  unfolding sorted_posts
  sorted_posts-All = sort_by-All IsOwnPost _ (visible_posts user_id t) visible_posts-All

  shown_page-All :
      {A : Type 0} (P : A → Type 0) (size : ℕ) (page : ℤ) (xs : List A)
      → All P xs
      → All P (shown_page size page xs).rows
  unfolding shown_page
  shown_page-All P size page xs h = page_of-All P size _ xs h

  pub find_cluster-IsOwn :
      (cluster_id : ℤ) (c : PainCluster)
      → find_cluster user_id t cluster_id ≡ some c
      → IsOwnCluster c
  unfolding find_cluster
  find_cluster-IsOwn cluster_id c e =
      visible-IsOwnCluster c (ground (arith, first_row-test _ t.clusters c e))

  find_post-IsOwn :
      (post_id : ℤ) (p : GeneratedPost) → find_post user_id t post_id ≡ some p → IsOwnPost p
  unfolding find_post
  find_post-IsOwn post_id p e =
      sym (visible-own_post p t.clusters) ∙ ground (arith, first_row-test _ t.posts.rows p e)

  clusters_or-IsOwn :
      (mode : Mode) (empty : Screen) (page : ℤ) (cs : List PainCluster)
      → IsOwn empty
      → All IsOwnCluster cs
      → IsOwn (clusters_or user_id t mode empty page cs)
  clusters_or-IsOwn mode empty page [] h k = h
  clusters_or-IsOwn mode empty page (c ∷ cs) h k = shown_page-All IsOwnCluster _ page (c ∷ cs) k

  show_clusters-IsOwn :
      (mode : Mode) (empty : Screen) (now : DateTime) (page : Option ℤ) (s : Screen)
      → IsOwn empty
      → show_clusters user_id t mode empty now page ≡ some s
      → IsOwn s
  show_clusters-IsOwn mode empty now none s h e = absurd (ground arith)
  show_clusters-IsOwn mode empty now (some page) s h e =
      subst IsOwn (eq_of_some e) (by_ids (get_program_ids_for_user user_id t.programs))
    where
      by_ids : (ids : List ℕ) → IsOwn (clusters_for user_id t mode empty page now ids)
      by_ids [] = tt
      by_ids (i ∷ ids) =
          clusters_or-IsOwn mode empty page (ranked_clusters user_id t now) h (ranked-All now)

  detail_of-IsOwn :
      (o : Option PainCluster)
      → ((c : PainCluster) → o ≡ some c → IsOwnCluster c)
      → IsOwn (detail_of user_id t o)
  detail_of-IsOwn none h = tt
  detail_of-IsOwn (some c) h = (
    h c refl,
    take-All _ 3 (where_rows (is_pain_of c.id) t.pains) (where_rows-All (is_pain_of c.id) t.pains),
  )

  quotes_or-IsOwn :
      (c : PainCluster) (page : ℤ) (ps : List Pain)
      → IsOwnCluster c
      → All (λ (p : Pain). is_pain_of c.id p ≡ true) ps
      → IsOwn (quotes_or user_id t c page ps)
  quotes_or-IsOwn c page [] h k = tt
  quotes_or-IsOwn c page (p ∷ ps) h k = (h, shown_page-All _ _ page (p ∷ ps) k)

  quotes_of-IsOwn :
      (page : ℤ) (o : Option PainCluster)
      → ((c : PainCluster) → o ≡ some c → IsOwnCluster c)
      → IsOwn (quotes_of user_id t page o)
  quotes_of-IsOwn page none h = tt
  quotes_of-IsOwn page (some c) h =
      quotes_or-IsOwn c page (where_rows (is_pain_of c.id) t.pains) (h c refl)
        (where_rows-All (is_pain_of c.id) t.pains)

  show_quotes-IsOwn :
      (cluster_id page : Option ℤ) (s : Screen)
      → show_quotes user_id t cluster_id page ≡ some s
      → IsOwn s
  show_quotes-IsOwn (some cluster_id) (some page) s e =
      subst IsOwn (eq_of_some e)
        (quotes_of-IsOwn page (find_cluster user_id t cluster_id) (find_cluster-IsOwn cluster_id))
  show_quotes-IsOwn (some cluster_id) none s e = absurd (ground arith)
  show_quotes-IsOwn none page s e = absurd (ground arith)

  drafts_or-IsOwn :
      (page : ℤ) (ps : List GeneratedPost) → All IsOwnPost ps → IsOwn (drafts_or user_id t page ps)
  drafts_or-IsOwn page [] k = tt
  drafts_or-IsOwn page (p ∷ ps) k = shown_page-All IsOwnPost _ page (p ∷ ps) k

  show_drafts-IsOwn : (page : Option ℤ) (s : Screen) → show_drafts user_id t page ≡ some s → IsOwn s
  show_drafts-IsOwn none s e = absurd (ground arith)
  show_drafts-IsOwn (some page) s e =
      subst IsOwn (eq_of_some e) (by_ids (get_program_ids_for_user user_id t.programs))
    where
      by_ids : (ids : List ℕ) → IsOwn (drafts_for user_id t page ids)
      by_ids [] = tt
      by_ids (i ∷ ids) = drafts_or-IsOwn page (sorted_posts user_id t) sorted_posts-All

  draft_of-IsOwn :
      (o : Option GeneratedPost)
      → ((p : GeneratedPost) → o ≡ some p → IsOwnPost p)
      → IsOwn (draft_of user_id t o)
  draft_of-IsOwn none h = tt
  draft_of-IsOwn (some p) h = h p refl

  show_detail-IsOwn :
      (cluster_id : Option ℤ) (s : Screen) → show_detail user_id t cluster_id ≡ some s → IsOwn s
  show_detail-IsOwn none s e = absurd (ground arith)
  show_detail-IsOwn (some i) s e =
      subst IsOwn (eq_of_some e) (detail_of-IsOwn (find_cluster user_id t i) (find_cluster-IsOwn i))

  show_draft-IsOwn :
      (post_id : Option ℤ) (s : Screen) → show_draft user_id t post_id ≡ some s → IsOwn s
  show_draft-IsOwn none s e = absurd (ground arith)
  show_draft-IsOwn (some i) s e =
      subst IsOwn (eq_of_some e) (draft_of-IsOwn (find_post user_id t i) (find_post-IsOwn i))

-- The buttons that show clusters, quotes or drafts.
pub data Request : Type 0 where
  top_pains generate_post_menu one_cluster cluster_quotes my_drafts view_draft : Request

abbrev pub respond : Request → ℕ → Content → DateTime → Text → Option Screen
respond top_pains user_id t now callback_data = top_pains_handler user_id t now callback_data
respond generate_post_menu user_id t now callback_data =
    generate_post_menu_handler user_id t now callback_data
respond one_cluster user_id t now callback_data = cluster_detail_handler user_id t callback_data
respond cluster_quotes user_id t now callback_data = cluster_quotes_handler user_id t callback_data
respond my_drafts user_id t now callback_data = my_drafts_handler user_id t callback_data
respond view_draft user_id t now callback_data = view_draft_handler user_id t callback_data

-- Whatever the data of the button, every cluster and post that a handler shows belongs to a program
-- of the user, and every quote to the cluster that it is shown with.
pub respond-IsOwn :
    (request : Request) (user_id : ℕ) (t : Content) (now : DateTime) (callback_data : Text)
    (s : Screen)
    → respond request user_id t now callback_data ≡ some s
    → IsOwn user_id t s
unfolding top_pains_handler generate_post_menu_handler cluster_detail_handler cluster_quotes_handler
    my_drafts_handler view_draft_handler
respond-IsOwn top_pains user_id t now d s e = show_clusters-IsOwn user_id t _ no_pains now _ s tt e
respond-IsOwn generate_post_menu user_id t now d s e =
    show_clusters-IsOwn user_id t _ no_clusters now _ s tt e
respond-IsOwn one_cluster user_id t now d s e = show_detail-IsOwn user_id t _ s e
respond-IsOwn cluster_quotes user_id t now d s e = show_quotes-IsOwn user_id t _ _ s e
respond-IsOwn my_drafts user_id t now d s e = show_drafts-IsOwn user_id t _ s e
respond-IsOwn view_draft user_id t now d s e = show_draft-IsOwn user_id t _ s e
