-- ===== src/PainMenu.antt =====
-- bot/ui/pains_menu.py: the score that ranks clusters, and the callback data of the buttons. The
-- texts of the messages and buttons are left out.
use lead_finder.Prelude.{
  ℕ, suc, ◌+◌, ◌-◌, ◌*◌, Bool, Option, none, some, List, [], ◌∷◌, ◌++◌, ltb, ◌==◌, if◌then◌else◌,
  length, map,
}
use lead_finder.Prelude.Int.{ℤ, pos, sub_ℕ, ltb_ℤ}
use lead_finder.Prelude.Text.{Text, text}
use lead_finder.Prelude.Numeral.{show}
use lead_finder.Prelude.Paging.{page_of}
use lead_finder.DateTime.{DateTime, elapsed, delta_days}
use lead_finder.Models.{PainCluster, GeneratedPost}

-- `_days_since`
unfoldable pub days_since : DateTime → Option DateTime → ℤ
days_since now none = pos 999
days_since now (some dt) = delta_days (elapsed now dt)

unfoldable pub freshness_bonus : ℤ → ℕ
freshness_bonus days = if ltb_ℤ days (pos 3) then 3 else if ltb_ℤ days (pos 7) then 1 else 0

-- In hundredths, as `avg_intensity` is; an average of 0 counts as 1.
unfoldable pub cluster_score : DateTime → PainCluster → ℤ
cluster_score now c =
    let intensity = if c.avg_intensity == 0 then 100 else c.avg_intensity in
    let bonus = 100 * freshness_bonus (days_since now c.last_seen) in
    sub_ℕ (c.pain_count * 200 + bonus + intensity * 2) (if c.post_generated then 1000 else 0)

-- `sorted(..., key=cluster_score, reverse=True)`: what scores more stands before.
unfoldable pub scores_more : DateTime → PainCluster → PainCluster → Bool
scores_more now c d = ltb_ℤ (cluster_score now d) (cluster_score now c)

-- The argument `mode` of the list of clusters.
pub data Mode : Type 0 where
  top generate : Mode

abbrev pub mode_name : Mode → Text
mode_name top = text "top"
mode_name generate = text "generate"

-- f"{mode}_pains_{page}"
unfoldable pub pains_data : Mode → ℕ → Text
pains_data mode page = mode_name mode ++ text "_pains_" ++ show page

-- The buttons to the pages beside `page`.
unfoldable pub nav_buttons : (ℕ → Text) → ℕ → Bool → List Text
nav_buttons data_of page has_next =
    (if ltb 0 page then data_of (page - 1) ∷ [] else [])
    ++ (if has_next then data_of (suc page) ∷ [] else [])

unfoldable pub get_top_pains_keyboard : List PainCluster → ℕ → ℕ → Mode → List Text
get_top_pains_keyboard clusters page total_pages mode =
    map (λ (c : PainCluster). text "cluster_detail_" ++ show c.id) clusters
    ++ nav_buttons (pains_data mode) page (ltb page (total_pages - 1))
    ++ text "pains_menu" ∷ []

unfoldable pub get_cluster_keyboard : ℕ → List Text
get_cluster_keyboard cluster_id =
    (text "generate_post_" ++ show cluster_id)
    ∷ (text "cluster_quotes_" ++ show cluster_id ++ text "_0")
    ∷ text "top_pains"
    ∷ text "main_menu"
    ∷ []

unfoldable pub get_draft_keyboard : ℕ → ℕ → List Text
get_draft_keyboard post_id cluster_id =
    (text "regen_post_" ++ show cluster_id)
    ∷ (text "delete_draft_" ++ show post_id)
    ∷ text "my_drafts"
    ∷ []

-- f"my_drafts_{page}"
unfoldable pub drafts_data : ℕ → Text
drafts_data page = text "my_drafts_" ++ show page

unfoldable pub get_drafts_list_keyboard : List GeneratedPost → ℕ → ℕ → List Text
get_drafts_list_keyboard posts page page_size =
    map (λ (p : GeneratedPost). text "view_draft_" ++ show p.id) (page_of page_size page posts)
    ++ nav_buttons drafts_data page (ltb (page * page_size + page_size) (length posts))
    ++ text "pains_menu" ∷ []

-- f"cluster_quotes_{cluster_id}_{page}"
unfoldable pub quotes_data : ℕ → ℕ → Text
quotes_data cluster_id page = text "cluster_quotes_" ++ show cluster_id ++ text "_" ++ show page

unfoldable pub get_quotes_keyboard : ℕ → ℕ → ℕ → List Text
get_quotes_keyboard cluster_id page total_pages =
    nav_buttons (quotes_data cluster_id) page (ltb page (total_pages - 1))
    ++ (text "cluster_detail_" ++ show cluster_id) ∷ []
