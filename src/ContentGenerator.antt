-- ===== src/ContentGenerator.antt =====
-- modules/content_generator.py, `generate_post`: a draft post of a cluster from the model's answer.
-- `json.loads` is `loads`; `ask` is the model's answer to the prompt for a cluster and its quotes,
-- whose text, with anonymize_quotes, is left out. `none` is a raised exception.
use lead_finder.Prelude.{
  ℕ, suc, Bool, true, false, ◌&&◌, ◌||◌, Option, none, some, List, [], ◌∷◌, ◌++◌, ltb, ◌==◌,
  if◌then◌else◌, take, map,
}
use lead_finder.Prelude.Int.{pos}
use lead_finder.Prelude.Text.{Text, text, truthy, rstrip}
use lead_finder.Prelude.Sorting.{sort_by}
use lead_finder.DateTime.{DateTime}
use lead_finder.Json.{Json, Items, items, keys, get_or, truth}
use lead_finder.Models.{Pain, PainCluster, GeneratedPost}
use lead_finder.Models.Table.{where_rows, first_row, update_rows}
use lead_finder.Qualifier.Payload.{join}
use lead_finder.Qualifier.Qualify.{Answer}
use lead_finder.PainCollector.{llm_json_text}

-- `Pain.cluster_id == cluster_id`
abbrev pub is_pain_of : ℕ → Pain → Bool
is_pain_of cluster_id p = elim p.cluster_id [ some (pos n) ↦ n == cluster_id | _ ↦ false ]

-- The order of two texts in the database.
unfoldable pub text_before : Text → Text → Bool
text_before s [] = false
text_before [] (y ∷ t) = true
text_before (x ∷ s) (y ∷ t) = ltb x y || x == y && text_before s t

-- `order_by(Pain.intensity.desc())`
abbrev pub intensity_before : Pain → Pain → Bool
intensity_before p q = text_before q.intensity p.intensity

abbrev pub quotes_in : List Pain → List Text
quotes_in [] = []
quotes_in (p ∷ ps) =
    let rest = quotes_in ps in if truthy p.original_quote then p.original_quote ∷ rest else rest

-- `raw_quotes`
unfoldable pub raw_quotes : ℕ → List Pain → List Text
raw_quotes cluster_id pains =
    quotes_in (take 7 (sort_by intensity_before (where_rows (is_pain_of cluster_id) pains)))

-- `result.get("title", "Без заголовка")[:500]`; what is no text cannot be stored.
abbrev pub title_in : Json → Option Text
title_in (Json.str s) = some (take 500 s)
title_in v = none

-- The texts of a list, if they all are.
unfoldable pub texts_in : List Json → Option (List Text)
texts_in [] = some []
texts_in (Json.str s ∷ vs) = elim (texts_in vs) [ none ↦ none | some rest ↦ some (s ∷ rest) ]
texts_in (v ∷ vs) = none

-- `" ".join(hashtags)`: over a text the pieces are its characters, over a dict its keys.
abbrev pub joined : Json → Option Text
joined (Json.arr xs) = elim (texts_in (items xs)) [
  | none ↦ none
  | some ts ↦ some (join (text " ") ts)
]
joined (Json.str s) = some (join (text " ") (map (λ (c : ℕ). c ∷ []) s))
joined (Json.obj fs) = some (join (text " ") (keys fs))
joined v = none

abbrev pub with_hashtags : Json → Option Text → Option Text
with_hashtags (Json.str body) (some tags) = some (rstrip body ++ text "\n\n" ++ tags)
with_hashtags body tags = none

abbrev pub plain_body : Json → Option Text
plain_body (Json.str body) = some body
plain_body v = none

unfoldable pub body_in : Json → Json → Option Text
body_in body hashtags =
    if truth hashtags then with_hashtags body (joined hashtags) else plain_body body

-- The table of posts, with the next free id.
pub record Posts : Type 0 where
  pub rows : List GeneratedPost
  pub next_id : ℕ

unfoldable pub new_post : ℕ → DateTime → PainCluster → Text → Text → GeneratedPost
new_post id now cluster title body = record {
  id = id;
  user_id = cluster.user_id;
  cluster_id = cluster.id;
  post_type = text "single";
  title = title;
  body = body;
  status = text "draft";
  generated_at = now;
}

-- `cluster.post_generated = True`
abbrev pub mark_posted : PainCluster → PainCluster
mark_posted c = record c { post_generated = true }

abbrev pub has_cluster_id : ℕ → PainCluster → Bool
has_cluster_id cluster_id c = c.id == cluster_id

-- The clusters and the posts after the commit, and the post.
pub record Generated : Type 0 where
  pub clusters : List PainCluster
  pub posts : Posts
  pub post : GeneratedPost

abbrev pub store_post :
    DateTime → List PainCluster → Posts → PainCluster → Option Text → Option Text → Option Generated
store_post now clusters posts cluster (some title) (some body) =
    let post = new_post posts.next_id now cluster title body in
    some (record {
      clusters = update_rows (has_cluster_id cluster.id) mark_posted clusters;
      posts = record { rows = posts.rows ++ post ∷ []; next_id = suc posts.next_id };
      post = post;
    })
store_post now clusters posts cluster title body = none

-- A result that is no dict has no `get`.
abbrev pub read_post :
    DateTime → List PainCluster → Posts → PainCluster → Option Json → Option Generated
read_post now clusters posts cluster (some (Json.obj fs)) =
    store_post now clusters posts cluster
      (title_in (get_or (text "title") (Json.str (text "Без заголовка")) fs))
      (body_in (get_or (text "body") (Json.str []) fs)
        (get_or (text "hashtags") (Json.arr Items.nil) fs))
read_post now clusters posts cluster result = none

module _ (loads : Text → Option Json) (has_llm : Bool) (ask : PainCluster → List Text → Answer)
    (now : DateTime) where
  abbrev pub read_answer : List PainCluster → Posts → PainCluster → Answer → Option Generated
  read_answer clusters posts cluster (Answer.raised message) = none
  read_answer clusters posts cluster (Answer.content raw) =
      read_post now clusters posts cluster (loads (llm_json_text raw))

  unfoldable pub generate_post : ℕ → List PainCluster → List Pain → Posts → Option Generated
  generate_post cluster_id clusters pains posts =
      if has_llm
      then elim (first_row (has_cluster_id cluster_id) clusters) [
        | none ↦ none
        | some cluster ↦
            read_answer clusters posts cluster (ask cluster (raw_quotes cluster_id pains))
      ]
      else none
