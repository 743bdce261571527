-- ===== src/PainHandlers/Drafts.antt =====
-- What the buttons that write, regenerate and delete drafts do to the tables.
use lead_finder.Prelude.{
  ℕ, ◌≡◌, ◌≢◌, refl, sym, ap, subst, ◌∙◌, Bool, true, false, ◌&&◌, ◌⊎◌, inl, inr, Option, none,
  some, List, [], ◌∷◌, ◌++◌, arith, ◌==◌, Bool-cases, Option-cases, ==_iff, eq_of_some,
}
use lead_finder.Prelude.Int.{ℤ, pos, negsuc}
use lead_finder.Prelude.Text.{Text, text}
use lead_finder.DateTime.{DateTime}
use lead_finder.Json.{Json}
use lead_finder.Models.{Pain, PainCluster, GeneratedPost}
use lead_finder.Models.Table.{first_row, update_rows, delete_rows, first_row-test}
use lead_finder.Qualifier.Qualify.{Answer}
use lead_finder.ContentGenerator.{
  Posts, Generated, generate_post, store_post, read_post, read_answer, mark_posted, has_cluster_id,
  new_post, raw_quotes,
}
use lead_finder.PainHandlers.{
  Content, Screen, draft, find_cluster, find_post, with_post_id, last_int, delete_post, delete_at,
  delete_draft_handler, conclude, generate_for, generate_at, generate_post_choose_type,
  generate_post_execute, regen_post_handler,
}
use lead_finder.PainHandlers.Owned.{IsOwnCluster, find_cluster-IsOwn}

-- What a post that was generated for the cluster with this id changes.
pub record IsGenerated (cluster_id : ℕ) (clusters : List PainCluster) (posts : Posts)
    (g : Generated) : Type 0 where
  pub appended : g.posts.rows ≡ posts.rows ++ g.post ∷ []
  pub numbered : g.post.id ≡ posts.next_id
  pub of_cluster : g.post.cluster_id ≡ cluster_id
  pub is_draft : g.post.status ≡ text "draft"
  pub marked : g.clusters ≡ update_rows (has_cluster_id cluster_id) mark_posted clusters

store_post-IsGenerated :
    (now : DateTime) (clusters : List PainCluster) (posts : Posts) (cluster : PainCluster)
    (title body : Option Text) (g : Generated)
    → store_post now clusters posts cluster title body ≡ some g
    → IsGenerated cluster.id clusters posts g
unfolding new_post
store_post-IsGenerated now clusters posts cluster (some title) (some body) g e =
    subst (IsGenerated cluster.id clusters posts) (eq_of_some e) (record {
      appended = refl;
      numbered = refl;
      of_cluster = refl;
      is_draft = refl;
      marked = refl;
    })
store_post-IsGenerated now clusters posts cluster (some title) none g e = absurd (ground arith)
store_post-IsGenerated now clusters posts cluster none body g e = absurd (ground arith)

read_post-IsGenerated :
    (now : DateTime) (clusters : List PainCluster) (posts : Posts) (cluster : PainCluster)
    (result : Option Json) (g : Generated)
    → read_post now clusters posts cluster result ≡ some g
    → IsGenerated cluster.id clusters posts g
read_post-IsGenerated now clusters posts cluster (some (Json.obj fs)) g e =
    store_post-IsGenerated now clusters posts cluster _ _ g e
read_post-IsGenerated now clusters posts cluster (some Json.null) g e = absurd (ground arith)
read_post-IsGenerated now clusters posts cluster (some (Json.bool b)) g e = absurd (ground arith)
read_post-IsGenerated now clusters posts cluster (some (Json.int n)) g e = absurd (ground arith)
read_post-IsGenerated now clusters posts cluster (some (Json.float n k)) g e = absurd (ground arith)
read_post-IsGenerated now clusters posts cluster (some (Json.str s)) g e = absurd (ground arith)
read_post-IsGenerated now clusters posts cluster (some (Json.arr xs)) g e = absurd (ground arith)
read_post-IsGenerated now clusters posts cluster none g e = absurd (ground arith)

module _ (loads : Text → Option Json) (has_llm : Bool) (ask : PainCluster → List Text → Answer)
    (now : DateTime) where
  read_answer-IsGenerated :
      (clusters : List PainCluster) (posts : Posts) (cluster : PainCluster) (a : Answer)
      (g : Generated)
      → read_answer loads has_llm ask now clusters posts cluster a ≡ some g
      → IsGenerated cluster.id clusters posts g
  read_answer-IsGenerated clusters posts cluster (Answer.raised m) g e = absurd (ground arith)
  read_answer-IsGenerated clusters posts cluster (Answer.content raw) g e =
      read_post-IsGenerated now clusters posts cluster _ g e

  generate_post-IsGenerated :
      (cluster_id : ℕ) (clusters : List PainCluster) (pains : List Pain) (posts : Posts)
      (g : Generated)
      → generate_post loads has_llm ask now cluster_id clusters pains posts ≡ some g
      → IsGenerated cluster_id clusters posts g
  unfolding generate_post
  generate_post-IsGenerated cluster_id clusters pains posts g e = elim (Bool-cases has_llm) [
    | inr off ↦ absurd (ground arith)
    | inl on ↦ elim (Option-cases (first_row (has_cluster_id cluster_id) clusters)) [
      | inl n ↦ absurd (ground arith)
      | inr (cluster, f) ↦
          let same : cluster.id ≡ cluster_id =
            (==_iff cluster.id cluster_id).0 (first_row-test _ clusters cluster f) in
          subst (λ (k : ℕ). IsGenerated k clusters posts g) same
            (read_answer-IsGenerated clusters posts cluster
              (ask cluster (raw_quotes cluster_id pains)) g (ground arith))
    ]
  ]

  module _ (user_id : ℕ) where
    -- Nothing changed, or a draft of one of the user's clusters was added and is shown.
    abbrev pub IsGeneration : Content → Content × Screen → Type 0
    IsGeneration t (t', s) =
        (t' ≡ t)
        ⊎ ((c : PainCluster) × (g : Generated) × IsOwnCluster user_id t c
            × IsGenerated c.id t.clusters t.posts g
            × (t' ≡ record t { clusters = g.clusters; posts = g.posts })
            × (s ≡ draft g.post c.name))

    conclude-IsGeneration :
        (t : Content) (c : PainCluster) (o : Option Generated)
        → IsOwnCluster user_id t c
        → ((g : Generated) → o ≡ some g → IsGenerated c.id t.clusters t.posts g)
        → IsGeneration t (conclude loads has_llm ask now user_id c t o)
    conclude-IsGeneration t c none own h = inl refl
    conclude-IsGeneration t c (some g) own h = inr (c, g, own, h g refl, refl, refl)

    generate_for-IsGeneration :
        (t : Content) (o : Option PainCluster)
        → ((c : PainCluster) → o ≡ some c → IsOwnCluster user_id t c)
        → IsGeneration t (generate_for loads has_llm ask now user_id t o)
    generate_for-IsGeneration t none h = inl refl
    generate_for-IsGeneration t (some c) h =
        conclude-IsGeneration t c _ (h c refl)
          (generate_post-IsGenerated c.id t.clusters t.pains t.posts)

    generate_at-IsGeneration :
        (t : Content) (cluster_id : Option ℤ) (r : Content × Screen)
        → generate_at loads has_llm ask now user_id t cluster_id ≡ some r
        → IsGeneration t r
    generate_at-IsGeneration t none r e = absurd (ground arith)
    generate_at-IsGeneration t (some i) r e =
        subst (IsGeneration t) (eq_of_some e)
          (generate_for-IsGeneration t (find_cluster user_id t i) (find_cluster-IsOwn user_id t i))

-- The three buttons that write a draft.
pub data Writing : Type 0 where
  choose_type execute regenerate : Writing

abbrev pub write_draft :
    (Text → Option Json)
    → Bool
    → (PainCluster → List Text → Answer)
    → DateTime
    → ℕ
    → Writing
    → Text
    → Content
    → Option (Content × Screen)
write_draft loads has_llm ask now user_id choose_type =
    generate_post_choose_type loads has_llm ask now user_id
write_draft loads has_llm ask now user_id execute =
    generate_post_execute loads has_llm ask now user_id
write_draft loads has_llm ask now user_id regenerate =
    regen_post_handler loads has_llm ask now user_id

-- A button that writes a draft leaves the tables as they were, or adds exactly one draft, of a
-- cluster of the user's programs, under the next free id, marks the clusters with that id as
-- posted, and shows the draft; whatever the model answers.
pub write_draft-IsGeneration :
    (loads : Text → Option Json) (has_llm : Bool) (ask : PainCluster → List Text → Answer)
    (now : DateTime) (user_id : ℕ) (writing : Writing) (callback_data : Text) (t : Content)
    (r : Content × Screen)
    → write_draft loads has_llm ask now user_id writing callback_data t ≡ some r
    → IsGeneration loads has_llm ask now user_id t r
unfolding generate_post_choose_type generate_post_execute regen_post_handler
write_draft-IsGeneration loads llm ask now u choose_type d t r e =
    generate_at-IsGeneration loads llm ask now u t _ r e
write_draft-IsGeneration loads llm ask now u execute d t r e =
    generate_at-IsGeneration loads llm ask now u t _ r e
write_draft-IsGeneration loads llm ask now u regenerate d t r e =
    generate_at-IsGeneration loads llm ask now u t _ r e

module _ {A : Type 0} where
  first_row-deleted :
      (p q : A → Bool) (rows : List A) → first_row (λ r. p r && q r) (delete_rows p rows) ≡ none
  unfolding first_row delete_rows
  first_row-deleted p q [] = refl
  first_row-deleted p q (r ∷ rows) = elim (Bool-cases (p r)) [
    | inl h ↦ rw h (first_row-deleted p q rows)
    | inr h ↦ rw (h, h) (first_row-deleted p q rows)
  ]

  first_row-kept :
      (p q : A → Bool) (rows : List A)
      → ((r : A) → p r ≡ true → q r ≡ false)
      → first_row q (delete_rows p rows) ≡ first_row q rows
  unfolding first_row delete_rows
  first_row-kept p q [] apart = refl
  first_row-kept p q (r ∷ rows) apart = elim (Bool-cases (p r)) [
    | inl h ↦ rw (h, apart r h) (first_row-kept p q rows apart)
    | inr h ↦ rw (h, first_row-kept p q rows apart) refl
  ]

with_post_id-apart :
    (i j : ℤ) (p : GeneratedPost) → i ≢ j → with_post_id i p ≡ true → with_post_id j p ≡ false
with_post_id-apart (pos m) (pos n) p apart h = elim (Bool-cases (p.id == n)) [
  | inl same ↦ absurd (apart (ap pos (omega (arith, (==_iff p.id m).0 h, (==_iff p.id n).0 same))))
  | inr other ↦ other
]
with_post_id-apart (pos m) (negsuc n) p apart h = refl
with_post_id-apart (negsuc m) j p apart h = absurd (ground arith)

find_post-deleted : (reader : ℕ) (t : Content) (i : ℤ) → find_post reader (delete_post i t) i ≡ none
unfolding find_post delete_post
find_post-deleted reader t i = first_row-deleted (with_post_id i) _ t.posts.rows

find_post-kept :
    (reader : ℕ) (t : Content) (i j : ℤ)
    → i ≢ j
    → find_post reader (delete_post i t) j ≡ find_post reader t j
unfolding find_post delete_post
find_post-kept reader t i j apart =
    first_row-kept (with_post_id i) _ t.posts.rows
      (λ p h. rw (with_post_id-apart i j p apart h) refl)

delete_at-same :
    (user_id : ℕ) (callback_data : Text) (t later : Content) (s : Option Screen) (o : Option ℤ)
    (i : ℤ)
    → o ≡ some i
    → delete_at user_id callback_data t o ≡ some (later, s)
    → delete_post i t ≡ later
delete_at-same user_id d t later s none i n e = absurd (ground arith)
delete_at-same user_id d t later s (some j) i n e =
    ap (λ (k : ℤ). delete_post k t) (sym (eq_of_some n))
    ∙ ap (λ (r : Content × Option Screen). r.0) (eq_of_some e)

-- After a deletion no user finds the post that the data names, whoever it belonged to, and every
-- other post is found as before.
pub delete_draft-exact :
    (user_id : ℕ) (callback_data : Text) (t later : Content) (s : Option Screen) (post_id : ℤ)
    → last_int callback_data ≡ some post_id
    → delete_draft_handler user_id callback_data t ≡ some (later, s)
    → ((reader : ℕ) → find_post reader later post_id ≡ none)
      × ((reader : ℕ) (other : ℤ)
          → post_id ≢ other
          → find_post reader later other ≡ find_post reader t other)
unfolding delete_draft_handler
delete_draft-exact user_id callback_data t later s post_id named e =
    subst
      (λ (x : Content).
        ((reader : ℕ) → find_post reader x post_id ≡ none)
        × ((reader : ℕ) (other : ℤ)
            → post_id ≢ other
            → find_post reader x other ≡ find_post reader t other))
      (delete_at-same user_id callback_data t later s (last_int callback_data) post_id named e)
      (
        λ reader. find_post-deleted reader t post_id,
        λ reader other apart. find_post-kept reader t post_id other apart,
      )
