-- ===== src/MembersParser/Candidates/Lookups.antt =====
-- The lookups of `unique_users[user_id]`, and the attempts to find the chat.
use lead_finder.Prelude.{
  ℕ, zero, suc, ◌+◌, ◌<◌, ◌≡◌, ◌≢◌, refl, sym, ◌∙◌, subst, Bool, true, false, inl, inr, Option,
  none, some, List, [], ◌∷◌, ◌==◌, arith, Bool-cases, Option-cases,
}
use lead_finder.Prelude.Text.{Text, text}
use lead_finder.Json.{Json, Fields, get, get_or, Items}
use lead_finder.Models.Table.{All}
use lead_finder.Models.Kept.{All-imply}
use lead_finder.MembersParser.{
  Reply, got, flood, raised, Part, ok, max_floodwait_retries, handle_flood_wait,
}
use lead_finder.MembersParser.Scan.{Chat, TgUser, UserData, Users}
use lead_finder.MembersParser.Scan.Users.{has_user}
use lead_finder.MembersParser.Screen.{
  BatchMessage, Selection, select_users, select_named, read_screening, selected_ids, user_ids,
  everyone, is_named, stats_read, leads_of, batch_messages,
}
use lead_finder.MembersParser.Candidates.{
  ParsedCandidate, Profiles, find_user, fetch_profiles, add_fetched, add_retried, profile_of,
  add_candidate, build_candidates, try_entity, find_entity,
}

-- Every id of the list is a key of the dict.
abbrev pub AreUsers : Users → List ℕ → Type 0
AreUsers users = All (λ (k : ℕ). has_user k users ≡ true)

found-user :
    (k : ℕ) (users : Users)
    → has_user k users ≡ true
    → (d : UserData) × (find_user k users ≡ some d)
unfolding has_user find_user
found-user k [] h = absurd (ground arith)
found-user k ((j, d) ∷ users) h = elim (Bool-cases (j == k)) [
  | inl y ↦ (d, ground arith)
  | inr y ↦ let (d', f) = found-user k users (ground arith) in (d', ground arith)
]

AreUsers-cons :
    (j : ℕ) (d : UserData) (users : Users) (ks : List ℕ)
    → AreUsers users ks
    → AreUsers ((j, d) ∷ users) ks
unfolding has_user
AreUsers-cons j d users ks h = All-imply ks (λ k e. ground arith) h

has_user-first : (k : ℕ) (d : UserData) (users : Users) → has_user k ((k, d) ∷ users) ≡ true
unfolding has_user
has_user-first k d users = ground arith

selected_ids-AreUsers :
    (leads : List (Text × Json)) (users : Users) → AreUsers users (selected_ids leads users)
unfolding selected_ids
selected_ids-AreUsers leads [] = tt
selected_ids-AreUsers leads ((k, d) ∷ users) =
    let rest =
      AreUsers-cons k d users (selected_ids leads users) (selected_ids-AreUsers leads users) in
    elim (Bool-cases (is_named d.user_obj.username leads)) [
      | inl y ↦ rw y (has_user-first k d users, rest)
      | inr y ↦ rw y rest
    ]

user_ids-AreUsers : (users : Users) → AreUsers users (user_ids users)
unfolding user_ids
user_ids-AreUsers [] = tt
user_ids-AreUsers ((k, d) ∷ users) =
    (has_user-first k d users, AreUsers-cons k d users (user_ids users) (user_ids-AreUsers users))

select_named-AreUsers :
    (users : Users) (stats : Bool) (leads : Option (List (Text × Json))) (selection : Selection)
    → select_named users stats leads ≡ ok selection
    → AreUsers users selection.ids
select_named-AreUsers users true (some leads) selection e =
    let same : selected_ids leads users ≡ selection.ids = ground arith in
    subst (AreUsers users) same (selected_ids-AreUsers leads users)
select_named-AreUsers users true none selection e = absurd (ground arith)
select_named-AreUsers users false leads selection e = absurd (ground arith)

everyone-AreUsers :
    (users : Users) (selection : Selection)
    → ok (everyone users) ≡ ok selection
    → AreUsers users selection.ids
everyone-AreUsers users selection e =
    let same : user_ids users ≡ selection.ids = ground arith in
    subst (AreUsers users) same (user_ids-AreUsers users)

read_screening-named :
    (users : Users) (result : Fields)
    → get (text "error") result ≡ none
    → read_screening users result ≡ (
        select_named users
          (stats_read (get (text "filtering_stats") result))
          (leads_of (get_or (text "potential_leads") (Json.arr Items.nil) result)))
unfolding read_screening
read_screening-named users result n = rw (n, read_screening) refl

-- With an error in the answer, all users are selected.
read_screening-error :
    (users : Users) (result : Fields) (v : Json)
    → get (text "error") result ≡ some v
    → read_screening users result ≡ ok (everyone users)
unfolding read_screening
read_screening-error users result v g = rw (g, read_screening) refl

read_screening-AreUsers :
    (users : Users) (result : Fields) (selection : Selection)
    → read_screening users result ≡ ok selection
    → AreUsers users selection.ids
read_screening-AreUsers users result selection e = elim (Option-cases (get (text "error") result)) [
  | inl n ↦
      select_named-AreUsers users (stats_read (get (text "filtering_stats") result))
        (leads_of (get_or (text "potential_leads") (Json.arr Items.nil) result)) selection
        (sym (read_screening-named users result n) ∙ e)
  | inr (v, g) ↦ everyone-AreUsers users selection (sym (read_screening-error users result v g) ∙ e)
]

select_users-AreUsers :
    (screen : List BatchMessage → Fields) (use_batch_analysis : Bool) (users : Users)
    (selection : Selection)
    → select_users screen use_batch_analysis users ≡ ok selection
    → AreUsers users selection.ids
unfolding select_users
select_users-AreUsers screen b [] selection e = everyone-AreUsers [] selection e
select_users-AreUsers screen true (u ∷ users) selection e =
    read_screening-AreUsers (u ∷ users) (screen (batch_messages (u ∷ users))) selection e
select_users-AreUsers screen false (u ∷ users) selection e =
    everyone-AreUsers (u ∷ users) selection e

fetch_profiles-cons :
    (fetch : ℕ → ℕ → Reply TgUser) (users : Users) (k : ℕ) (ks : List ℕ)
    → fetch_profiles fetch users (k ∷ ks)
      ≡ (add_fetched k (fetch k 0) (fetch k 1) (find_user k users) (fetch_profiles fetch users ks))
unfolding fetch_profiles
fetch_profiles-cons fetch users k ks = refl

module _ (fetch : ℕ → ℕ → Reply TgUser) (users : Users) where
  retried-found :
      (k : ℕ) (r : Reply TgUser) (d : UserData) (rest : Profiles)
      → (found : Profiles) × (add_retried k r (some d) (some rest) ≡ some found)
  retried-found k (got u) d rest = ((k, u) ∷ rest, refl)
  retried-found k (flood seconds) d rest = ((k, d.user_obj) ∷ rest, refl)
  retried-found k raised d rest = ((k, d.user_obj) ∷ rest, refl)

  fetched-found :
      (k : ℕ) (r second : Reply TgUser) (d : UserData) (rest : Profiles)
      → (found : Profiles) × (add_fetched k r second (some d) (some rest) ≡ some found)
  unfolding handle_flood_wait
  fetched-found k (got u) second d rest = ((k, u) ∷ rest, refl)
  fetched-found k (flood seconds) second d rest = retried-found k second d rest
  fetched-found k raised second d rest = ((k, d.user_obj) ∷ rest, refl)

  fetch_profiles-found :
      (ks : List ℕ)
      → AreUsers users ks
      → (found : Profiles) × (fetch_profiles fetch users ks ≡ some found)
  fetch_profiles-found [] h = ([], unfold fetch_profiles in refl)
  fetch_profiles-found (k ∷ ks) h =
      let (d, f) = found-user k users h.0 in
      let (rest, e) = fetch_profiles-found ks h.1 in
      let (found, g) = fetched-found k (fetch k 0) (fetch k 1) d rest in
      (found, fetch_profiles-cons fetch users k ks ∙ rw (f, e) g)

build_candidates-cons :
    (is_word : ℕ → Bool) (chat_identifier : Text) (chat : Chat) (results : List (Text × Json))
    (only_with_channels : Bool) (users : Users) (profiles : Profiles) (k : ℕ) (ks : List ℕ)
    (d : UserData) (rest : List ParsedCandidate)
    → find_user k users ≡ some d
    → build_candidates is_word chat_identifier chat results only_with_channels users profiles ks
      ≡ some rest
    → build_candidates is_word chat_identifier chat results only_with_channels users profiles
        (k ∷ ks)
      ≡ some (
          add_candidate is_word chat_identifier chat results only_with_channels d
            (profile_of k d profiles)
            rest)
unfolding build_candidates
build_candidates-cons is_word name chat results only users profiles k ks d rest f e = ground arith

module _ (is_word : ℕ → Bool) (chat_identifier : Text) (chat : Chat) (results : List (Text × Json))
    (only_with_channels : Bool) (users : Users) (profiles : Profiles) where
  build_candidates-found :
      (ks : List ℕ)
      → AreUsers users ks
      → (cs : List ParsedCandidate) × (build_candidates is_word chat_identifier chat results
            only_with_channels users profiles ks
          ≡ some cs)
  build_candidates-found [] h = ([], unfold build_candidates in refl)
  build_candidates-found (k ∷ ks) h =
      let (d, f) = found-user k users h.0 in
      let (rest, e) = build_candidates-found ks h.1 in
      (
        add_candidate is_word chat_identifier chat results only_with_channels d
            (profile_of k d profiles) rest,
        build_candidates-cons is_word chat_identifier chat results only_with_channels users profiles
            k ks d rest f e,
      )

-- Where a walk through a set gives only its elements, the users that the screening selects are all
-- gathered users: neither their profiles nor their candidates meet a KeyError.
pub select_users-found :
    (is_word : ℕ → Bool) (set_order : List ℕ → List ℕ)
    (set_order_elements : (P : ℕ → Type 0) (ks : List ℕ) → All P ks → All P (set_order ks))
    (screen : List BatchMessage → Fields) (use_batch_analysis : Bool) (users : Users)
    (selection : Selection) (fetch : ℕ → ℕ → Reply TgUser) (chat_identifier : Text) (chat : Chat)
    (only_with_channels : Bool)
    → select_users screen use_batch_analysis users ≡ ok selection
    → (profiles : Profiles) × (cs : List ParsedCandidate) × (fetch_profiles fetch users
          (set_order selection.ids)
        ≡ some profiles)
      × (build_candidates is_word chat_identifier chat selection.results only_with_channels users
            profiles
            (set_order selection.ids)
          ≡ some cs)
select_users-found is_word set_order set_order_elements screen b users selection fetch name chat
      only e =
    let known =
      set_order_elements (λ (k : ℕ). has_user k users ≡ true) selection.ids
        (select_users-AreUsers screen b users selection e) in
    let (profiles, p) = fetch_profiles-found fetch users (set_order selection.ids) known in
    let (cs, c) =
      build_candidates-found is_word name chat selection.results only users profiles
        (set_order selection.ids) known in
    (profiles, cs, p, c)

try_entity-ends :
    (r : Reply Chat) (attempt : ℕ) (next : Part (Option Chat))
    → (attempt < max_floodwait_retries → next ≢ ok none)
    → try_entity r attempt next ≢ ok none
unfolding handle_flood_wait
try_entity-ends (got chat) attempt next h e = ground arith
try_entity-ends (flood seconds) attempt next h e = ground arith
try_entity-ends raised attempt next h e = ground arith

find_entity-left :
    (get_entity : ℕ → Reply Chat) (left attempt : ℕ)
    → attempt + left ≡ max_floodwait_retries
    → find_entity get_entity (suc left) attempt ≢ ok none
unfolding find_entity
find_entity-left get_entity zero attempt h =
    try_entity-ends (get_entity attempt) attempt (ok none) (λ low. absurd (omega arith))
find_entity-left get_entity (suc left) attempt h =
    try_entity-ends (get_entity attempt) attempt (find_entity get_entity (suc left) (suc attempt))
      (λ low. find_entity-left get_entity left (suc attempt) (omega arith))

-- The attempts for the chat are never used up: the loop ends with the chat, paused or failed.
pub find_entity-ends :
    (get_entity : ℕ → Reply Chat) → find_entity get_entity (suc max_floodwait_retries) 0 ≢ ok none
find_entity-ends get_entity = find_entity-left get_entity max_floodwait_retries 0 refl
