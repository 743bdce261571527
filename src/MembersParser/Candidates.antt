-- ===== src/MembersParser/Candidates.antt =====
-- The second stage of `parse_users_from_messages`: the profiles of the selected users, the
-- candidates, and the whole of the function.
pub mod Selected
pub mod Lookups
use lead_finder.Prelude.{
  ℕ, zero, suc, ◌+◌, Bool, true, false, not, ◌&&◌, ◌||◌, Option, none, some, List, [], ◌∷◌, ◌==◌,
  if◌then◌else◌, map,
}
use lead_finder.Prelude.Text.{Text, text, text_eq}
use lead_finder.DateTime.{DateTime}
use lead_finder.Json.{Json, Fields}
use lead_finder.Qualifier.Prompt.{MessageData, Candidate}
use lead_finder.PainCollector.{ChatMessage}
use lead_finder.MembersParser.{
  Reply, got, flood, raised, Part, ok, paused, failed, max_floodwait_retries, handle_flood_wait,
}
use lead_finder.MembersParser.Bio.{find_channel_in_bio}
use lead_finder.MembersParser.Scan.{
  Chat, TgUser, Posted, UserData, Users, Scan, Ending, scan, no_scan, is_public,
}
use lead_finder.MembersParser.Screen.{BatchMessage, Selection, select_users}

-- A candidate: what the program reads of it, and the other entries of the dict.
pub record ParsedCandidate : Type 0 where
  pub candidate : Candidate
  pub has_channel : Bool
  pub channel_username : Option Text
  pub source_chat_id : ℕ
  pub source_chat_is_public : Bool
  pub sample_messages : List Text
  pub has_fresh_message : Bool
  pub batch_analysis_data : Json

-- `unique_users[user_id]`; `none` is the KeyError.
unfoldable pub find_user : ℕ → Users → Option UserData
find_user k [] = none
find_user k ((j, d) ∷ users) = if j == k then some d else find_user k users

-- `full_users`
abbrev pub Profiles : Type 0
Profiles = List (ℕ × TgUser)

abbrev pub add_profile : ℕ → TgUser → Option Profiles → Option Profiles
add_profile k u none = none
add_profile k u (some rest) = some ((k, u) ∷ rest)

-- `full_users[user_id] = unique_users[user_id]["user_obj"]`
abbrev pub add_known : ℕ → Option UserData → Option Profiles → Option Profiles
add_known k none rest = none
add_known k (some d) rest = add_profile k d.user_obj rest

abbrev pub add_retried : ℕ → Reply TgUser → Option UserData → Option Profiles → Option Profiles
add_retried k (got u) known rest = add_profile k u rest
add_retried k reply known rest = add_known k known rest

-- The body of the loop: the first call of get_entity, and the second after a wait.
abbrev pub add_fetched :
    ℕ → Reply TgUser → Reply TgUser → Option UserData → Option Profiles → Option Profiles
add_fetched k (got u) second known rest = add_profile k u rest
add_fetched k (flood seconds) second known rest = elim (handle_flood_wait seconds 0) [
  | none ↦ some []
  | some waited ↦ add_retried k second known rest
]
add_fetched k raised second known rest = add_known k known rest

-- The loop over the selected users; `fetch k n` is the reply to call `n` for the user `k`.
unfoldable pub fetch_profiles : (ℕ → ℕ → Reply TgUser) → Users → List ℕ → Option Profiles
fetch_profiles fetch users [] = some []
fetch_profiles fetch users (k ∷ ks) =
    add_fetched k (fetch k 0) (fetch k 1) (find_user k users) (fetch_profiles fetch users ks)

-- `full_users.get(user_id, user_data["user_obj"])`
unfoldable pub profile_of : ℕ → UserData → Profiles → TgUser
profile_of k d [] = d.user_obj
profile_of k d ((j, u) ∷ profiles) = if j == k then u else profile_of k d profiles

abbrev pub is_same_name : Option Text → Text → Bool
is_same_name none other = false
is_same_name (some name) other = text_eq other name

-- `batch_analysis_results.get(user.username, {})`: the latest entry of a name counts.
unfoldable pub result_for : Option Text → List (Text × Json) → Json → Json
result_for name [] default = default
result_for name ((other, lead) ∷ results) default =
    result_for name results (if is_same_name name other then lead else default)

unfoldable pub any_hot : List MessageData → Bool
any_hot [] = false
any_hot (m ∷ ms) = text_eq m.freshness (text "hot") || any_hot ms

abbrev pub is_some : Option Text → Bool
is_some none = false
is_some (some s) = true

module _ (is_word : ℕ → Bool) (chat_identifier : Text) (chat : Chat)
    (results : List (Text × Json)) where
  unfoldable pub candidate_of : UserData → TgUser → ParsedCandidate
  candidate_of d u =
      let channel = find_channel_in_bio is_word u.about in
      record {
        candidate = record {
          user_id = u.id;
          username = u.username;
          first_name = u.first_name;
          last_name = u.last_name;
          bio = u.about;
          source_chat = chat_identifier;
          source_chat_username = chat.username;
          messages_in_chat = d.message_count;
          messages_with_metadata = d.messages;
        };
        has_channel = is_some channel;
        channel_username = channel;
        source_chat_id = chat.id;
        source_chat_is_public = is_public chat;
        sample_messages = map (λ (m : MessageData). m.text) d.messages;
        has_fresh_message = any_hot d.messages;
        batch_analysis_data = result_for u.username results (Json.obj Fields.end);
      }

  -- The two `continue`s, and the append.
  abbrev pub add_candidate : Bool → UserData → TgUser → List ParsedCandidate → List ParsedCandidate
  add_candidate only_with_channels d u rest =
      if only_with_channels && not (is_some (find_channel_in_bio is_word u.about))
      then rest
      else elim d.messages [ [] ↦ rest | m ∷ ms ↦ candidate_of d u ∷ rest ]

  module _ (only_with_channels : Bool) (users : Users) (profiles : Profiles) where
    -- The body of the loop, with the lookup of the user.
    abbrev pub add_found :
        ℕ → Option UserData → Option (List ParsedCandidate) → Option (List ParsedCandidate)
    add_found k (some d) (some rest) =
        some (add_candidate only_with_channels d (profile_of k d profiles) rest)
    add_found k known rest = none

    unfoldable pub build_candidates : List ℕ → Option (List ParsedCandidate)
    build_candidates [] = some []
    build_candidates (k ∷ ks) = add_found k (find_user k users) (build_candidates ks)

-- Telegram as the parser sees it: `get_entity n` is the reply to the attempt `n` for the chat,
-- `history n` the messages that iter_messages gives with the limit `n`.
pub record Telegram : Type 0 where
  pub authorized : Bool
  pub get_entity : ℕ → Reply Chat
  pub history : ℕ → List Posted
  pub ending : Ending
  pub fetch : ℕ → ℕ → Reply TgUser

-- One attempt to get the chat; `next` is the next one.
abbrev pub try_entity : Reply Chat → ℕ → Part (Option Chat) → Part (Option Chat)
try_entity (got chat) attempt next = ok (some chat)
try_entity (flood seconds) attempt next = elim (handle_flood_wait seconds attempt) [
  | none ↦ paused
  | some waited ↦ next
]
try_entity raised attempt next = failed

-- `for attempt in range(config.MAX_FLOODWAIT_RETRIES + 1)`, with the attempts that are left.
unfoldable pub find_entity : (ℕ → Reply Chat) → ℕ → ℕ → Part (Option Chat)
find_entity get_entity zero attempt = ok none
find_entity get_entity (suc left) attempt =
    try_entity (get_entity attempt) attempt (find_entity get_entity left (suc attempt))

-- How the function ends: AuthorizationRequiredError, ParsingPausedError or the two lists.
pub data Parsed : Type 0 where
  auth_required parsing_paused : Parsed
  parsed : List ParsedCandidate → List ChatMessage → Parsed

-- `except ParsingPausedError: raise`, and `return [], []` for every other exception.
abbrev pub end_of : Part (List ParsedCandidate × List ChatMessage) → Parsed
end_of (ok (candidates, messages)) = parsed candidates messages
end_of paused = parsing_paused
end_of failed = parsed [] []

-- `set_order ks` is the order in which Python walks through the set of `ks`.
module _ (isoformat : DateTime → Text) (is_word : ℕ → Bool) (set_order : List ℕ → List ℕ)
    (screen : List BatchMessage → Fields) (max_age : ℕ) (telegram : Telegram) where
  module _ (chat_identifier : Text) (only_with_channels : Bool) where
    abbrev pub with_candidates :
        List ChatMessage
        → Option (List ParsedCandidate)
        → Part (List ParsedCandidate × List ChatMessage)
    with_candidates messages none = failed
    with_candidates messages (some candidates) = ok (candidates, messages)

    abbrev pub with_profiles :
        Chat → Scan → Selection → Option Profiles → Part (List ParsedCandidate × List ChatMessage)
    with_profiles chat s selection none = failed
    with_profiles chat s selection (some profiles) = with_candidates s.all_messages (
        build_candidates is_word chat_identifier chat selection.results only_with_channels
          s.unique_users profiles (set_order selection.ids))

    abbrev pub with_selection :
        Chat → Scan → Part Selection → Part (List ParsedCandidate × List ChatMessage)
    with_selection chat s paused = paused
    with_selection chat s failed = failed
    with_selection chat s (ok selection) =
        with_profiles chat s selection
          (fetch_profiles telegram.fetch s.unique_users (set_order selection.ids))

    module _ (messages_limit : ℕ) (max_messages_per_user : ℕ) (use_batch_analysis : Bool) where
      abbrev pub with_scan : Chat → Part Scan → Part (List ParsedCandidate × List ChatMessage)
      with_scan chat paused = paused
      with_scan chat failed = failed
      with_scan chat (ok s) =
          with_selection chat s (select_users screen use_batch_analysis s.unique_users)

      abbrev pub with_entity : Part (Option Chat) → Part (List ParsedCandidate × List ChatMessage)
      with_entity paused = paused
      with_entity failed = failed
      with_entity (ok none) = ok ([], [])
      with_entity (ok (some chat)) = with_scan chat (
          scan isoformat chat max_age max_messages_per_user telegram.ending
            (telegram.history messages_limit) no_scan)

      unfoldable pub parse_users_from_messages : Parsed
      parse_users_from_messages =
          if telegram.authorized
          then end_of (with_entity (find_entity telegram.get_entity (suc max_floodwait_retries) 0))
          else auth_required
