-- ===== src/MembersParser/Tests.antt =====
-- The parser at a small history: two messages of one user, one that Telegram withholds, and an old
-- one.
use lead_finder.Qualifier.Payload.{join}
use lead_finder.Prelude.{
  ℕ, zero, suc, ◌≤◌, ◌<◌, ◌≡◌, refl, true, false, none, some, List, [], ◌∷◌, length,
}
use lead_finder.Prelude.Int.{pos}
use lead_finder.Prelude.Text.{Text, text, split, lstrip_char, starts_with, text_eq, drop_while}
use lead_finder.Prelude.Numeral.{show, parse_int, show_fuel}
use lead_finder.DateTime.{DateTime, delta_days, elapsed, instant, ordinal}
use lead_finder.Json.{Json, Items, Fields, get}
use lead_finder.Models.Table.{All}
use lead_finder.PainCollector.{ChatMessage}
use lead_finder.MembersParser.{
  Reply, got, flood, Part, ok, paused, max_floodwait_retries, generate_message_link, days_old,
  handle_flood_wait, format_message_age, get_message_freshness,
}
use lead_finder.MembersParser.Bio.{
  find_channel_in_bio, find_channel-IsMarkIn, IsMarkIn, match_handle, handle_run, is_handle_char,
  search_at, search_link,
}
use lead_finder.MembersParser.Links.{last_part, generate_message_link-id}
use lead_finder.MembersParser.Scan.{
  Chat, TgUser, Sender, user, Posted, Users, Scan, exhausted, scan, no_scan, is_too_old,
  handle_message, is_eligible, record_message, add_message, chat_message, collect_text,
  message_data,
}
use lead_finder.MembersParser.Scan.Recent.{recent, text_entries, scan-all_messages}
use lead_finder.MembersParser.Scan.Floods.{flood_count, all_answered, scan-floods}
use lead_finder.MembersParser.Scan.Users.{
  AreEntries, count_of, messages_from, scan-AreEntries, scan-count,
}
use lead_finder.MembersParser.Screen.{
  BatchMessage, Selection, select_users, read_screening, named_leads, lead_username, selected_ids,
  is_named, batch_message, batch_messages, user_ids,
}
use lead_finder.MembersParser.Candidates.{
  ParsedCandidate, Profiles, Telegram, Parsed, parsed, fetch_profiles, build_candidates,
  parse_users_from_messages, find_entity, any_hot, candidate_of, find_user, profile_of, result_for,
}
use lead_finder.MembersParser.Candidates.Selected.{IsCandidate, parse_users-IsCandidate}
use lead_finder.MembersParser.Candidates.Lookups.{select_users-found}

find_channel-IsMarkIn_example : IsMarkIn (text "hi a@bcdef @shop_1, t.me/other") (text "@shop_1")
unfolding find_channel_in_bio is_handle_char match_handle
find_channel-IsMarkIn_example =
    find_channel-IsMarkIn is_handle_char (text "hi a@bcdef @shop_1, t.me/other") (text "@shop_1")
      refl

generate_message_link-id_example :
    parse_int (last_part (split b'/' (text "t.me/shop/12"))) ≡ some (pos 12)
unfolding generate_message_link lstrip_char show
generate_message_link-id_example =
    generate_message_link-id (some (text "@shop")) (pos 5) 12 true (text "t.me/shop/12") refl

-- The ids 1001234 and 1234 of private chats have the same links.
links_collide :
    generate_message_link none (pos 1001234) 9 false ≡ generate_message_link none (pos 1234) 9 false
unfolding generate_message_link show starts_with
links_collide = refl

abbrev day : ℕ → DateTime
day d = record { year = 2024; month = 3; day = d; micros = 0 }

abbrev iso_day : DateTime → Text
iso_day d = show d.day

abbrev shop : Chat
shop = record { username = some (text "shop"); id = 5 }

abbrev ann : TgUser
ann = record {
  id = 7;
  username = some (text "ann");
  first_name = none;
  last_name = none;
  about = none;
  bot = false;
  deleted = false;
}

abbrev posted : ℕ → ℕ → Reply Sender → Posted
posted id d sender = record {
  id = id;
  date = some (day d);
  text = some (text "no time");
  sender = sender;
  arrived = day 20;
  stored = day 20;
}

abbrev history : List Posted
history =
    posted 4 19 (got (user ann))
    ∷ posted 3 18 (flood 30)
    ∷ posted 2 17 (got (user ann))
    ∷ posted 1 1 (got (user ann))
    ∷ []

abbrev or_no_scan : Part Scan → Scan
or_no_scan (ok s) = s
or_no_scan _ = no_scan

-- At most one message is stored for a user.
unfoldable scanned : Scan
unfolding scan
scanned = or_no_scan (scan iso_day shop 10 1 exhausted history no_scan)

scan-all_messages_example : scanned.all_messages ≡ text_entries iso_day shop (recent 10 history)
unfolding scanned is_too_old days_old delta_days elapsed handle_message handle_flood_wait
    is_eligible
scan-all_messages_example = scan-all_messages iso_day shop 10 1 exhausted history scanned refl

scan-AreEntries_example : AreEntries 1 scanned.unique_users
unfolding scanned is_too_old days_old delta_days elapsed handle_message handle_flood_wait
    is_eligible
scan-AreEntries_example = scan-AreEntries iso_day shop 10 1 exhausted history scanned refl

scan-count_example : count_of 7 scanned.unique_users ≡ messages_from 7 (recent 10 history)
unfolding scanned is_too_old days_old delta_days elapsed handle_message handle_flood_wait
    is_eligible
scan-count_example = scan-count iso_day shop 10 1 exhausted history scanned 7 refl

scan-floods_example :
    (flood_count (recent 10 history) ≤ max_floodwait_retries
      → (t : Scan) × (scan iso_day shop 10 1 exhausted history no_scan ≡ ok t))
    × (max_floodwait_retries < flood_count (recent 10 history)
        → scan iso_day shop 10 1 exhausted history no_scan ≡ paused)
unfolding all_answered recent is_too_old days_old delta_days elapsed
scan-floods_example = scan-floods iso_day shop 10 1 history refl

-- The model selects `@ann`.
abbrev screening : List BatchMessage → Fields
screening ms =
    Fields.field (text "potential_leads")
      (Json.arr (
        Items.cons (Json.obj (Fields.field (text "username") (Json.str (text "@ann")) Fields.end))
          Items.nil))
      Fields.end

abbrev telegram : Telegram
telegram = record {
  authorized = true;
  get_entity = λ n. elim n [ zero ↦ flood 5 | suc m ↦ got shop ];
  history = λ limit. history;
  ending = exhausted;
  fetch = λ k n. got ann;
}

abbrev candidates_in : Parsed → List ParsedCandidate
candidates_in (parsed cs ms) = cs
candidates_in _ = []

abbrev texts_in : Parsed → List ChatMessage
texts_in (parsed cs ms) = ms
texts_in _ = []

abbrev as_is : List ℕ → List ℕ
as_is ks = ks

unfoldable outcome : Parsed
unfolding parse_users_from_messages
outcome =
    parse_users_from_messages iso_day is_handle_char as_is screening 10 telegram (text "@shop")
      false 100 1 true

one_candidate : length (candidates_in outcome) ≡ 1
unfolding outcome find_entity handle_flood_wait scan is_too_old days_old delta_days elapsed
    handle_message is_eligible select_users record_message read_screening get text_eq named_leads
    lead_username fetch_profiles instant ordinal find_channel_in_bio handle_run is_handle_char
    match_handle search_at search_link any_hot build_candidates candidate_of find_user
    parse_users_from_messages profile_of result_for add_message chat_message collect_text
    message_data batch_message batch_messages is_named selected_ids user_ids format_message_age
    generate_message_link get_message_freshness show show_fuel drop_while lstrip_char starts_with
    join
one_candidate = refl

parse_users-IsCandidate_example : All (IsCandidate 1) (candidates_in outcome)
unfolding outcome find_entity handle_flood_wait scan is_too_old days_old delta_days elapsed
    handle_message is_eligible select_users record_message read_screening get text_eq named_leads
    lead_username fetch_profiles instant ordinal find_channel_in_bio handle_run is_handle_char
    match_handle search_at search_link any_hot build_candidates candidate_of find_user
    parse_users_from_messages profile_of result_for add_message chat_message collect_text
    message_data batch_message batch_messages is_named selected_ids user_ids format_message_age
    generate_message_link get_message_freshness show show_fuel drop_while lstrip_char starts_with
    join
parse_users-IsCandidate_example =
    parse_users-IsCandidate iso_day is_handle_char as_is screening 10 telegram (text "@shop") false
      100 1 true (candidates_in outcome) (texts_in outcome) refl

abbrev the_users : Users
the_users = (7, record { user_obj = ann; message_count = 2; messages = [] }) ∷ []

abbrev ann_only : Selection
ann_only = record {
  ids = 7 ∷ [];
  results =
      (text "ann", Json.obj (Fields.field (text "username") (Json.str (text "@ann")) Fields.end))
      ∷ [];
}

select_users-found_example :
    (profiles : Profiles) × (cs : List ParsedCandidate) × (fetch_profiles telegram.fetch the_users
        (7 ∷ [])
      ≡ some profiles)
    × (build_candidates is_handle_char
          (text "@shop")
          shop
          ann_only.results
          false
          the_users
          profiles
          (7 ∷ [])
        ≡ some cs)
unfolding select_users read_screening get text_eq named_leads lead_username selected_ids lstrip_char
    is_named
select_users-found_example =
    select_users-found is_handle_char as_is (λ P ks h. h) screening true the_users ann_only
      telegram.fetch (text "@shop") shop false refl
