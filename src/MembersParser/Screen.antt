-- ===== src/MembersParser/Screen.antt =====
-- The first stage of `parse_users_from_messages`: the model screens the gathered users, and the
-- dict that it returns is read. `screen` is batch_analyze_chat.
use lead_finder.Prelude.{
  ℕ, Bool, true, false, ◌||◌, Option, none, some, List, [], ◌∷◌, if◌then◌else◌, take, map,
}
use lead_finder.Prelude.Text.{Text, text, text_eq, lstrip_char}
use lead_finder.Json.{Json, Items, Fields, items, get, get_or}
use lead_finder.Qualifier.Payload.{join}
use lead_finder.Qualifier.Prompt.{MessageData, format}
use lead_finder.MembersParser.{Part, ok, failed}
use lead_finder.MembersParser.Scan.{UserData, Users}

-- An entry of `batch_messages`.
pub record BatchMessage : Type 0 where
  pub username : Text
  pub text : Text
  pub date : Option Text
  pub messages_count : ℕ

abbrev pub first_date : List MessageData → Option Text
first_date [] = none
first_date (m ∷ ms) = m.date

unfoldable pub batch_message : UserData → BatchMessage
batch_message d = record {
  username = b'@' ∷ format d.user_obj.username;
  text = join (text " | ") (take 3 (map (λ (m : MessageData). m.text) d.messages));
  date = first_date d.messages;
  messages_count = d.message_count;
}

unfoldable pub batch_messages : Users → List BatchMessage
batch_messages [] = []
batch_messages ((k, d) ∷ users) = batch_message d ∷ batch_messages users

-- `lead["username"].lstrip("@")`; `none` is an exception.
abbrev pub name_in : Option Json → Option Text
name_in (some (Json.str s)) = some (lstrip_char b'@' s)
name_in v = none

unfoldable pub lead_username : Json → Option Text
lead_username (Json.obj fs) = name_in (get (text "username") fs)
lead_username v = none

abbrev pub cons_named :
    Option Text → Json → Option (List (Text × Json)) → Option (List (Text × Json))
cons_named (some name) lead (some rest) = some ((name, lead) ∷ rest)
cons_named name lead rest = none

-- The leads under their names.
unfoldable pub named_leads : List Json → Option (List (Text × Json))
named_leads [] = some []
named_leads (lead ∷ leads) = cons_named (lead_username lead) lead (named_leads leads)

-- The loop over `potential_leads`: over what is empty it does nothing.
abbrev pub leads_of : Json → Option (List (Text × Json))
leads_of (Json.arr xs) = named_leads (items xs)
leads_of (Json.str []) = some []
leads_of (Json.obj Fields.end) = some []
leads_of v = none

-- `stats.get(...)` in the log line raises if `filtering_stats` is no dict.
abbrev pub stats_read : Option Json → Bool
stats_read none = true
stats_read (some (Json.obj fs)) = true
stats_read (some v) = false

-- `name in selected_usernames`
unfoldable pub is_named : Option Text → List (Text × Json) → Bool
is_named none leads = false
is_named (some name) [] = false
is_named (some name) ((other, lead) ∷ leads) = text_eq other name || is_named (some name) leads

-- `{user_id for user_id, data in unique_users.items() if data["user_obj"].username in ...}`
unfoldable pub selected_ids : List (Text × Json) → Users → List ℕ
selected_ids leads [] = []
selected_ids leads ((k, d) ∷ users) =
    let rest = selected_ids leads users in
    if is_named d.user_obj.username leads then k ∷ rest else rest

-- `set(unique_users.keys())`
unfoldable pub user_ids : Users → List ℕ
user_ids [] = []
user_ids ((k, d) ∷ users) = k ∷ user_ids users

-- `selected_user_ids`, and the entries of `batch_analysis_results` in the order they are written.
pub record Selection : Type 0 where
  pub ids : List ℕ
  pub results : List (Text × Json)

abbrev pub everyone : Users → Selection
everyone users = record { ids = user_ids users; results = [] }

abbrev pub select_named : Users → Bool → Option (List (Text × Json)) → Part Selection
select_named users true (some leads) =
    ok (record { ids = selected_ids leads users; results = leads })
select_named users stats leads = failed

unfoldable pub read_screening : Users → Fields → Part Selection
read_screening users result = elim (get (text "error") result) [
  | some e ↦ ok (everyone users)
  | none ↦
      select_named users (stats_read (get (text "filtering_stats") result))
        (leads_of (get_or (text "potential_leads") (Json.arr Items.nil) result))
]

unfoldable pub select_users : (List BatchMessage → Fields) → Bool → Users → Part Selection
select_users screen use_batch_analysis [] = ok (everyone [])
select_users screen use_batch_analysis (u ∷ users) =
    if use_batch_analysis
    then read_screening (u ∷ users) (screen (batch_messages (u ∷ users)))
    else ok (everyone (u ∷ users))
