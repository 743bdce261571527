-- ===== src/MembersParser/Scan.antt =====
-- The loop of `parse_users_from_messages` over the history of a chat: every text is kept for the
-- search for pains, and the messages are gathered by their authors.
pub mod Users
pub mod Recent
pub mod Floods
use lead_finder.Prelude.{
  ℕ, suc, ◌+◌, Bool, true, false, not, ◌&&◌, ◌||◌, Option, none, some, List, [], ◌∷◌, ◌++◌, ◌==◌,
  if◌then◌else◌, length, ltb,
}
use lead_finder.Prelude.Int.{ℤ, pos, ltb_ℤ, leb_ℤ}
use lead_finder.Prelude.Text.{Text, truthy, or_empty}
use lead_finder.DateTime.{DateTime}
use lead_finder.Qualifier.Prompt.{MessageData}
use lead_finder.PainCollector.{ChatMessage}
use lead_finder.MembersParser.{
  Reply, got, flood, raised, Part, ok, paused, failed, handle_flood_wait, generate_message_link,
  days_old, get_message_freshness, format_message_age,
}

-- The attributes of telethon's User that the parser reads.
pub record TgUser : Type 0 where
  pub id : ℕ
  pub username : Option Text
  pub first_name : Option Text
  pub last_name : Option Text
  pub about : Option Text
  pub bot : Bool
  pub deleted : Bool

-- What `message.get_sender()` gives: nobody, a chat or channel, or a user.
pub data Sender : Type 0 where
  nobody no_user : Sender
  user : TgUser → Sender

-- A message of the history. The clock is read when it arrives, and again once its sender is known.
pub record Posted : Type 0 where
  pub id : ℕ
  pub date : Option DateTime
  pub text : Option Text
  pub sender : Reply Sender
  pub arrived : DateTime
  pub stored : DateTime

-- `chat_username`, `chat_id` and `is_public` of the entity.
pub record Chat : Type 0 where
  pub username : Option Text
  pub id : ℕ

-- A value of `unique_users`.
pub record UserData : Type 0 where
  pub user_obj : TgUser
  pub message_count : ℕ
  pub messages : List MessageData

-- `unique_users`: a dict in insertion order.
abbrev pub Users : Type 0
Users = List (ℕ × UserData)

pub record Scan : Type 0 where
  pub unique_users : Users
  pub all_messages : List ChatMessage
  pub flood_wait_retries : ℕ

abbrev pub is_public : Chat → Bool
is_public chat = truthy (or_empty chat.username)

abbrev pub link_of : Chat → Posted → Option Text
link_of chat m = generate_message_link chat.username (pos chat.id) m.id (is_public chat)

-- `(now - message_date).days if message_date else 999`
abbrev pub age_or_999 : DateTime → Option DateTime → ℤ
age_or_999 now none = pos 999
age_or_999 now (some date) = days_old now date

-- `if sender.bot or sender.deleted or not sender.username: continue`, negated.
unfoldable pub is_eligible : TgUser → Bool
is_eligible u = not (u.bot || u.deleted || not (truthy (or_empty u.username)))

-- How the history ends: after its last message, or in an exception of the iterator.
pub data Ending : Type 0 where
  exhausted broken : Ending
  flooded : ℕ → Ending

-- `days_old > config.MESSAGE_MAX_AGE_DAYS`
unfoldable pub is_too_old : ℕ → DateTime → Option DateTime → Bool
is_too_old max_age now date = ltb_ℤ (pos max_age) (age_or_999 now date)

-- A sender that Telegram withholds for a while: the message is passed over after the wait.
abbrev pub after_flood : Option ℕ → Scan → Part Scan
after_flood none s = paused
after_flood (some waited) s = ok (record s { flood_wait_retries = suc s.flood_wait_retries })

abbrev pub end_scan : Ending → Scan → Part Scan
end_scan exhausted s = ok s
end_scan broken s = failed
end_scan (flooded seconds) s = elim (handle_flood_wait seconds s.flood_wait_retries) [
  | none ↦ paused
  | some waited ↦ ok s
]

-- `message.date.isoformat() if message.date else None`
abbrev pub iso : (DateTime → Text) → Option DateTime → Option Text
iso isoformat none = none
iso isoformat (some date) = some (isoformat date)

module _ (isoformat : DateTime → Text) (chat : Chat) where
  unfoldable pub chat_message : Posted → ChatMessage
  chat_message m = record {
    message_id = m.id;
    text = or_empty m.text;
    date = iso isoformat m.date;
    chat_username = chat.username;
    link = link_of chat m;
  }

  -- `if message.text: all_messages.append(...)`
  unfoldable pub collect_text : Posted → List ChatMessage → List ChatMessage
  collect_text m ms = if truthy (or_empty m.text) then ms ++ chat_message m ∷ [] else ms

  unfoldable pub message_data : Posted → MessageData
  message_data m = record {
    message_id = m.id;
    text = or_empty m.text;
    date = iso isoformat m.date;
    chat_username = chat.username;
    chat_id = chat.id;
    is_public = is_public chat;
    link = link_of chat m;
    freshness = get_message_freshness m.stored m.date;
    age_display = format_message_age m.stored m.date;
  }

module _ (isoformat : DateTime → Text) (chat : Chat) (max_age : ℕ) (max_messages_per_user : ℕ) where
  -- The count goes up; the message is stored if it is recent and there is room.
  unfoldable pub add_message : Posted → UserData → UserData
  add_message m d = record d {
    message_count = suc d.message_count;
    messages =
        if not (is_too_old max_age m.stored m.date) && ltb (length d.messages) max_messages_per_user
        then d.messages ++ message_data isoformat chat m ∷ []
        else d.messages;
  }

  unfoldable pub record_message : Posted → TgUser → Users → Users
  record_message m u [] =
      (u.id, add_message m (record { user_obj = u; message_count = 0; messages = [] })) ∷ []
  record_message m u ((k, d) ∷ users) =
      let rest = record_message m u users in
      if k == u.id then (k, add_message m d) ∷ users else (k, d) ∷ rest

  -- The body after `get_sender`, with its `continue`s.
  abbrev pub handle_sender : Posted → Sender → Scan → Scan
  handle_sender m nobody s = s
  handle_sender m no_user s = s
  handle_sender m (user u) s =
      if truthy (or_empty m.text) && is_eligible u
      then record s { unique_users = record_message m u s.unique_users }
      else s

  abbrev pub handle_reply : Posted → Reply Sender → Scan → Part Scan
  handle_reply m (got sender) s = ok (handle_sender m sender s)
  handle_reply m (flood seconds) s = after_flood (handle_flood_wait seconds s.flood_wait_retries) s
  handle_reply m raised s = failed

  -- The body for a message that is not too old.
  unfoldable pub handle_message : Posted → Scan → Part Scan
  handle_message m s =
      handle_reply m m.sender
        (record s { all_messages = collect_text isoformat chat m s.all_messages })

  -- `async for message in client.iter_messages(...)`, up to the first message that is too old.
  unfoldable pub scan : Ending → List Posted → Scan → Part Scan
  scan ending [] s = end_scan ending s
  scan ending (m ∷ ms) s = elim (is_too_old max_age m.arrived m.date) [
    | true ↦ ok s
    | false ↦ elim (handle_message m s) [
      | ok s' ↦ scan ending ms s'
      | paused ↦ paused
      | failed ↦ failed
    ]
  ]

abbrev pub no_scan : Scan
no_scan = record { unique_users = []; all_messages = []; flood_wait_retries = 0 }
