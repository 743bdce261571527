-- ===== src/Qualifier/Prompt.antt =====
-- What `qualify_lead` sends to the model and shows on the card: the candidate's messages as text,
-- and the summary of their freshness.
use lead_finder.Prelude.{
  ℕ, suc, Bool, false, ◌||◌, Option, none, some, List, [], ◌∷◌, ◌++◌, if◌then◌else◌, take, length,
  ltb,
}
use lead_finder.Prelude.Int.{pos}
use lead_finder.Prelude.Text.{Text, text, truthy, text_eq, or_empty}
use lead_finder.Prelude.Numeral.{show}
use lead_finder.Json.{Json, Fields}

-- One entry of `messages_with_metadata`, as members_parser stores it.
pub record MessageData : Type 0 where
  pub message_id : ℕ
  pub text : Text
  pub date : Option Text
  pub chat_username : Option Text
  pub chat_id : ℕ
  pub is_public : Bool
  pub link : Option Text
  pub freshness : Text
  pub age_display : Text

-- The parts of a candidate that the program reads.
pub record Candidate : Type 0 where
  pub user_id : ℕ
  pub username : Option Text
  pub first_name : Option Text
  pub last_name : Option Text
  pub bio : Option Text
  pub source_chat : Text
  pub source_chat_username : Option Text
  pub messages_in_chat : ℕ
  pub messages_with_metadata : List MessageData

-- `f"{v}"` for a value that may be `None`.
abbrev pub format : Option Text → Text
format none = text "None"
format (some s) = s

unfoldable pub freshness_emoji : Text → Text
freshness_emoji freshness =
    if text_eq freshness (text "hot")
    then text "🔥"
    else if text_eq freshness (text "cold")
    then 0x26a0 ∷ 0xfe0f ∷ []
    else if text_eq freshness (text "stale")
    then text "🥶"
    else []

-- The line of one message, with its link.
unfoldable pub message_line : MessageData → Text
message_line msg =
    let emoji = freshness_emoji msg.freshness in
    let quote =
      text "[" ++ (msg.age_display ++ (text "] \"" ++ (take 200 msg.text ++ text "\""))) in
    let line =
      if truthy emoji then text "- " ++ (emoji ++ (text " " ++ quote)) else text "- " ++ quote in
    let link = or_empty msg.link in
    if truthy link
    then line ++ (text "\n  📍 " ++ (format msg.chat_username ++ (text " | 🔗 " ++ link)))
    else line

abbrev pub message_lines : List MessageData → Text
message_lines [] = []
message_lines (m ∷ ms) = text "\n" ++ (message_line m ++ message_lines ms)

unfoldable pub format_messages_with_metadata : List MessageData → Text
format_messages_with_metadata [] = []
format_messages_with_metadata (m ∷ ms) =
    text "--- Сообщения пользователя в чате (с датами и ссылками) ---"
    ++ (message_lines (m ∷ ms) ++ text "\n\n")

-- `input_data` of `qualify_lead`. A candidate with no messages has no sample messages either.
unfoldable pub input_data : Candidate → Text → Text
input_data c niche =
    text "--- Профиль пользователя в Telegram ---\nНиша, в которой он найден: "
    ++ (niche
        ++ (text "\nИмя: "
            ++ (format c.first_name
                ++ (text " "
                    ++ (format c.last_name
                        ++ (text "\nUsername: @"
                            ++ (format c.username
                                ++ (text "\nБио: "
                                    ++ (format c.bio
                                        ++ (text "\nСообщений в чате-источнике: "
                                            ++ (show c.messages_in_chat
                                                ++ (text "\n\n"
                                                    ++ format_messages_with_metadata
                                                        c.messages_with_metadata))))))))))))

-- `freshness_counts[word]`
unfoldable pub count_freshness : Text → List MessageData → ℕ
count_freshness word [] = 0
count_freshness word (m ∷ ms) =
    let n = count_freshness word ms in if text_eq m.freshness word then suc n else n

-- `any(msg.get("link") for msg in messages)`
unfoldable pub any_link : List MessageData → Bool
any_link [] = false
any_link (m ∷ ms) = truthy (or_empty m.link) || any_link ms

abbrev pub number : ℕ → Json
number n = Json.int (pos n)

unfoldable pub freshness_summary : List MessageData → Fields
freshness_summary [] = Fields.field (text "total_messages") (number 0) (
    Fields.field (text "has_hot") (Json.bool false) (
      Fields.field (text "has_warm") (Json.bool false) (
        Fields.field (text "freshest_age") Json.null
          (Fields.field (text "can_reply_in_chat") (Json.bool false) Fields.end))))
freshness_summary (m ∷ ms) =
    let all = m ∷ ms in
    let hot = count_freshness (text "hot") all in
    let warm = count_freshness (text "warm") all in
    Fields.field (text "total_messages") (number (length all)) (
      Fields.field (text "has_hot") (Json.bool (ltb 0 hot)) (
        Fields.field (text "has_warm") (Json.bool (ltb 0 warm)) (
          Fields.field (text "freshest_age") (Json.str m.age_display) (
            Fields.field (text "can_reply_in_chat") (Json.bool (any_link all)) (
              Fields.field (text "freshness_breakdown")
                (Json.obj (
                  Fields.field (text "hot") (number hot) (
                    Fields.field (text "warm") (number warm) (
                      Fields.field (text "cold") (number (count_freshness (text "cold") all)) (
                        Fields.field (text "stale") (number (count_freshness (text "stale") all))
                          Fields.end)))))
                Fields.end)))))
