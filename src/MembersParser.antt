-- ===== src/MembersParser.antt =====
-- modules/members_parser.py: the small functions on a message, its link, its freshness and its age,
-- and how a FloodWaitError is met. The children hold the scan of the history, the screening, the
-- profiles and the candidates.
pub mod Bio
pub mod Links
pub mod Scan
pub mod Screen
pub mod Candidates
mod Tests
use lead_finder.Prelude.{
  ℕ, suc, ◌+◌, ◌/◌, Bool, true, false, ◌&&◌, Option, none, some, List, [], ◌∷◌, ◌++◌, ltb, leb,
  ◌==◌, if◌then◌else◌, drop,
}
use lead_finder.Prelude.Int.{ℤ, pos, negsuc, ltb_ℤ}
use lead_finder.Prelude.Text.{Text, text, truthy, or_empty, starts_with, lstrip_char}
use lead_finder.Prelude.Numeral.{show}
use lead_finder.DateTime.{DateTime, elapsed, delta_days}

-- config.MAX_FLOODWAIT_RETRIES
abbrev pub max_floodwait_retries : ℕ
max_floodwait_retries = 2

-- config.FLOODWAIT_EXTRA_SECONDS
abbrev pub floodwait_extra_seconds : ℕ
floodwait_extra_seconds = 10

-- How a call to Telegram ends: FloodWaitError carries its seconds, `raised` is any other exception.
pub data Reply (A : Type 0) : Type 0 where
  got : A → Reply A
  flood : ℕ → Reply A
  raised : Reply A

-- How a part of the parser ends: ParsingPausedError leaves it, another exception does not.
pub data Part (A : Type 0) : Type 0 where
  ok : A → Part A
  paused failed : Part A

-- `_handle_flood_wait`: the seconds that were slept before it returned `True`; `none` is `False`.
unfoldable pub handle_flood_wait : ℕ → ℕ → Option ℕ
handle_flood_wait seconds retry_count =
    if leb max_floodwait_retries retry_count then none else some (seconds + floodwait_extra_seconds)

-- `abs(n)`
abbrev pub abs : ℤ → ℕ
abs (pos n) = n
abs (negsuc n) = suc n

abbrev pub without_100 : Text → Text
without_100 s = if starts_with (text "100") s then drop 3 s else s

unfoldable pub generate_message_link : Option Text → ℤ → ℕ → Bool → Option Text
generate_message_link chat_username chat_id message_id is_public =
    if is_public && truthy (or_empty chat_username)
    then some (
        text "t.me/"
        ++ (lstrip_char b'@' (or_empty chat_username) ++ (text "/" ++ show message_id)))
    else if abs chat_id == 0
    then none
    else some
        (text "t.me/c/" ++ (without_100 (show (abs chat_id)) ++ (text "/" ++ show message_id)))

-- `(now - message_date).days`, both in UTC.
unfoldable pub days_old : DateTime → DateTime → ℤ
days_old now message_date = delta_days (elapsed now message_date)

-- The thresholds are config.MESSAGE_FRESHNESS_DAYS.
unfoldable pub get_message_freshness : DateTime → Option DateTime → Text
get_message_freshness now none = text "stale"
get_message_freshness now (some date) =
    let days = days_old now date in
    if ltb_ℤ days (pos 3)
    then text "hot"
    else if ltb_ℤ days (pos 7)
    then text "warm"
    else if ltb_ℤ days (pos 30)
    then text "cold"
    else text "stale"

-- A number of days, as a Python integer in a text.
abbrev pub show_ℤ : ℤ → Text
show_ℤ (pos n) = show n
show_ℤ (negsuc n) = text "-" ++ show (suc n)

-- `n // 7`, where `n` is not negative.
abbrev pub weeks : ℤ → ℤ
weeks (pos n) = pos (n / 7)
weeks (negsuc n) = negsuc (n / 7)

abbrev pub is_days : ℕ → ℤ → Bool
is_days n (pos m) = m == n
is_days n (negsuc m) = false

unfoldable pub format_message_age : DateTime → Option DateTime → Text
format_message_age now none = text "дата неизвестна"
format_message_age now (some date) =
    let days = days_old now date in
    if is_days 0 days
    then text "сегодня"
    else if is_days 1 days
    then text "вчера"
    else if ltb_ℤ days (pos 7)
    then show_ℤ days ++ text " дн. назад"
    else if ltb_ℤ days (pos 14)
    then text "неделю назад"
    else if ltb_ℤ days (pos 30)
    then show_ℤ (weeks days) ++ text " нед. назад"
    else text "больше месяца назад"
