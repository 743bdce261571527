-- ===== src/PainSaver.antt =====
-- bot/services/program_runner.py, `_extract_pain_texts`, `_trim` and `_save_pains_from_lead`: the
-- pains that the model named for a qualified lead, stored with the lead's messages as sources.
-- `shown v` is Python's `str(v)` for a value that is no string; `none` is a raised exception.
pub mod Unique
pub mod Saved
mod Tests
use lead_finder.Prelude.{
  ℕ, zero, suc, ◌+◌, ◌%◌, ◌≡◌, Bool, true, false, ◌&&◌, ◌||◌, not, Option, none, some, List, [],
  ◌∷◌, ◌==◌, if◌then◌else◌, take, length, map, get_or, leb,
}
use lead_finder.Prelude.Text.{Text, text, text_eq, strip, lstrip_char, truthy, or_empty}
use lead_finder.Json.{Json, Items, Fields, items, keys, get, truth}
use lead_finder.Models.{Pain}
use lead_finder.PainStore.{PainStore, add, flush, find_recorded}
use lead_finder.Qualifier.Prompt.{MessageData, Candidate}

-- `_trim`, for a string.
unfoldable pub trim : Option Text → ℕ → Option Text
trim none limit = none
trim (some value) limit = let s = strip value in if truthy s then some (take limit s) else none

-- `a or b` for a key that may be missing.
abbrev pub or_else : Option Json → Json → Json
or_else none w = w
or_else (some v) w = if truth v then v else w

-- What a `for` loop over the value meets; `none` where it is not iterable.
abbrev pub iterated : Json → Option (List Json)
iterated (Json.arr xs) = some (items xs)
iterated (Json.str s) = some (map (λ c. Json.str (c ∷ [])) s)
iterated (Json.obj fs) = some (map Json.str (keys fs))
iterated v = none

abbrev pub field_of : Json → Text → Option (Option Json)
field_of (Json.obj fs) key = some (get key fs)
field_of v key = none

module _ (shown : Json → Text) where
  -- `str(value)`
  abbrev pub str_of : Json → Text
  str_of (Json.str s) = s
  str_of v = shown v

  abbrev pub pain_text_of : Json → Text
  pain_text_of (Json.str s) = strip s
  pain_text_of (Json.obj pain) = strip (
      str_of (
        or_else (get (text "pain") pain) (
          or_else (get (text "text") pain)
            (or_else (get (text "description") pain) (Json.str [])))))
  pain_text_of v = []

  unfoldable pub pain_texts : List Json → List Text
  pain_texts [] = []
  pain_texts (v ∷ vs) =
      let t = pain_text_of v in let rest = pain_texts vs in if truthy t then t ∷ rest else rest

  unfoldable pub extract_pain_texts : Fields → Option (List Text)
  extract_pain_texts qualification =
      elim (iterated (or_else (get (text "identified_pains") qualification) (Json.arr Items.nil))) [
        | none ↦ none
        | some vs ↦ some (pain_texts vs)
      ]

  -- `_trim(value, limit)` for a value of the answer.
  abbrev pub trim_json : Option Json → ℕ → Option Text
  trim_json none limit = none
  trim_json (some Json.null) limit = none
  trim_json (some v) limit = trim (some (str_of v)) limit

  -- The trimmed `(qualification_result.get("identification") or {}).get("business_type")`.
  unfoldable pub business_type_of : Fields → Option (Option Text)
  business_type_of qualification =
      elim (field_of (or_else (get (text "identification") qualification) (Json.obj Fields.end))
        (text "business_type")) [ none ↦ none | some v ↦ some (trim_json v 100) ]

-- `candidate.get("source_chat_username") or candidate.get("source_chat") or ""`, without "@".
unfoldable pub source_chat_of : Candidate → Text
source_chat_of c =
    let username = or_empty c.source_chat_username in
    let chat = if truthy username then username else c.source_chat in
    or_empty (trim (some (lstrip_char 0x40 chat)) 100)

-- A Telegram id is positive, so only the upper bound of int32 matters.
abbrev pub safe_user_id : ℕ → Option ℕ
safe_user_id raw = if leb raw 2147483647 then some raw else none

-- `dedup_key`
pub record Key : Type 0 where
  pub message_id : ℕ
  pub chat : Text
  pub quote : Text

abbrev pub key_of : Pain → Key
key_of p = record {
  message_id = p.source_message_id;
  chat = p.source_chat;
  quote = p.original_quote;
}

-- `dedup_key in seen_keys`
unfoldable pub is_seen : Key → List Key → Bool
is_seen k [] = false
is_seen k (j ∷ seen) =
    k.message_id == j.message_id && (text_eq k.chat j.chat && text_eq k.quote j.quote)
    || is_seen k seen

-- The state of the loop.
pub record Saving : Type 0 where
  pub store : PainStore
  pub seen : List Key
  pub inserted : ℕ

-- `(msg.get("text") or pain_text or "").strip()`
abbrev pub quote_of : MessageData → Text → Text
quote_of msg pain_text = strip (if truthy msg.text then msg.text else pain_text)

module _ (user_id program_id : ℕ) (c : Candidate) (business_type : Option Text) where
  -- The new row, whose `id` is set when it is added to the session.
  unfoldable pub lead_pain : Text → MessageData → Text → Pain
  lead_pain pain_text msg quote = record {
    id = 0;
    user_id = user_id;
    program_id = program_id;
    text = pain_text;
    original_quote = quote;
    category = text "other";
    intensity = text "medium";
    business_type = business_type;
    source_chat = source_chat_of c;
    source_message_id = msg.message_id;
    source_message_link = trim msg.link 255;
    source_user_id = safe_user_id c.user_id;
    source_username = trim c.username 100;
    message_date = none;
    cluster_id = none;
    used_in_post = false;
  }

  -- The loop's body from the key on: a key met before, in this call or in the table, is skipped.
  unfoldable pub save_pain : Pain → Saving → Saving
  save_pain p acc =
      if is_seen (key_of p) acc.seen
      then acc
      else elim (find_recorded user_id p.source_message_id p.source_chat p.original_quote
          acc.store) [
            | some existing ↦ record acc { seen = key_of p ∷ acc.seen }
            | none ↦ record {
              store = add p acc.store;
              seen = key_of p ∷ acc.seen;
              inserted = suc acc.inserted;
            }
          ]

  unfoldable pub save_from : MessageData → Text → Saving → Saving
  save_from msg pain_text acc =
      if msg.message_id == 0
      then acc
      else if truthy (quote_of msg pain_text)
      then save_pain (lead_pain pain_text msg (quote_of msg pain_text)) acc
      else acc

  -- The pains from number `idx` on; the messages, `m` first, are used in turn.
  unfoldable pub save_all : MessageData → List MessageData → ℕ → List Text → Saving → Saving
  save_all m ms idx [] acc = acc
  save_all m ms idx (t ∷ ts) acc =
      save_all m ms (suc idx) ts (save_from (get_or (m ∷ ms) (idx % suc (length ms)) m) t acc)

-- `if inserted: await session.flush()`
abbrev pub saved : Saving → Option (PainStore × ℕ)
saved acc =
    if acc.inserted == 0
    then some (acc.store, 0)
    else elim (flush acc.store) [ none ↦ none | some s ↦ some (s, acc.inserted) ]

module _ (user_id program_id : ℕ) (c : Candidate) where
  -- What is saved for the candidate's messages.
  abbrev pub save_with :
      Option (Option Text) → List Text → List MessageData → PainStore → Option (PainStore × ℕ)
  save_with b ts [] s = some (s, 0)
  save_with none ts (m ∷ ms) s = none
  save_with (some b) ts (m ∷ ms) s =
      saved
        (save_all user_id program_id c b m ms 0 ts (record { store = s; seen = []; inserted = 0 }))

  abbrev pub save_texts : Option (Option Text) → List Text → PainStore → Option (PainStore × ℕ)
  save_texts business_type [] s = some (s, 0)
  save_texts business_type (t ∷ ts) s = save_with business_type (t ∷ ts) c.messages_with_metadata s

module _ (shown : Json → Text) (user_id program_id : ℕ) (c : Candidate) where
  unfoldable pub save_pains_from_lead : Fields → PainStore → Option (PainStore × ℕ)
  save_pains_from_lead qualification s = elim (extract_pain_texts shown qualification) [
    | none ↦ none
    | some pains ↦ save_texts user_id program_id c (business_type_of shown qualification) pains s
  ]
