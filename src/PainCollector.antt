-- ===== src/PainCollector.antt =====
-- modules/pain_collector.py: pains that the model finds in the messages of a chat, normalised,
-- deduplicated and stored. `json.loads` is `loads`, `datetime.fromisoformat` with the change to UTC
-- is `from_iso`, and `ask` gives the model's answer for each batch. `none` is a raised exception.
pub mod Rows
pub mod Collected
pub mod Batches
pub mod Duplicates
mod Tests
use lead_finder.Prelude.{
  ℕ, zero, suc, ◌+◌, Bool, true, false, ◌&&◌, ◌||◌, not, Option, none, some, List, [], ◌∷◌, ◌++◌,
  ◌==◌, if◌then◌else◌, take, drop, get_elem?, length, map,
}
use lead_finder.Prelude.Int.{ℤ, pos, negsuc}
use lead_finder.Prelude.Text.{Text, text, text_eq, strip, starts_with, truthy, lower, or_empty}
use lead_finder.DateTime.{DateTime}
use lead_finder.Json.{Json, Items, Fields, items, keys, get, get_or}
use lead_finder.Models.{Pain}
use lead_finder.PainStore.{PainStore, add, flush, find_recorded}
use lead_finder.Qualifier.Payload.{splitlines, join, fence}
use lead_finder.Qualifier.Qualify.{Answer}

-- An entry of `all_messages`, as members_parser collects it; `chat_id` and `is_public`, which
-- nothing reads, are left out.
pub record ChatMessage : Type 0 where
  pub message_id : ℕ
  pub text : Text
  pub date : Option Text
  pub chat_username : Option Text
  pub link : Option Text

-- `lines[1:-1]` if the last line is a fence, and `lines[1:]` if not.
unfoldable pub without_last_fence : List Text → List Text
without_last_fence [] = []
without_last_fence (w ∷ []) = if text_eq (strip w) fence then [] else w ∷ []
without_last_fence (w ∷ v ∷ ws) = w ∷ without_last_fence (v ∷ ws)

abbrev pub inner_lines : List Text → List Text
inner_lines [] = []
inner_lines (w ∷ ws) = without_last_fence ws

-- The text that `_parse_llm_json` hands to `json.loads`.
unfoldable pub llm_json_text : Text → Text
llm_json_text raw =
    let s = strip raw in
    if starts_with fence s then strip (join (text "\n") (inner_lines (splitlines s))) else s

-- `_normalize_text`
unfoldable pub normalize_text : Option Json → Option Text → Option Text
normalize_text (some (Json.str s)) default =
    let stripped = strip s in if truthy stripped then some stripped else default
normalize_text value default = default

abbrev pub allowed_categories : List Text
allowed_categories =
    text "operations"
    ∷ text "sales"
    ∷ text "communication"
    ∷ text "analytics"
    ∷ text "automation"
    ∷ text "marketplace"
    ∷ text "hiring"
    ∷ text "finance"
    ∷ text "legal"
    ∷ text "other"
    ∷ []

abbrev pub allowed_intensities : List Text
allowed_intensities = text "low" ∷ text "medium" ∷ text "high" ∷ []

-- `s in allowed`
unfoldable pub one_of : Text → List Text → Bool
one_of s [] = false
one_of s (w ∷ ws) = text_eq s w || one_of s ws

unfoldable pub normalize_category : Option Json → Text
normalize_category value =
    let category = lower (or_empty (normalize_text value (some (text "other")))) in
    if one_of category allowed_categories then category else text "other"

unfoldable pub normalize_intensity : Option Json → Text
normalize_intensity value =
    let intensity = lower (or_empty (normalize_text value (some (text "low")))) in
    if one_of intensity allowed_intensities then intensity else text "low"

-- `raw.get("source_message_index", 0)` where it is an `int`: a `bool` is one too.
unfoldable pub index_of : Json → Option ℕ
index_of (Json.int (pos n)) = some n
index_of (Json.bool true) = some 1
index_of (Json.bool false) = some 0
index_of v = none

unfoldable pub source_message : List ChatMessage → Fields → Option ChatMessage
source_message batch raw =
    elim (index_of (get_or (text "source_message_index") (Json.int (pos 0)) raw)) [
      | none ↦ none
      | some idx ↦ get_elem? batch idx
    ]

module _ (from_iso : Text → Option DateTime) (user_id program_id : ℕ) where
  -- `_parse_message_date`
  abbrev pub message_date : Option Text → Option DateTime
  message_date none = none
  message_date (some raw) = if truthy raw then from_iso raw else none

  -- The new row, whose `id` is set when it is added to the session.
  unfoldable pub pain_row : ChatMessage → Fields → Text → Text → Pain
  pain_row msg raw pain_text quote = record {
    id = 0;
    user_id = user_id;
    program_id = program_id;
    text = pain_text;
    original_quote = quote;
    category = normalize_category (get (text "category") raw);
    intensity = normalize_intensity (get (text "intensity") raw);
    business_type = normalize_text (get (text "business_type") raw) none;
    source_chat = or_empty msg.chat_username;
    source_message_id = msg.message_id;
    source_message_link = msg.link;
    source_user_id = none;
    source_username = none;
    message_date = message_date msg.date;
    cluster_id = none;
    used_in_post = false;
  }

  -- A row of the answer, from the deduplication on.
  abbrev pub add_unless : Option Pain → Pain → PainStore × ℕ → PainStore × ℕ
  add_unless none p (s, count) = (add p s, suc count)
  add_unless (some existing) p (s, count) = (s, count)

  unfoldable pub store_pain : Pain → PainStore × ℕ → PainStore × ℕ
  store_pain p (s, count) =
      add_unless (find_recorded user_id p.source_message_id p.source_chat p.original_quote s) p
        (s, count)

  abbrev pub row_from : Option ChatMessage → Fields → PainStore × ℕ → PainStore × ℕ
  row_from none raw acc = acc
  row_from (some msg) raw acc =
      let pain_text = or_empty (normalize_text (get (text "text") raw) (some [])) in
      let quote = or_empty (normalize_text (get (text "original_quote") raw) (some [])) in
      if truthy pain_text && truthy quote
      then store_pain (pain_row msg raw pain_text quote) acc
      else acc

  -- One row; `raw.get` raises where it is no dict.
  unfoldable pub collect_row : List ChatMessage → Json → PainStore × ℕ → Option (PainStore × ℕ)
  collect_row batch (Json.obj raw) acc = some (row_from (source_message batch raw) raw acc)
  collect_row batch v acc = none

  unfoldable pub collect_rows :
      List ChatMessage → List Json → PainStore × ℕ → Option (PainStore × ℕ)
  collect_rows batch [] acc = some acc
  collect_rows batch (v ∷ vs) acc = elim (collect_row batch v acc) [
    | none ↦ none
    | some acc' ↦ collect_rows batch vs acc'
  ]

-- The rows that `_extract_pains_batch` returns, as the loop over them meets them.
abbrev pub rows_in : Json → List Json
rows_in (Json.arr xs) = items xs
rows_in (Json.str s) = map (λ c. Json.str (c ∷ [])) s
rows_in (Json.obj fs) = map Json.str (keys fs)
rows_in v = []

abbrev pub pains_of : Option Json → List Json
pains_of (some (Json.obj r)) = rows_in (get_or (text "pains") (Json.arr Items.nil) r)
pains_of v = []

module _ (loads : Text → Option Json) where
  unfoldable pub extract_pains_batch : Answer → List Json
  extract_pains_batch (Answer.raised message) = []
  extract_pains_batch (Answer.content raw) = pains_of (loads (llm_json_text raw))

-- The flush at the end of a batch.
abbrev pub flush_counted : Option (PainStore × ℕ) → Option (PainStore × ℕ)
flush_counted none = none
flush_counted (some (s, count)) = elim (flush s) [ none ↦ none | some s' ↦ some (s', count) ]

module _ (loads : Text → Option Json) (from_iso : Text → Option DateTime) (ask : ℕ → Answer)
    (batch_size user_id program_id : ℕ) where
  unfoldable pub collect_batch : ℕ → List ChatMessage → PainStore × ℕ → Option (PainStore × ℕ)
  collect_batch batch_num batch acc = flush_counted (
      collect_rows from_iso user_id program_id batch (extract_pains_batch loads (ask batch_num))
        acc)

  -- The batches from number `batch_num` on; `fuel` bounds how many are left.
  unfoldable pub collect_batches : ℕ → ℕ → List ChatMessage → PainStore × ℕ → Option (PainStore × ℕ)
  collect_batches zero batch_num messages acc = some acc
  collect_batches (suc fuel) batch_num [] acc = some acc
  collect_batches (suc fuel) batch_num (m ∷ ms) acc =
      elim (collect_batch batch_num (take batch_size (m ∷ ms)) acc) [
        | none ↦ none
        | some acc' ↦ collect_batches fuel (suc batch_num) (drop batch_size (m ∷ ms)) acc'
      ]

  -- A batch takes at least one message, so as many rounds as messages are enough.
  unfoldable pub collect_pains : Bool → List ChatMessage → PainStore → Option (PainStore × ℕ)
  collect_pains enabled all_messages s =
      if enabled then collect_batches (length all_messages) 0 all_messages (s, 0) else some (s, 0)
