-- ===== src/PainCollector/Tests.antt =====
-- The collection at concrete messages. The parameter `json.loads` reads one answer.
use lead_finder.Prelude.{
  ℕ, ◌≡◌, refl, true, false, Option, none, some, List, [], ◌∷◌, ◌++◌, length, if◌then◌else◌, arith,
}
use lead_finder.Prelude.Text.{Text, text, text_eq, strip, starts_with, lower}
use lead_finder.DateTime.{DateTime}
use lead_finder.Json.{Json, Items, Fields, get}
use lead_finder.Models.{Pain}
use lead_finder.Models.Table.{All, first_row}
use lead_finder.PainStore.{
  PainStore, flush, find_recorded, has_key, insert_rows, same_key, is_recorded,
}
use lead_finder.PainStore.Unique.{HasUniqueKeys}
use lead_finder.Qualifier.Qualify.{Answer}
use lead_finder.PainCollector.{
  ChatMessage, llm_json_text, normalize_text, normalize_category, normalize_intensity, one_of,
  index_of, source_message, pain_row, store_pain, collect_row, collect_rows, extract_pains_batch,
  collect_batch, collect_batches, collect_pains,
}
use lead_finder.PainCollector.Rows.{IsCollected}
use lead_finder.PainCollector.Collected.{collect_pains-IsCollected}
use lead_finder.PainCollector.Batches.{AreBatches, collect_each, collect_pains-each}
use lead_finder.PainCollector.Duplicates.{collect_batch-repeated}

abbrev message : ChatMessage
message = record {
  message_id = 31;
  text = text "no time";
  date = none;
  chat_username = some (text "shop");
  link = none;
}

-- The index is missing, so the first message of the batch is meant.
abbrev row : Fields
row =
    Fields.field (text "text") (Json.str (text "a"))
      (Fields.field (text "original_quote") (Json.str (text "b")) Fields.end)

abbrev answer_of : Items → Json
answer_of rows = Json.obj (Fields.field (text "pains") (Json.arr rows) Fields.end)

unfoldable reads : Text → Option Json
reads s =
    if text_eq s (text "1")
    then some (answer_of (Items.cons (Json.obj row) Items.nil))
    else if text_eq s (text "2")
    then some (answer_of (Items.cons (Json.obj row) (Items.cons (Json.obj row) Items.nil)))
    else none

abbrev no_date : Text → Option DateTime
no_date s = none

abbrev once : ℕ → Answer
once n = Answer.content (text "1")

abbrev twice : ℕ → Answer
twice n = Answer.content (text "2")

abbrev empty : PainStore
empty = record { stored = []; pending = []; next_id = 5 }

abbrev found : Pain
found = record {
  id = 5;
  user_id = 4;
  program_id = 8;
  text = text "a";
  original_quote = text "b";
  category = text "other";
  intensity = text "low";
  business_type = none;
  source_chat = text "shop";
  source_message_id = 31;
  source_message_link = none;
  source_user_id = none;
  source_username = none;
  message_date = none;
  cluster_id = none;
  used_in_post = false;
}

-- Two batches of one message find the same pain; the second time it is recorded.
collected :
    collect_pains reads no_date once 1 4 8 true (message ∷ message ∷ []) empty
    ≡ some (record { stored = found ∷ []; pending = []; next_id = 6 }, 1)
unfolding collect_pains collect_batches collect_batch extract_pains_batch llm_json_text strip
    starts_with reads text_eq get collect_rows collect_row source_message index_of normalize_text
    pain_row normalize_category normalize_intensity one_of lower store_pain find_recorded first_row
    is_recorded flush insert_rows has_key same_key
collected = refl

collect_pains-IsCollected_example :
    (new : List Pain) × (found ∷ [] ≡ [] ++ new)
    × (length new ≡ 1)
    × All (IsCollected 4 8) new
    × HasUniqueKeys (found ∷ [])
    × (◌≡◌ {A = List Pain} [] [])
collect_pains-IsCollected_example =
    collect_pains-IsCollected reads no_date once 1 4 8 true (message ∷ message ∷ []) empty tt refl
      collected

collect_pains-each_example :
    (batches : List (List ChatMessage)) × AreBatches 1 (message ∷ message ∷ []) batches
    × (collect_pains reads no_date once 1 4 8 true (message ∷ message ∷ []) empty
        ≡ collect_each reads no_date once 1 4 8 0 batches (empty, 0))
collect_pains-each_example =
    collect_pains-each reads no_date once 1 4 8 (message ∷ message ∷ []) empty (omega arith)

rows_twice : extract_pains_batch reads (twice 0) ≡ Json.obj row ∷ Json.obj row ∷ []
unfolding extract_pains_batch llm_json_text strip starts_with reads text_eq get
rows_twice = refl

source : source_message (message ∷ []) row ≡ some message
unfolding source_message index_of get text_eq
source = refl

collect_batch-repeated_example :
    collect_batch reads no_date twice 1 4 8 0 (message ∷ []) (empty, 0) ≡ none
collect_batch-repeated_example =
    collect_batch-repeated reads no_date twice 1 4 8 0 (message ∷ []) message row (text "a")
      (text "b") empty 0 rows_twice source (unfold get text_eq normalize_text strip in refl)
      (unfold get text_eq normalize_text strip in refl) refl
      (unfold find_recorded first_row in refl) refl
