-- ===== src/Qualifier/Batch.antt =====
-- `batch_analyze_chat`: one answer about a whole chat, its recovery when it was cut, and one retry.
pub mod Recovered
pub mod Fallback
use lead_finder.Prelude.{ℕ, Bool, true, false, Option, none, some, List, [], ◌∷◌, ◌++◌}
use lead_finder.Prelude.Text.{Text, text}
use lead_finder.Json.{Json, Items, Fields, get_or}
use lead_finder.Qualifier.Payload.{extract_json_payload}
use lead_finder.Qualifier.Recovery.{recover_partial_batch_response}
use lead_finder.Qualifier.Qualify.{Answer, type_name}

-- The returned dict, and how often the model was asked.
pub record Outcome : Type 0 where
  pub calls : ℕ
  pub response : Fields

-- `{"error": message, "potential_leads": []}`
unfoldable pub failure : Text → Fields
failure message =
    Fields.field (text "error") (Json.str message)
      (Fields.field (text "potential_leads") (Json.arr Items.nil) Fields.end)

unfoldable pub decode_failure : Text → Fields
decode_failure raw = Fields.field (text "error") (Json.str (text "JSONDecodeError")) (
    Fields.field (text "raw_response") (Json.str raw)
      (Fields.field (text "potential_leads") (Json.arr Items.nil) Fields.end))

-- How an answer reads: it is no JSON, another exception is raised, or it is a dict.
pub data Reading : Type 0 where
  undecodable : Reading
  failed : Text → Reading
  parsed : Fields → Reading

-- `len(v)` is defined.
abbrev pub has_len : Json → Bool
has_len (Json.str s) = true
has_len (Json.arr xs) = true
has_len (Json.obj fs) = true
has_len v = false

-- `len(parsed_response.get('potential_leads', []))` in the log line raises for some values.
abbrev pub read_leads : Fields → Json → Bool → Reading
read_leads fs v true = parsed fs
read_leads fs v false = failed (text "object of type '" ++ (type_name v ++ text "' has no len()"))

unfoldable pub read_json : Option Json → Reading
read_json none = undecodable
read_json (some (Json.obj fs)) =
    let leads = get_or (text "potential_leads") (Json.arr Items.nil) fs in
    read_leads fs leads (has_len leads)
read_json (some v) = failed (text "'" ++ (type_name v ++ text "' object has no attribute 'get'"))

abbrev pub or_decode_failure : Text → Option Fields → Outcome
or_decode_failure raw none = record { calls = 2; response = decode_failure raw }
or_decode_failure raw (some recovered) = record { calls = 2; response = recovered }

module _ (loads : Text → Option Json) (message_count : ℕ) where
  -- The retry, after the first answer `raw`.
  abbrev pub retry_reading : Text → Text → Reading → Outcome
  retry_reading raw retry_raw (parsed fs) = record { calls = 2; response = fs }
  retry_reading raw retry_raw _ =
      or_decode_failure raw (recover_partial_batch_response loads retry_raw message_count)

  unfoldable pub retry : Text → Answer → Outcome
  retry raw (Answer.raised message) =
      or_decode_failure raw (recover_partial_batch_response loads [] message_count)
  retry raw (Answer.content retry_raw) =
      retry_reading raw retry_raw (read_json (loads (extract_json_payload retry_raw)))

  abbrev pub or_retry : Text → Answer → Option Fields → Outcome
  or_retry raw second (some recovered) = record { calls = 1; response = recovered }
  or_retry raw second none = retry raw second

  abbrev pub first_reading : Text → Answer → Reading → Outcome
  first_reading raw second (parsed fs) = record { calls = 1; response = fs }
  first_reading raw second (failed message) = record { calls = 1; response = failure message }
  first_reading raw second undecodable =
      or_retry raw second (recover_partial_batch_response loads raw message_count)

  -- `second` is what the model answers if it is asked again.
  unfoldable pub batch_analyze_chat : Bool → Text → Answer → Answer → Outcome
  batch_analyze_chat false template first second = record {
    calls = 0;
    response = failure (text "LLM client is not initialized.");
  }
  batch_analyze_chat true [] first second = record {
    calls = 0;
    response = failure (text "Could not load batch analysis prompt.");
  }
  batch_analyze_chat true (c ∷ template) (Answer.raised message) second = record {
    calls = 1;
    response = failure message;
  }
  batch_analyze_chat true (c ∷ template) (Answer.content raw) second =
      first_reading raw second (read_json (loads (extract_json_payload raw)))
