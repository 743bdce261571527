-- ===== src/Qualifier/Batch/Fallback.antt =====
-- Every outcome of a batch is usable: an error has an empty list of leads, and any other response
-- comes from an answer.
use lead_finder.Prelude.{
  ℕ, ◌≡◌, refl, Bool, true, false, Option, none, some, [], ◌∷◌, arith, Option-cases, inl, inr, ◌⊎◌,
  ◌↔◌,
}
use lead_finder.Prelude.Text.{Text, text, text_eq, strip}
use lead_finder.Json.{Json, Items, Fields, get}
use lead_finder.Qualifier.Payload.{extract_json_payload}
use lead_finder.Qualifier.Recovery.{recover_partial_batch_response}
use lead_finder.Qualifier.Qualify.{Answer}
use lead_finder.Qualifier.Batch.{
  failure, decode_failure, Reading, read_json, retry, retry_reading, or_decode_failure, or_retry,
  first_reading, batch_analyze_chat,
}

-- An error: it is marked as one, and its list of leads is empty.
abbrev pub IsFailure : Fields → Type 0
IsFailure r =
    ((v : Json) × (get (text "error") r ≡ some v))
    × (get (text "potential_leads") r ≡ some (Json.arr Items.nil))

failure-IsFailure : (message : Text) → IsFailure (failure message)
unfolding get failure text_eq
failure-IsFailure message = ((Json.str message, refl), refl)

decode_failure-IsFailure : (raw : Text) → IsFailure (decode_failure raw)
unfolding get decode_failure text_eq
decode_failure-IsFailure raw = ((Json.str (text "JSONDecodeError"), refl), refl)

read_json-parsed :
    (v : Option Json) (fs : Fields) → read_json v ≡ Reading.parsed fs → v ≡ some (Json.obj fs)
unfolding read_json
read_json-parsed none fs h = ground arith
read_json-parsed (some (Json.obj gs)) fs h = ground arith
read_json-parsed (some v) fs h = ground arith

recover-nil :
    (loads : Text → Option Json) (count : ℕ) → recover_partial_batch_response loads [] count ≡ none
unfolding recover_partial_batch_response strip
recover-nil loads count = refl

-- Where a response that is no error comes from: an answer that was parsed, or one that was
-- recovered.
abbrev pub ComesFrom : (Text → Option Json) → ℕ → Text → Fields → Type 0
ComesFrom loads count raw r =
    (loads (extract_json_payload raw) ≡ some (Json.obj r))
    ⊎ (recover_partial_batch_response loads raw count ≡ some r)

abbrev pub IsUsable : (Text → Option Json) → ℕ → Answer → Answer → Fields → Type 0
IsUsable loads count first second r =
    IsFailure r
    ⊎ ((raw : Text) × ((first ≡ Answer.content raw) ⊎ (second ≡ Answer.content raw))
        × ComesFrom loads count raw r)

module _ (loads : Text → Option Json) (count : ℕ) where
  or_decode_failure-IsUsable :
      (raw again : Text) (o : Option Fields)
      → recover_partial_batch_response loads again count ≡ o
      → IsUsable loads count
          (Answer.content raw)
          (Answer.content again)
          (or_decode_failure raw o).response
  or_decode_failure-IsUsable raw again none e = inl (decode_failure-IsFailure raw)
  or_decode_failure-IsUsable raw again (some r) e = inr (again, inr refl, inr e)

  retry_reading-IsUsable :
      (raw again : Text) (r : Reading)
      → read_json (loads (extract_json_payload again)) ≡ r
      → IsUsable loads count
          (Answer.content raw)
          (Answer.content again)
          (retry_reading loads count raw again r).response
  retry_reading-IsUsable raw again (Reading.parsed fs) e =
      inr (again, inr refl, inl (read_json-parsed (loads (extract_json_payload again)) fs e))
  retry_reading-IsUsable raw again _ e =
      or_decode_failure-IsUsable raw again (recover_partial_batch_response loads again count) refl

  retry-IsUsable :
      (raw : Text) (second : Answer)
      → IsUsable loads count (Answer.content raw) second (retry loads count raw second).response
  unfolding retry
  retry-IsUsable raw (Answer.raised message) =
      rw (recover-nil loads count) (inl (decode_failure-IsFailure raw))
  retry-IsUsable raw (Answer.content again) =
      retry_reading-IsUsable raw again (read_json (loads (extract_json_payload again))) refl

  or_retry-IsUsable :
      (raw : Text) (second : Answer) (o : Option Fields)
      → recover_partial_batch_response loads raw count ≡ o
      → IsUsable loads count
          (Answer.content raw)
          second
          (or_retry loads count raw second o).response
  or_retry-IsUsable raw second none e = retry-IsUsable raw second
  or_retry-IsUsable raw second (some r) e = inr (raw, inl refl, inr e)

  first_reading-IsUsable :
      (raw : Text) (second : Answer) (r : Reading)
      → read_json (loads (extract_json_payload raw)) ≡ r
      → IsUsable loads count
          (Answer.content raw)
          second
          (first_reading loads count raw second r).response
  first_reading-IsUsable raw second (Reading.parsed fs) e =
      inr (raw, inl refl, inl (read_json-parsed (loads (extract_json_payload raw)) fs e))
  first_reading-IsUsable raw second (Reading.failed message) e = inl (failure-IsFailure message)
  first_reading-IsUsable raw second Reading.undecodable e =
      or_retry-IsUsable raw second (recover_partial_batch_response loads raw count) refl

  -- Whatever the model answers, and also when it raises both times, the outcome is an error with an
  -- empty list of leads, a dict that one of its answers was parsed to, or a response recovered from
  -- one of its answers.
  pub batch_analyze_chat-IsUsable :
      (has_llm : Bool) (template : Text) (first second : Answer)
      → IsUsable loads count first second
          (batch_analyze_chat loads count has_llm template first second).response
  unfolding batch_analyze_chat
  batch_analyze_chat-IsUsable false template first second =
      inl (failure-IsFailure (text "LLM client is not initialized."))
  batch_analyze_chat-IsUsable true [] first second =
      inl (failure-IsFailure (text "Could not load batch analysis prompt."))
  batch_analyze_chat-IsUsable true (c ∷ template) (Answer.raised message) second =
      inl (failure-IsFailure message)
  batch_analyze_chat-IsUsable true (c ∷ template) (Answer.content raw) second =
      first_reading-IsUsable raw second (read_json (loads (extract_json_payload raw))) refl

  retry-calls : (raw : Text) (second : Answer) → (retry loads count raw second).calls ≡ 2
  unfolding retry
  retry-calls raw (Answer.raised message) = ground arith
  retry-calls raw (Answer.content again) = ground arith

  first_reading-calls :
      (raw : Text) (second : Answer) (v : Option Json)
      → let o = first_reading loads count raw second (read_json v) in
        ((o.calls ≡ 2) ↔ ((v ≡ none) × (recover_partial_batch_response loads raw count ≡ none)))
        × ((o.calls ≡ 1) ⊎ (o.calls ≡ 2))
  unfolding read_json
  first_reading-calls raw second none =
      elim (Option-cases (recover_partial_batch_response loads raw count)) [
        | inl lost ↦ ground (arith, retry-calls raw second)
        | inr (r, e) ↦ ground arith
      ]
  first_reading-calls raw second (some (Json.obj fs)) = ground arith
  first_reading-calls raw second (some v) = ground arith

  -- The model is asked again exactly when its first answer is no JSON and holds no lead that could
  -- be recovered, and then once.
  pub batch_analyze_chat-calls :
      (c : ℕ) (template raw : Text) (second : Answer)
      → let o = batch_analyze_chat loads count true (c ∷ template) (Answer.content raw) second in
        ((o.calls ≡ 2) ↔ (
          (loads (extract_json_payload raw) ≡ none)
          × (recover_partial_batch_response loads raw count ≡ none)))
        × ((o.calls ≡ 1) ⊎ (o.calls ≡ 2))
  unfolding batch_analyze_chat
  batch_analyze_chat-calls c template raw second =
      first_reading-calls raw second (loads (extract_json_payload raw))
