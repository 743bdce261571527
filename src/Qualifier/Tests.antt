-- ===== src/Qualifier/Tests.antt =====
-- The reading of answers at concrete texts. The parameter `json.loads` reads one lead.
use lead_finder.Prelude.{
  ◌≡◌, ◌↔◌, ◌⊎◌, refl, true, Option, none, some, List, [], ◌∷◌, ◌++◌, if◌then◌else◌,
}
use lead_finder.Prelude.Int.{pos}
use lead_finder.Prelude.Text.{Text, text, text_eq, strip, lacks, starts_with}
use lead_finder.Json.{Json, Fields, get}
use lead_finder.Models.Table.{All}
use lead_finder.Qualifier.Payload.{extract_json_payload, unfence, rfind}
use lead_finder.Qualifier.Payload.Widest.{
  cut_plain, extract_json_payload-plain, extract_json_payload-widest,
}
use lead_finder.Qualifier.Recovery.{
  find, find_from, find_array, as_lead, add_lead, lead_items, respond, recovered_response, scan,
  scan_char, plain_char, string_char, close_brace, close_object, slice,
  recover_partial_batch_response,
}
use lead_finder.Qualifier.Recovery.Syntax.{Quoted, Body, Open, Cut, Elements, Tail, collect}
use lead_finder.Qualifier.Recovery.Sound.{recover_exact}
use lead_finder.Qualifier.Prompt.{Candidate}
use lead_finder.Qualifier.Qualify.{Answer, qualify_lead}
use lead_finder.Qualifier.Batch.{batch_analyze_chat}
use lead_finder.Qualifier.Batch.Recovered.{HasUsername, recover-HasUsername}
use lead_finder.Qualifier.Batch.Fallback.{
  IsUsable, batch_analyze_chat-IsUsable, batch_analyze_chat-calls,
}

abbrev lead_text : Text
lead_text = text "{\"username\": \"}a\"}"

abbrev lead : Fields
lead = Fields.field (text "username") (Json.str (text "}a")) Fields.end

-- Reads the lead, and an answer that is scored.
abbrev scored_text : Text
scored_text = text "{q}"

abbrev qualification : Fields
qualification =
    Fields.field (text "score") (Json.int (pos 4))
      (Fields.field (text "reasoning") (Json.str (text "Нет API")) Fields.end)

abbrev answer : Fields
answer = Fields.field (text "qualification") (Json.obj qualification) Fields.end

unfoldable reads : Text → Option Json
reads s =
    if text_eq s lead_text
    then some (Json.obj lead)
    else if text_eq s scored_text
    then some (Json.obj answer)
    else none

-- An answer that is cut in the name of its second lead.
abbrev opening : Text
opening = text "{\"potential_leads\": ["

abbrev cut_answer : Text
cut_answer = opening ++ (lead_text ++ text ", {\"user")

abbrev elements : Elements
elements =
    Elements.object
      (Body.quoted
        (Quoted.char b'u' (
          Quoted.char b's' (
            Quoted.char b'e' (
              Quoted.char b'r' (
                Quoted.char b'n'
                  (Quoted.char b'a' (Quoted.char b'm' (Quoted.char b'e' Quoted.close))))))))
        (Body.plain b':' (
          Body.plain b' '
            (Body.quoted (Quoted.char b'}' (Quoted.char b'a' Quoted.close)) Body.end))))
      (Elements.space b',' (Elements.space b' ' Elements.none))

abbrev rest : Tail
rest = Tail.cut (
    Cut.in_string Body.end
      (Open.char b'u' (Open.char b's' (Open.char b'e' (Open.char b'r' Open.stop)))))

stripped_cut : strip cut_answer ≡ cut_answer
unfolding strip
stripped_cut = refl

cut_array : find_array (strip cut_answer) ≡ some 20
unfolding find_array find find_from starts_with strip
cut_array = refl

recover_exact_example :
    recover_partial_batch_response reads cut_answer 5 ≡ respond 5 (collect reads [] elements)
recover_exact_example =
    recover_exact reads cut_answer opening elements rest 5 20
      (
        (
          (refl, (refl, (refl, (refl, (refl, (refl, (refl, (refl, tt)))))))),
          (refl, (refl, ((refl, (refl, tt)), tt))),
        ),
        (refl, refl, (refl, refl, tt)),
      )
      (tt, (refl, (refl, (refl, (refl, tt))))) stripped_cut cut_array refl

recovered :
    recover_partial_batch_response reads cut_answer 5 ≡ some (recovered_response 5 (lead ∷ []))
unfolding recover_partial_batch_response strip find_array find find_from starts_with scan scan_char
    plain_char string_char close_brace close_object slice as_lead add_lead respond reads text_eq get
recovered = refl

recover-HasUsername_example :
    (l : Fields) × (ls : List Fields) × (get
        (text "potential_leads")
        (recovered_response 5 (lead ∷ []))
      ≡ some (Json.arr (lead_items (l ∷ ls))))
    × All HasUsername (l ∷ ls)
recover-HasUsername_example = recover-HasUsername reads cut_answer 5 recovered

abbrev prose : Text
prose = text "So: {\"a\": {}} ok"

unfenced_prose : unfence (strip prose) ≡ prose
unfolding unfence strip starts_with
unfenced_prose = refl

lacks_opening : lacks b'{' (text "So: ") ≡ true
unfolding lacks
lacks_opening = refl

lacks_closing : lacks b'}' (text " ok") ≡ true
unfolding lacks
lacks_closing = refl

extract_json_payload-widest_example : extract_json_payload prose ≡ text "{\"a\": {}}"
extract_json_payload-widest_example =
    extract_json_payload-widest prose (text "So: ") (text "\"a\": {}") (text " ok") lacks_opening
      lacks_closing unfenced_prose

extract_json_payload-plain_example :
    extract_json_payload prose
    ≡ cut_plain
        (unfence (strip prose))
        (find (text "{") (unfence (strip prose)))
        (rfind b'}' (unfence (strip prose)))
extract_json_payload-plain_example = extract_json_payload-plain prose

abbrev candidate : Candidate
candidate = record {
  user_id = 9;
  username = some (text "anna");
  first_name = none;
  last_name = none;
  bio = none;
  source_chat = text "@shop";
  source_chat_username = some (text "shop");
  messages_in_chat = 2;
  messages_with_metadata = [];
}

abbrev scored_result : Fields
scored_result =
    qualify_lead reads true (b'p' ∷ []) candidate (text "niche") (Answer.content scored_text)

batch_analyze_chat-IsUsable_example :
    IsUsable reads 5
      (Answer.content cut_answer)
      (Answer.raised [])
      (batch_analyze_chat reads 5 true
        (b'p' ∷ [])
        (Answer.content cut_answer)
        (Answer.raised [])).response
batch_analyze_chat-IsUsable_example =
    batch_analyze_chat-IsUsable reads 5 true (b'p' ∷ []) (Answer.content cut_answer)
      (Answer.raised [])

batch_analyze_chat-calls_example :
    (((batch_analyze_chat reads 5 true
          (b'p' ∷ [])
          (Answer.content cut_answer)
          (Answer.raised [])).calls
        ≡ 2)
      ↔ ((reads (extract_json_payload cut_answer) ≡ none)
          × (recover_partial_batch_response reads cut_answer 5 ≡ none)))
    × (((batch_analyze_chat reads 5 true
            (b'p' ∷ [])
            (Answer.content cut_answer)
            (Answer.raised [])).calls
          ≡ 1)
        ⊎ ((batch_analyze_chat reads 5 true
              (b'p' ∷ [])
              (Answer.content cut_answer)
              (Answer.raised [])).calls
            ≡ 2))
batch_analyze_chat-calls_example =
    batch_analyze_chat-calls reads 5 b'p' [] cut_answer (Answer.raised [])
