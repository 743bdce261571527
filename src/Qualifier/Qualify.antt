-- ===== src/Qualifier/Qualify.antt =====
-- `qualify_lead`: the score of the model's answer, with the penalty for vague or unsolvable pains.
-- `json.loads` is the parameter `loads`, and the answer of the model an argument.
pub mod Scored
pub mod Penalty
use lead_finder.Prelude.{
  ℕ, Bool, true, false, ◌||◌, not, Option, none, some, List, [], ◌∷◌, ◌++◌, if◌then◌else◌,
}
use lead_finder.Prelude.Text.{Text, text, truthy, contains, lower, text_eq}
use lead_finder.Json.{Json, Items, Fields, get, get_or, put, merge, truth}
use lead_finder.Qualifier.Payload.{extract_json_payload}
use lead_finder.Qualifier.Prompt.{Candidate, input_data, freshness_summary, number}

-- What `llm.invoke` did: the content of its response, or the message of its exception.
pub data Answer : Type 0 where
  content raised : Text → Answer

abbrev pub cant_solve_indicators : List Text
cant_solve_indicators =
    text "не можем решить"
    ∷ text "не можем сделать"
    ∷ text "не можем закрыть"
    ∷ text "не решается ботом"
    ∷ text "не решается нашим"
    ∷ text "не решается telegram"
    ∷ text "не подходит для бота"
    ∷ text "бот не может"
    ∷ text "бот не решает"
    ∷ text "нет api"
    ∷ text "недоступен api"
    ∷ text "api отсутствует"
    ∷ text "нет доступа к api"
    ∷ text "нет интеграции"
    ∷ text "недоступна интеграция"
    ∷ text "методологическая проблема"
    ∷ text "бухгалтерская проблема"
    ∷ text "не процесс"
    ∷ text "не решается через"
    ∷ text "недоступных api"
    ∷ text "нужна интеграция с"
    ∷ text "требует интеграции с"
    ∷ text "нет конкретной боли"
    ∷ text "не выявлено конкретной боли"
    ∷ text "боли не выявлено"
    ∷ text "боли отсутствуют"
    ∷ []

abbrev pub vague_indicators : List Text
vague_indicators =
    text "нет болей"
    ∷ text "нет прямых болей"
    ∷ text "не видно болей"
    ∷ text "боли предполагаемые"
    ∷ text "боли не очевидны"
    ∷ text "типичные боли"
    ∷ text "вероятные боли"
    ∷ text "косвенные боли"
    ∷ text "боли типичные для"
    ∷ text "предположительно"
    ∷ text "вероятно владелец"
    ∷ []

-- `any(indicator in reasoning for indicator in indicators)`
unfoldable pub any_in : List Text → Text → Bool
any_in [] reasoning = false
any_in (w ∷ ws) reasoning = contains w reasoning || any_in ws reasoning

unfoldable pub has_cant_solve : Text → Bool
has_cant_solve reasoning = any_in cant_solve_indicators reasoning

unfoldable pub has_vague_reasoning : Text → Bool
has_vague_reasoning reasoning = any_in vague_indicators reasoning

abbrev pub penalty_reason : Bool → Bool → Json
penalty_reason true vague = Json.str (text "cant_solve")
penalty_reason false true = Json.str (text "vague")
penalty_reason false false = Json.null

-- The four keys that are written to `qualification`.
unfoldable pub score_qualification : Fields → Text → Fields
score_qualification qualification reasoning =
    let llm_score = get_or (text "score") (number 0) qualification in
    let cant_solve = has_cant_solve reasoning in
    let vague = has_vague_reasoning reasoning in
    let final_score = if cant_solve || vague then number 0 else llm_score in
    put (text "penalty_reason") (penalty_reason cant_solve vague) (
      put (text "penalty_applied") (Json.bool (cant_solve || vague))
        (put (text "score") final_score (put (text "llm_score") llm_score qualification)))

unfoldable pub error_result : Text → Fields
error_result message = Fields.field (text "error") (Json.str message) Fields.end

-- The type's name, as an `AttributeError` shows it.
abbrev pub type_name : Json → Text
type_name Json.null = text "NoneType"
type_name (Json.bool b) = text "bool"
type_name (Json.int n) = text "int"
type_name (Json.float m e) = text "float"
type_name (Json.str s) = text "str"
type_name (Json.arr xs) = text "list"
type_name (Json.obj fs) = text "dict"

abbrev pub attribute_error : Json → Text → Fields
attribute_error v name =
    error_result
      (text "'" ++ (type_name v ++ (text "' object has no attribute '" ++ (name ++ text "'"))))

-- The parsed response with the scored qualification and the summary.
unfoldable pub scored_response : Fields → Fields → Text → Fields → Fields
scored_response parsed qualification reasoning summary =
    put (text "freshness_summary") (Json.obj summary)
      (put (text "qualification") (Json.obj (score_qualification qualification reasoning)) parsed)

-- The result of a scored answer, whose fields are flattened over the first two.
unfoldable pub result_of : Fields → Text → Fields
result_of response prompt =
    merge
      (Fields.field (text "llm_response") (Json.obj response)
        (Fields.field (text "raw_input_prompt") (Json.str prompt) Fields.end))
      response

-- From `qualification.get("reasoning", "").lower()` on.
unfoldable pub score_reasoning : Fields → Fields → Json → Fields → Text → Fields
score_reasoning parsed qualification (Json.str reasoning) summary prompt =
    result_of (scored_response parsed qualification (lower reasoning) summary) prompt
score_reasoning parsed qualification v summary prompt = attribute_error v (text "lower")

-- `parsed_response.get("qualification") or {}`
unfoldable pub or_empty_dict : Option Json → Json
or_empty_dict none = Json.obj Fields.end
or_empty_dict (some v) = if truth v then v else Json.obj Fields.end

unfoldable pub score_qualified : Fields → Json → Fields → Text → Fields
score_qualified parsed (Json.obj qualification) summary prompt =
    score_reasoning parsed qualification (get_or (text "reasoning") (Json.str []) qualification)
      summary prompt
score_qualified parsed v summary prompt = attribute_error v (text "get")

-- The response, parsed; `none` is the `JSONDecodeError`.
unfoldable pub score_parsed : Option Json → Text → Fields → Text → Fields
score_parsed none raw summary prompt =
    Fields.field (text "error") (Json.str (text "JSONDecodeError"))
      (Fields.field (text "raw_response") (Json.str raw) Fields.end)
score_parsed (some (Json.obj parsed)) raw summary prompt =
    score_qualified parsed (or_empty_dict (get (text "qualification") parsed)) summary prompt
score_parsed (some v) raw summary prompt = attribute_error v (text "get")

module _ (loads : Text → Option Json) where
  -- `has_llm` is `llm` being there, and `template` the text of the prompt file.
  unfoldable pub qualify_lead : Bool → Text → Candidate → Text → Answer → Fields
  qualify_lead false template candidate niche answer =
      error_result (text "LLM client is not initialized.")
  qualify_lead true [] candidate niche answer =
      error_result (text "Could not load qualification prompt.")
  qualify_lead true (c ∷ template) candidate niche (Answer.raised message) = error_result message
  qualify_lead true (c ∷ template) candidate niche (Answer.content raw) =
      score_parsed (loads (extract_json_payload raw)) raw
        (freshness_summary candidate.messages_with_metadata) (input_data candidate niche)
