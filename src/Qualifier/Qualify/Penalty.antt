-- ===== src/Qualifier/Qualify/Penalty.antt =====
-- How a call ends: with an error, or with a response whose qualification is scored.
use lead_finder.Prelude.{◌≡◌, Bool, false, ◌⊎◌, Option, none, some, []}
use lead_finder.Prelude.Text.{Text, text, lower}
use lead_finder.Json.{Json, Fields, get, get_or}
use lead_finder.Qualifier.Qualify.{Answer, or_empty_dict}
use lead_finder.Qualifier.Qualify.Scored.{IsScored}

-- A result that carries an error, and no response.
abbrev pub IsFailure : Fields → Type 0
IsFailure result =
    (e : Json) × (get (text "error") result ≡ some e) × (get (text "llm_response") result ≡ none)

-- The answers that cannot be scored: no JSON, no dict, or a qualification or a reasoning of another
-- type.
abbrev pub IsNoText : Json → Type 0
IsNoText (Json.str s) = ⊥
IsNoText v = Unit

abbrev pub HasNoReasoning : Json → Type 0
HasNoReasoning (Json.obj q) = IsNoText (get_or (text "reasoning") (Json.str []) q)
HasNoReasoning v = Unit

abbrev pub IsUnreadable : Option Json → Type 0
IsUnreadable (some (Json.obj parsed)) =
    HasNoReasoning (or_empty_dict (get (text "qualification") parsed))
IsUnreadable read = Unit

-- A result whose response holds the scored qualification.
pub record IsQualified (read : Option Json) (result : Fields) : Type 0 where
  pub parsed : Fields
  pub q : Fields
  pub reasoning : Text
  pub response : Fields
  pub scored : Fields
  pub is_dict : read ≡ some (Json.obj parsed)
  pub qualification : or_empty_dict (get (text "qualification") parsed) ≡ Json.obj q
  pub reasoned : get_or (text "reasoning") (Json.str []) q ≡ Json.str reasoning
  pub responded : get (text "llm_response") result ≡ some (Json.obj response)
  pub held : get (text "qualification") response ≡ some (Json.obj scored)
  pub is_scored : IsScored q scored (lower reasoning)

abbrev pub Outcome : Option Json → Fields → Type 0
Outcome read result = (IsUnreadable read × IsFailure result) ⊎ IsQualified read result

-- The calls that cannot be scored.
abbrev pub IsRefused : Bool → Text → Answer → Type 0
IsRefused has_llm template answer =
    (has_llm ≡ false) ⊎ ((template ≡ []) ⊎ ((message : Text) × (answer ≡ Answer.raised message)))
