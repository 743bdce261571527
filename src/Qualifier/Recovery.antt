-- ===== src/Qualifier/Recovery.antt =====
-- `_recover_partial_batch_response`: the complete objects of a `potential_leads` array in an answer
-- that was cut. `json.loads` is the parameter `loads`; `none` is its `JSONDecodeError`.
pub mod Syntax
pub mod Object
pub mod Sound
use lead_finder.Prelude.{
  ℕ, zero, suc, ◌+◌, ◌-◌, Bool, true, false, ◌&&◌, Option, none, some, List, [], ◌∷◌, ◌++◌, ◌==◌,
  if◌then◌else◌, take, drop, length, ltb,
}
use lead_finder.Prelude.Int.{pos}
use lead_finder.Prelude.Text.{Text, text, strip, starts_with, truthy}
use lead_finder.Json.{Json, Items, Fields, get, truth}

-- `s[a:b]` for `a <= b`
unfoldable pub slice : ℕ → ℕ → Text → Text
slice a b s = take (b - a) (drop a s)

-- `s.find(p)`; `none` is -1.
unfoldable pub find : Text → Text → Option ℕ
unfolding starts_with
find p [] = if starts_with p [] then some 0 else none
find p (c ∷ s) =
    let rest = find p s in
    if starts_with p (c ∷ s) then some 0 else elim rest [ none ↦ none | some i ↦ some (suc i) ]

-- `s.find(p, start)`
unfoldable pub find_from : Text → ℕ → Text → Option ℕ
unfolding find
find_from p start s = elim (find p (drop start s)) [ none ↦ none | some i ↦ some (start + i) ]

-- The variables of the loop; `obj_start` is `none` for -1.
pub record Scan : Type 0 where
  pub leads : List Fields
  pub depth : ℕ
  pub obj_start : Option ℕ
  pub in_string : Bool
  pub escaped : Bool

abbrev pub before_array : Scan
before_array = record {
  leads = [];
  depth = 0;
  obj_start = none;
  in_string = false;
  escaped = false;
}

-- `isinstance(obj, dict) and obj.get("username")`
unfoldable pub as_lead : Option Json → Option Fields
as_lead (some (Json.obj fs)) = elim (get (text "username") fs) [
  | none ↦ none
  | some name ↦ if truth name then some fs else none
]
as_lead _ = none

unfoldable pub add_lead : List Fields → Option Fields → List Fields
add_lead leads none = leads
add_lead leads (some lead) = leads ++ lead ∷ []

abbrev pub lead_items : List Fields → Items
lead_items [] = Items.nil
lead_items (l ∷ ls) = Items.cons (Json.obj l) (lead_items ls)

-- The response that is put together from the recovered leads.
unfoldable pub recovered_response : ℕ → List Fields → Fields
recovered_response analyzed_count leads =
    let selected = Json.int (pos (length leads)) in
    let analyzed = Json.int (pos analyzed_count) in
    Fields.field (text "total_messages_analyzed") analyzed (
      Fields.field (text "potential_leads") (Json.arr (lead_items leads)) (
        Fields.field (text "filtering_stats")
          (Json.obj (
            Fields.field (text "analyzed") analyzed (
              Fields.field (text "with_business_signals") selected (
                Fields.field (text "with_pain_signals") selected
                  (Fields.field (text "selected_for_detailed_analysis") selected Fields.end)))))
          (Fields.field (text "recovered_from_truncated_json") (Json.bool true) Fields.end)))

-- `if not leads: return None`
unfoldable pub respond : ℕ → List Fields → Option Fields
respond analyzed_count [] = none
respond analyzed_count (l ∷ ls) = some (recovered_response analyzed_count (l ∷ ls))

-- The index of the array's `[`.
unfoldable pub find_array : Text → Option ℕ
find_array s = elim (find (text "\"potential_leads\"") s) [
  | none ↦ none
  | some arr_idx ↦ find_from (text "[") arr_idx s
]

module _ (loads : Text → Option Json) where
  -- `}` at depth 1: the object that began at `start` is complete.
  unfoldable pub close_object : Text → ℕ → Scan → Option ℕ → Scan
  close_object whole i s none = record s { depth = 0 }
  close_object whole i s (some start) = record s {
    leads = add_lead s.leads (as_lead (loads (slice start (i + 1) whole)));
    depth = 0;
    obj_start = none;
  }

  unfoldable pub close_brace : Text → ℕ → Scan → ℕ → Scan
  close_brace whole i s zero = s
  close_brace whole i s (suc zero) = close_object whole i s s.obj_start
  close_brace whole i s (suc (suc d)) = record s { depth = suc d }

  -- One character inside a string.
  unfoldable pub string_char : ℕ → Scan → Scan
  string_char ch s =
      if s.escaped
      then record s { escaped = false }
      else if ch == b'\\'
      then record s { escaped = true }
      else if ch == b'"'
      then record s { in_string = false }
      else s

  -- One character outside a string; `none` is the `break`.
  unfoldable pub plain_char : Text → ℕ → ℕ → Scan → Option Scan
  plain_char whole i ch s =
      if ch == b'"'
      then some (record s { in_string = true })
      else if ch == b'{'
      then some (record s {
        depth = suc s.depth;
        obj_start = if s.depth == 0 then some i else s.obj_start;
      })
      else if ch == b'}'
      then some (close_brace whole i s s.depth)
      else if ch == b']' && s.depth == 0
      then none
      else some s

  unfoldable pub scan_char : Text → ℕ → ℕ → Scan → Option Scan
  scan_char whole i ch s = if s.in_string then some (string_char ch s) else plain_char whole i ch s

  -- `while i < len(text)`, where `rest` is `text[i:]`.
  unfoldable pub scan : Text → ℕ → Text → Scan → Scan
  scan whole i [] s = s
  scan whole i (ch ∷ rest) s = elim (scan_char whole i ch s) [
    | none ↦ s
    | some s' ↦ scan whole (suc i) rest s'
  ]

  unfoldable pub recover_partial_batch_response : Text → ℕ → Option Fields
  recover_partial_batch_response raw analyzed_count =
      let s = strip raw in
      if truthy s
      then elim (find_array s) [
        | none ↦ none
        | some arr_start ↦
            respond analyzed_count
              (scan s (arr_start + 1) (drop (arr_start + 1) s) before_array).leads
      ]
      else none
