-- ===== src/Qualifier/Qualify/Scored.antt =====
-- The scored qualification: which indicators its reasoning holds, and what it shows for them.
use lead_finder.Prelude.{
  ◌≡◌, refl, Bool, true, false, ◌||◌, ◌⊎◌, inl, inr, Bool-cases, none, some, List, [], ◌∷◌, arith,
  if◌then◌else◌,
}
use lead_finder.Prelude.Text.{Text, text, text_eq, contains}
use lead_finder.Json.{Json, Fields, get, get_or, put, merge, get-put}
use lead_finder.Models.Table.{All}
use lead_finder.Qualifier.Prompt.{number}
use lead_finder.Qualifier.Qualify.{
  any_in, cant_solve_indicators, vague_indicators, has_cant_solve, has_vague_reasoning,
  penalty_reason, score_qualification, scored_response, result_of,
}

-- A key that the right side lacks is read from the left.
get-merge_left : (key : Text) (d e : Fields) → get key e ≡ none → get key (merge d e) ≡ get key d
unfolding get merge
get-merge_left key d Fields.end h = refl
get-merge_left key d (Fields.field k v e) h =
    ground (arith, get-merge_left key (put k v d) e, get-put k key v d)

-- Some text of the list stands in `reasoning`, and none does.
abbrev pub Holds : List Text → Text → Type 0
Holds [] reasoning = ⊥
Holds (w ∷ ws) reasoning = (contains w reasoning ≡ true) ⊎ Holds ws reasoning

abbrev pub Lacks : List Text → Text → Type 0
Lacks ws reasoning = All (λ w. contains w reasoning ≡ false) ws

any_in-cases :
    (ws : List Text) (reasoning : Text)
    → ((any_in ws reasoning ≡ true) × Holds ws reasoning)
      ⊎ ((any_in ws reasoning ≡ false) × Lacks ws reasoning)
unfolding any_in
any_in-cases [] reasoning = inr (refl, tt)
any_in-cases (w ∷ ws) reasoning = elim (Bool-cases (contains w reasoning)) [
  | inl here ↦ inl (rw here refl, inl here)
  | inr not_here ↦ elim (any_in-cases ws reasoning) [
    | inl (e, later) ↦ inl (rw (not_here, e) refl, inr later)
    | inr (e, none_there) ↦ inr (rw (not_here, e) refl, (not_here, none_there))
  ]
]

-- What the scored qualification shows: its score, whether the penalty was applied, and why.
abbrev pub Shows : Fields → Json → Bool → Json → Type 0
Shows after score applied reason =
    (get (text "score") after ≡ some score)
    × (get (text "penalty_applied") after ≡ some (Json.bool applied))
    × (get (text "penalty_reason") after ≡ some reason)

-- An indicator of the first list takes the score away, one of the second too where there is none of
-- the first; without any, the model's score stands.
abbrev pub IsJudged : Fields → Fields → Text → Type 0
IsJudged before after reasoning =
    (Holds cant_solve_indicators reasoning
      × Shows after (number 0) true (Json.str (text "cant_solve")))
    ⊎ ((Lacks cant_solve_indicators reasoning
          × Holds vague_indicators reasoning
          × Shows after (number 0) true (Json.str (text "vague")))
        ⊎ (Lacks cant_solve_indicators reasoning
            × Lacks vague_indicators reasoning
            × Shows after (get_or (text "score") (number 0) before) false Json.null))

-- What a scored qualification says of a reasoning, in lower case.
pub record IsScored (before after : Fields) (reasoning : Text) : Type 0 where
  pub judged : IsJudged before after reasoning
  pub llm_score : get (text "llm_score") after ≡ some (get_or (text "score") (number 0) before)
  pub others :
      (key : Text)
      → text_eq (text "score") key ≡ false
      → text_eq (text "llm_score") key ≡ false
      → text_eq (text "penalty_applied") key ≡ false
      → text_eq (text "penalty_reason") key ≡ false
      → get key after ≡ get key before

score_qualification-Shows :
    (q : Fields) (reasoning : Text)
    → Shows
        (score_qualification q reasoning)
        (if has_cant_solve reasoning || has_vague_reasoning reasoning
          then number 0
          else get_or (text "score") (number 0) q)
        (has_cant_solve reasoning || has_vague_reasoning reasoning)
        (penalty_reason (has_cant_solve reasoning) (has_vague_reasoning reasoning))
unfolding score_qualification text_eq
score_qualification-Shows q reasoning = (simp get-put, simp get-put, simp get-put)

score_qualification-IsJudged :
    (q : Fields) (reasoning : Text) → IsJudged q (score_qualification q reasoning) reasoning
unfolding has_cant_solve has_vague_reasoning
score_qualification-IsJudged q reasoning =
    let shown = score_qualification-Shows q reasoning in
    elim (any_in-cases cant_solve_indicators reasoning) [
      | inl (e, unsolvable) ↦ inl (unsolvable, rw e at shown)
      | inr (e, solvable) ↦ elim (any_in-cases vague_indicators reasoning) [
        | inl (k, vague) ↦ inr (inl (solvable, vague, rw (e, k) at shown))
        | inr (k, concrete) ↦ inr (inr (solvable, concrete, rw (e, k) at shown))
      ]
    ]

pub score_qualification-IsScored :
    (q : Fields) (reasoning : Text) → IsScored q (score_qualification q reasoning) reasoning
unfolding score_qualification text_eq
score_qualification-IsScored q reasoning = record {
  judged = score_qualification-IsJudged q reasoning;
  llm_score = simp get-put;
  others = λ key a b c d. simp (get-put, a, b, c, d);
}

pub get-result_of :
    (response : Fields) (prompt : Text)
    → get (text "llm_response") response ≡ none
    → get (text "llm_response") (result_of response prompt) ≡ some (Json.obj response)
unfolding result_of get text_eq
get-result_of response prompt h = get-merge_left (text "llm_response") _ response h

-- The scored response: the parsed one but for its qualification and the summary.
pub get-scored_response :
    (parsed q : Fields) (reasoning : Text) (summary : Fields)
    → (get (text "qualification") (scored_response parsed q reasoning summary)
        ≡ some (Json.obj (score_qualification q reasoning)))
      × (get (text "llm_response") (scored_response parsed q reasoning summary)
          ≡ get (text "llm_response") parsed)
unfolding scored_response text_eq
get-scored_response parsed q reasoning summary = (simp get-put, simp get-put)
