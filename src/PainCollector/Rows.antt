-- ===== src/PainCollector/Rows.antt =====
-- The rows that the answers of a collection add: counted, and each of them well formed.
use mathlib.Core.List.{append_assoc}
use lead_finder.Prelude.{
  ℕ, suc, ◌≡◌, refl, sym, ◌∙◌, ap, subst, true, ◌&&◌, Option, none, some, List, [], ◌∷◌, ◌++◌,
  arith, eq_of_some, Option-cases, Bool-cases, inl, inr, length, length-append, if◌then◌else◌,
}
use lead_finder.Prelude.Text.{Text, text, text_eq, truthy, or_empty, lower}
use lead_finder.DateTime.{DateTime}
use lead_finder.Json.{Json, Fields, get}
use lead_finder.Models.{Pain}
use lead_finder.Models.Table.{All, All-append}
use lead_finder.PainStore.{PainStore, numbered, add, find_recorded}
use lead_finder.PainStore.Unique.{HasUniqueKeys}
use lead_finder.PainCollector.{
  ChatMessage, normalize_text, normalize_category, normalize_intensity, allowed_categories,
  allowed_intensities, one_of, source_message, pain_row, store_pain, row_from, collect_row,
  collect_rows,
}

one_of-default :
    (s d : Text) (ws : List Text)
    → one_of d ws ≡ true
    → one_of (if one_of s ws then s else d) ws ≡ true
one_of-default s d ws h = elim (Bool-cases (one_of s ws)) [
  | inl allowed ↦ rw allowed allowed
  | inr other ↦ rw other h
]

-- A value outside the allowed ones is replaced by one of them.
normalize_category-one_of :
    (v : Option Json) → one_of (normalize_category v) allowed_categories ≡ true
unfolding normalize_category
normalize_category-one_of v =
    one_of-default (lower (or_empty (normalize_text v (some (text "other"))))) (text "other")
      allowed_categories (unfold one_of text_eq in refl)

normalize_intensity-one_of :
    (v : Option Json) → one_of (normalize_intensity v) allowed_intensities ≡ true
unfolding normalize_intensity
normalize_intensity-one_of v =
    one_of-default (lower (or_empty (normalize_text v (some (text "low"))))) (text "low")
      allowed_intensities (unfold one_of text_eq in refl)

-- A row that a user's collection adds for a program.
pub record IsCollected (user_id program_id : ℕ) (p : Pain) : Type 0 where
  pub owner : p.user_id ≡ user_id
  pub program : p.program_id ≡ program_id
  pub category : one_of p.category allowed_categories ≡ true
  pub intensity : one_of p.intensity allowed_intensities ≡ true
  pub has_text : truthy p.text ≡ true
  pub has_quote : truthy p.original_quote ≡ true
  pub unclustered : p.cluster_id ≡ none

module _ (user_id program_id : ℕ) where
  -- The rows that a run has added so far to those it found, flushed or not.
  pub record Grown (start : List Pain) (acc : PainStore × ℕ) : Type 0 where
    pub new : List Pain
    pub rows : acc.0.stored ++ acc.0.pending ≡ start ++ new
    pub counted : length new ≡ acc.1
    pub collected : All (IsCollected user_id program_id) new
    pub unique : HasUniqueKeys acc.0.stored

  numbered-IsCollected :
      (s : PainStore) (p : Pain)
      → IsCollected user_id program_id p
      → IsCollected user_id program_id (numbered s p)
  numbered-IsCollected s p h = record {
    owner = h.owner;
    program = h.program;
    category = h.category;
    intensity = h.intensity;
    has_text = h.has_text;
    has_quote = h.has_quote;
    unclustered = h.unclustered;
  }

  add-Grown :
      (start : List Pain) (s : PainStore) (count : ℕ) (p : Pain)
      → Grown start (s, count)
      → IsCollected user_id program_id p
      → Grown start (add p s, suc count)
  add-Grown start s count p g h = record {
    new = g.new ++ numbered s p ∷ [];
    rows =
        sym (append_assoc s.stored s.pending (numbered s p ∷ []))
        ∙ ap (λ (r : List Pain). r ++ numbered s p ∷ []) g.rows
        ∙ append_assoc start g.new (numbered s p ∷ []);
    counted = omega (arith, length-append g.new (numbered s p ∷ []), g.counted);
    collected =
        All-append (IsCollected user_id program_id) g.new (numbered s p) g.collected
          (numbered-IsCollected s p h);
    unique = g.unique;
  }

module _ (from_iso : Text → Option DateTime) (user_id program_id : ℕ) where
  pain_row-IsCollected :
      (msg : ChatMessage) (raw : Fields) (pain_text quote : Text)
      → truthy pain_text ≡ true
      → truthy quote ≡ true
      → IsCollected user_id program_id
          (pain_row from_iso user_id program_id msg raw pain_text quote)
  unfolding pain_row
  pain_row-IsCollected msg raw pain_text quote h k = record {
    owner = refl;
    program = refl;
    category = normalize_category-one_of (get (text "category") raw);
    intensity = normalize_intensity-one_of (get (text "intensity") raw);
    has_text = h;
    has_quote = k;
    unclustered = refl;
  }

  store_pain-Grown :
      (start : List Pain) (p : Pain) (acc : PainStore × ℕ)
      → IsCollected user_id program_id p
      → Grown user_id program_id start acc
      → Grown user_id program_id start (store_pain from_iso user_id program_id p acc)
  unfolding store_pain
  store_pain-Grown start p (s, count) h g =
      elim (Option-cases
        (find_recorded user_id p.source_message_id p.source_chat p.original_quote s)) [
          | inl new ↦ rw new (add-Grown user_id program_id start s count p g h)
          | inr (q, recorded) ↦ rw recorded g
        ]

  -- A row of the answer, whichever of its texts are empty.
  texts-Grown :
      (start : List Pain) (msg : ChatMessage) (raw : Fields) (pain_text quote : Text)
      (acc : PainStore × ℕ)
      → Grown user_id program_id start acc
      → Grown user_id program_id start (
          if truthy pain_text && truthy quote
          then store_pain from_iso user_id program_id
              (pain_row from_iso user_id program_id msg raw pain_text quote)
              acc
          else acc)
  texts-Grown start msg raw [] quote acc g = g
  texts-Grown start msg raw (c ∷ t) [] acc g = g
  texts-Grown start msg raw (c ∷ t) (d ∷ q) acc g =
      store_pain-Grown start (pain_row from_iso user_id program_id msg raw (c ∷ t) (d ∷ q)) acc
        (pain_row-IsCollected msg raw (c ∷ t) (d ∷ q) refl refl) g

  row_from-Grown :
      (start : List Pain) (msg : Option ChatMessage) (raw : Fields) (acc : PainStore × ℕ)
      → Grown user_id program_id start acc
      → Grown user_id program_id start (row_from from_iso user_id program_id msg raw acc)
  row_from-Grown start none raw acc g = g
  row_from-Grown start (some msg) raw acc g =
      texts-Grown start msg raw (or_empty (normalize_text (get (text "text") raw) (some [])))
        (or_empty (normalize_text (get (text "original_quote") raw) (some []))) acc g

  collect_row-Grown :
      (start : List Pain) (batch : List ChatMessage) (v : Json) (acc acc' : PainStore × ℕ)
      → collect_row from_iso user_id program_id batch v acc ≡ some acc'
      → Grown user_id program_id start acc
      → Grown user_id program_id start acc'
  unfolding collect_row
  collect_row-Grown start batch (Json.obj raw) acc acc' e g =
      subst (Grown user_id program_id start) (eq_of_some e)
        (row_from-Grown start (source_message batch raw) raw acc g)
  collect_row-Grown start batch v acc acc' e g = absurd (ground arith)

  pub collect_rows-Grown :
      (start : List Pain) (batch : List ChatMessage) (vs : List Json) (acc acc' : PainStore × ℕ)
      → collect_rows from_iso user_id program_id batch vs acc ≡ some acc'
      → Grown user_id program_id start acc
      → Grown user_id program_id start acc'
  unfolding collect_rows
  collect_rows-Grown start batch [] acc acc' e g =
      subst (Grown user_id program_id start) (eq_of_some e) g
  collect_rows-Grown start batch (v ∷ vs) acc acc' e g =
      elim (Option-cases (collect_row from_iso user_id program_id batch v acc)) [
        | inl raised ↦ absurd (ground arith)
        | inr (mid, step) ↦
            collect_rows-Grown start batch vs mid acc' (ground arith)
              (collect_row-Grown start batch v acc mid step g)
      ]
