-- ===== src/PainSaver/Saved.antt =====
-- What a save adds to the table, and that its flush is not refused.
use mathlib.Core.List.{append-nil}
use lead_finder.Prelude.{
  ℕ, ◌≡◌, refl, sym, ◌∙◌, subst, true, Option, some, List, [], ◌∷◌, ◌++◌, arith, Bool-cases, inl,
  inr, length, ◌==◌,
}
use lead_finder.Prelude.Text.{Text, truthy}
use lead_finder.Json.{Json, Fields}
use lead_finder.Models.{Pain}
use lead_finder.Models.Table.{All}
use lead_finder.PainStore.{PainStore, flush, has_key}
use lead_finder.PainStore.Unique.{HasUniqueKeys, insert_rows-total}
use lead_finder.Qualifier.Prompt.{MessageData, Candidate}
use lead_finder.PainSaver.{
  Saving, source_chat_of, save_all, saved, save_texts, save_with, extract_pain_texts,
  business_type_of, save_pains_from_lead,
}
use lead_finder.PainSaver.Unique.{
  IsApart, IsSaved, IsSaving, extract_pain_texts-truthy, save_all-IsSaving,
}

length-zero : {A : Type 0} (xs : List A) → length xs ≡ 0 → xs ≡ []
length-zero [] h = refl
length-zero (x ∷ xs) h = ground arith

module _ (user_id program_id : ℕ) (c : Candidate) where
  -- What a save returns, in terms of the table before and after.
  abbrev pub HasSaved : PainStore → Option (PainStore × ℕ) → Type 0
  HasSaved s out =
      (r : PainStore × ℕ) × (out ≡ some r)
      × (new : List Pain) × (r.0.stored ≡ s.stored ++ new)
      × (length new ≡ r.1)
      × All (IsSaved user_id program_id c) new
      × HasUniqueKeys r.0.stored
      × (r.0.pending ≡ [])

  saved-HasSaved :
      (s : PainStore) (acc : Saving)
      → IsSaving user_id program_id c s.stored acc
      → HasSaved s (saved acc)
  unfolding flush
  saved-HasSaved s acc g = elim (Bool-cases (acc.inserted == 0)) [
    | inl nothing ↦
        let empty : acc.store.pending ≡ [] =
          length-zero acc.store.pending (ground (arith, g.counted)) in
        let rows : acc.store.stored ≡ s.stored ++ acc.store.pending =
          g.fixed ∙ rw (empty, append-nil) refl in
        (
          (acc.store, 0),
          rw nothing refl,
          acc.store.pending,
          rows,
          ground (arith, g.counted),
          g.rows,
          rw rows g.unique,
          empty,
        )
    | inr some_rows ↦
        let s' : PainStore = record acc.store {
          stored = s.stored ++ acc.store.pending;
          pending = [];
        } in
        let inserts = insert_rows-total acc.store.pending s.stored g.unique in
        (
          (s', acc.inserted),
          rw (some_rows, g.fixed, inserts) refl,
          acc.store.pending,
          refl,
          g.counted,
          g.rows,
          g.unique,
          refl,
        )
  ]

  unsaved : (s : PainStore) → HasUniqueKeys s.stored → s.pending ≡ [] → HasSaved s (some (s, 0))
  unsaved s unique settled =
      ((s, 0), refl, [], sym (append-nil s.stored), refl, tt, unique, settled)

  save_with-HasSaved :
      (b : Option Text) (ts : List Text) (messages : List MessageData) (s : PainStore)
      → All (IsApart user_id (source_chat_of c)) s.stored
      → HasUniqueKeys s.stored
      → s.pending ≡ []
      → All (λ t. truthy t ≡ true) ts
      → HasSaved s (save_with user_id program_id c (some b) ts messages s)
  save_with-HasSaved b ts [] s own unique settled full = unsaved s unique settled
  save_with-HasSaved b ts (m ∷ ms) s own unique settled full =
      let start : Saving = record { store = s; seen = []; inserted = 0 } in
      let found : IsSaving user_id program_id c s.stored start = record {
        fixed = refl;
        unique = rw (settled, append-nil) unique;
        covered = rw settled (λ p e. unfold has_key in ground arith);
        counted = rw settled refl;
        rows = rw settled tt;
      } in
      saved-HasSaved s (save_all user_id program_id c b m ms 0 ts start)
        (save_all-IsSaving user_id program_id c s.stored b m ms 0 ts start own full found)

  save_texts-HasSaved :
      (b : Option Text) (ts : List Text) (s : PainStore)
      → All (IsApart user_id (source_chat_of c)) s.stored
      → HasUniqueKeys s.stored
      → s.pending ≡ []
      → All (λ t. truthy t ≡ true) ts
      → HasSaved s (save_texts user_id program_id c (some b) ts s)
  save_texts-HasSaved b [] s own unique settled full = unsaved s unique settled
  save_texts-HasSaved b (t ∷ ts) s own unique settled full =
      save_with-HasSaved b (t ∷ ts) c.messages_with_metadata s own unique settled full

module _ (shown : Json → Text) (user_id program_id : ℕ) (c : Candidate) where
  -- Where no other user's pain in the table comes from the candidate's chat, the keys of the table
  -- are unique and nothing is pending, a save whose answer can be read never raises, whatever the
  -- answer repeats: it adds to the table exactly as many rows as it reports, behind those that were
  -- there. Each new row belongs to the user and the program, comes from the candidate's chat, whose
  -- name keeps to 100 characters, and from a message with an id, and has a text and a quote that
  -- are not empty and no cluster. The keys stay unique, and nothing is left pending.
  pub save_pains_from_lead-HasSaved :
      (qualification : Fields) (s : PainStore) {ts : List Text} {b : Option Text}
      → extract_pain_texts shown qualification ≡ some ts
      → business_type_of shown qualification ≡ some b
      → All (IsApart user_id (source_chat_of c)) s.stored
      → HasUniqueKeys s.stored
      → s.pending ≡ []
      → HasSaved user_id program_id c s
          (save_pains_from_lead shown user_id program_id c qualification s)
  unfolding save_pains_from_lead
  save_pains_from_lead-HasSaved qualification s {ts} {b} texts business own unique settled =
      subst (HasSaved user_id program_id c s)
        (sym (rw (texts, business, save_pains_from_lead) refl))
        (save_texts-HasSaved user_id program_id c b ts s own unique settled
          (extract_pain_texts-truthy shown qualification ts texts))
