-- ===== src/PainCollector/Collected.antt =====
-- What a collection adds to the table: as many rows as it reports, each of them well formed.
use mathlib.Core.List.{append-nil}
use lead_finder.Prelude.{
  ℕ, zero, suc, ◌≡◌, refl, sym, ◌∙◌, subst, Bool, true, false, Option, none, some, List, [], ◌∷◌,
  ◌++◌, arith, eq_of_some, Option-cases, inl, inr, length, take, drop,
}
use lead_finder.Prelude.Text.{Text}
use lead_finder.DateTime.{DateTime}
use lead_finder.Json.{Json}
use lead_finder.Models.{Pain}
use lead_finder.Models.Table.{All}
use lead_finder.PainStore.{PainStore, flush}
use lead_finder.PainStore.Unique.{HasUniqueKeys, flush-HasUniqueKeys, flush-append}
use lead_finder.Qualifier.Qualify.{Answer}
use lead_finder.PainCollector.{
  ChatMessage, collect_rows, collect_batch, collect_batches, collect_pains, extract_pains_batch,
  flush_counted,
}
use lead_finder.PainCollector.Rows.{IsCollected, Grown, collect_rows-Grown}

module _ (user_id program_id : ℕ) where
  -- Between two batches nothing is pending.
  abbrev Settled : List Pain → PainStore × ℕ → Type 0
  Settled start acc = Grown user_id program_id start acc × (acc.0.pending ≡ [])

  flush-Settled :
      (start : List Pain) (s s' : PainStore) (count : ℕ)
      → flush s ≡ some s'
      → Grown user_id program_id start (s, count)
      → Settled start (s', count)
  flush-Settled start s s' count e g =
      let (moved, empty) = flush-append s e in
      (
        record {
          new = g.new;
          rows = rw (moved, empty, append-nil) g.rows;
          counted = g.counted;
          collected = g.collected;
          unique = flush-HasUniqueKeys s g.unique e;
        },
        empty,
      )

  flush_counted-Settled :
      (start : List Pain) (r : Option (PainStore × ℕ)) (acc' : PainStore × ℕ)
      → ((acc : PainStore × ℕ) → r ≡ some acc → Grown user_id program_id start acc)
      → flush_counted r ≡ some acc'
      → Settled start acc'
  flush_counted-Settled start none acc' step e = absurd (ground arith)
  flush_counted-Settled start (some (s, count)) acc' step e = elim (Option-cases (flush s)) [
    | inl refused ↦ absurd (ground arith)
    | inr (s', flushed) ↦
        let same : ◌≡◌ {A = PainStore × ℕ} (s', count) acc' = ground arith in
        subst (Settled start) same (flush-Settled start s s' count flushed (step (s, count) refl))
  ]

module _ (loads : Text → Option Json) (from_iso : Text → Option DateTime) (ask : ℕ → Answer)
    (batch_size user_id program_id : ℕ) where
  collect_batches-Settled :
      (start : List Pain) (fuel batch_num : ℕ) (messages : List ChatMessage)
      (acc acc' : PainStore × ℕ)
      → collect_batches loads from_iso ask batch_size user_id program_id fuel batch_num messages acc
        ≡ some acc'
      → Settled user_id program_id start acc
      → Settled user_id program_id start acc'
  unfolding collect_batches collect_batch
  collect_batches-Settled start zero batch_num messages acc acc' e h =
      subst (Settled user_id program_id start) (eq_of_some e) h
  collect_batches-Settled start (suc fuel) batch_num [] acc acc' e h =
      subst (Settled user_id program_id start) (eq_of_some e) h
  collect_batches-Settled start (suc fuel) batch_num (m ∷ ms) acc acc' e h =
      let batch = take batch_size (m ∷ ms) in
      let run =
        collect_batch loads from_iso ask batch_size user_id program_id batch_num batch acc in
      elim (Option-cases run) [
        | inl raised ↦ absurd (ground arith)
        | inr (mid, step) ↦
            collect_batches-Settled start fuel (suc batch_num) (drop batch_size (m ∷ ms)) mid acc'
              (ground arith)
              (flush_counted-Settled user_id program_id start
                (collect_rows from_iso user_id program_id batch
                  (extract_pains_batch loads (ask batch_num)) acc)
                mid
                (λ a s.
                  collect_rows-Grown from_iso user_id program_id start batch
                    (extract_pains_batch loads (ask batch_num)) acc a s h.0)
                step)
      ]

  collect_pains-Settled :
      (enabled : Bool) (messages : List ChatMessage) (s : PainStore) (r : PainStore × ℕ)
      → Settled user_id program_id s.stored (s, 0)
      → collect_pains loads from_iso ask batch_size user_id program_id enabled messages s ≡ some r
      → Settled user_id program_id s.stored r
  unfolding collect_pains
  collect_pains-Settled false messages s r h e =
      subst (Settled user_id program_id s.stored) (eq_of_some e) h
  collect_pains-Settled true messages s r h e =
      collect_batches-Settled s.stored (length messages) 0 messages (s, 0) r e h

  -- A collection either raises, or adds to the table exactly as many rows as it reports, behind
  -- those that were there. Each new row belongs to the user and the program, has a category and an
  -- intensity out of the allowed ones, a text and a quote that are not empty, and no cluster. The
  -- keys of the table stay unique, and nothing is left pending.
  pub collect_pains-IsCollected :
      (enabled : Bool) (messages : List ChatMessage) (s : PainStore) {r : PainStore × ℕ}
      → HasUniqueKeys s.stored
      → s.pending ≡ []
      → collect_pains loads from_iso ask batch_size user_id program_id enabled messages s ≡ some r
      → (new : List Pain) × (r.0.stored ≡ s.stored ++ new)
        × (length new ≡ r.1)
        × All (IsCollected user_id program_id) new
        × HasUniqueKeys r.0.stored
        × (r.0.pending ≡ [])
  collect_pains-IsCollected enabled messages s {r} u p e =
      let found : Grown user_id program_id s.stored (s, 0) = record {
        new = [];
        rows = rw p refl;
        counted = refl;
        collected = tt;
        unique = u;
      } in
      let (g, empty) = collect_pains-Settled enabled messages s r (found, p) e in
      let rows = subst (λ (q : List Pain). r.0.stored ++ q ≡ s.stored ++ g.new) empty g.rows in
      (g.new, sym (append-nil r.0.stored) ∙ rows, g.counted, g.collected, g.unique, empty)
