-- ===== src/PainCollector/Duplicates.antt =====
-- One answer that names a new pain twice.
use lead_finder.Prelude.{
  ℕ, suc, ◌≡◌, refl, ap, true, ◌&&◌, Option, none, some, List, [], ◌∷◌, ◌++◌, arith,
}
use lead_finder.Prelude.Text.{Text, text, truthy, or_empty}
use lead_finder.DateTime.{DateTime}
use lead_finder.Json.{Json, Fields, get}
use lead_finder.Models.{Pain}
use lead_finder.PainStore.{PainStore, add, flush, find_recorded, has_key, same_key, numbered}
use lead_finder.PainStore.Unique.{has_key-append, same_key_refl, insert_rows-repeated}
use lead_finder.Qualifier.Qualify.{Answer}
use lead_finder.PainCollector.{
  ChatMessage, normalize_text, source_message, pain_row, store_pain, collect_row, collect_rows,
  collect_batch, extract_pains_batch, flush_counted,
}

has_key-last :
    (p q : Pain) (rows : List Pain) → same_key p q ≡ true → has_key p (rows ++ q ∷ []) ≡ true
unfolding has_key
has_key-last p q rows h = ground (arith, has_key-append p rows (q ∷ []))

flush-twice : (s : PainStore) (p : Pain) → s.pending ≡ [] → flush (add p (add p s)) ≡ none
unfolding flush
flush-twice s p h =
    let first = numbered s p in
    let second = numbered (add p s) p in
    rw (h, flush)
      (rw
        (insert_rows-repeated (first ∷ []) s.stored second []
          (has_key-last second first s.stored (unfold same_key in same_key_refl p)))
        refl)

module _ (from_iso : Text → Option DateTime) (user_id program_id : ℕ) where
  -- A row whose pain is not recorded is added.
  store_pain-new :
      (p : Pain) (s : PainStore) (count : ℕ)
      → find_recorded user_id p.source_message_id p.source_chat p.original_quote s ≡ none
      → store_pain from_iso user_id program_id p (s, count) ≡ (add p s, suc count)
  unfolding store_pain
  store_pain-new p s count h = rw (h, store_pain) refl

  collect_row-new :
      (batch : List ChatMessage) (msg : ChatMessage) (raw : Fields) (t q : Text) (s : PainStore)
      (count : ℕ)
      → source_message batch raw ≡ some msg
      → or_empty (normalize_text (get (text "text") raw) (some [])) ≡ t
      → or_empty (normalize_text (get (text "original_quote") raw) (some [])) ≡ q
      → (truthy t && truthy q) ≡ true
      → find_recorded user_id msg.message_id (or_empty msg.chat_username) q s ≡ none
      → collect_row from_iso user_id program_id batch (Json.obj raw) (s, count)
        ≡ some (add (pain_row from_iso user_id program_id msg raw t q) s, suc count)
  unfolding collect_row
  collect_row-new batch msg raw t q s count source e k full new =
      rw (source, e, k, full)
        (ap some (
          store_pain-new (pain_row from_iso user_id program_id msg raw t q) s count
            (unfold pain_row in new)))

module _ (loads : Text → Option Json) (from_iso : Text → Option DateTime) (ask : ℕ → Answer)
    (batch_size user_id program_id : ℕ) where
  -- An answer that gives the same row twice, for a message of the batch, with texts that are not
  -- empty and a pain that is not recorded yet, makes the batch raise: the query does not see the
  -- row that is pending, so the row is added twice, and the flush violates the unique constraint.
  pub collect_batch-repeated :
      (batch_num : ℕ) (batch : List ChatMessage) (msg : ChatMessage) (raw : Fields) (t q : Text)
      (s : PainStore) (count : ℕ)
      → extract_pains_batch loads (ask batch_num) ≡ Json.obj raw ∷ Json.obj raw ∷ []
      → source_message batch raw ≡ some msg
      → or_empty (normalize_text (get (text "text") raw) (some [])) ≡ t
      → or_empty (normalize_text (get (text "original_quote") raw) (some [])) ≡ q
      → (truthy t && truthy q) ≡ true
      → find_recorded user_id msg.message_id (or_empty msg.chat_username) q s ≡ none
      → s.pending ≡ []
      → collect_batch loads from_iso ask batch_size user_id program_id batch_num batch (s, count)
        ≡ none
  unfolding collect_batch collect_rows
  collect_batch-repeated batch_num batch msg raw t q s count rows source e k full new settled =
      let p = pain_row from_iso user_id program_id msg raw t q in
      let first =
        collect_row-new from_iso user_id program_id batch msg raw t q s count source e k full new in
      let second =
        collect_row-new from_iso user_id program_id batch msg raw t q (add p s) (suc count) source e
          k full (unfold find_recorded in new) in
      rw (rows) (
        rw (first, collect_rows)
          (rw (second, collect_rows) (rw (flush-twice s p settled, flush_counted) refl)))
