-- ===== src/PainStore.antt =====
-- The table `pains` under a session: the rows that the database holds, and those that were added
-- and not flushed yet, with the next id of the database. Its unique constraint is that of
-- bot/models/pain.py.
pub mod Unique
use lead_finder.Prelude.{
  ℕ, suc, Bool, true, false, ◌&&◌, ◌||◌, not, Option, none, some, List, [], ◌∷◌, ◌++◌, ◌==◌,
}
use lead_finder.Prelude.Text.{Text, text_eq}
use lead_finder.Models.{Pain}
use lead_finder.Models.Table.{first_row}

pub record PainStore : Type 0 where
  pub stored : List Pain
  pub pending : List Pain
  pub next_id : ℕ

-- Two rows that "uq_pain_message_quote" does not let stand together.
unfoldable pub same_key : Pain → Pain → Bool
same_key p q =
    p.source_message_id == q.source_message_id
    && (text_eq p.source_chat q.source_chat && text_eq p.original_quote q.original_quote)

unfoldable pub has_key : Pain → List Pain → Bool
has_key p [] = false
has_key p (q ∷ rows) = same_key p q || has_key p rows

-- The inserts of a flush; `none` is the `IntegrityError`.
unfoldable pub insert_rows : List Pain → List Pain → Option (List Pain)
insert_rows stored [] = some stored
insert_rows stored (p ∷ rows) = elim (has_key p stored) [
  | true ↦ none
  | false ↦ insert_rows (stored ++ p ∷ []) rows
]

abbrev flushed : PainStore → Option (List Pain) → Option PainStore
flushed s none = none
flushed s (some rows) = some (record s { stored = rows; pending = [] })

-- `session.flush()`
unfoldable pub flush : PainStore → Option PainStore
flush s = flushed s (insert_rows s.stored s.pending)

-- The row with the id that its insert gives it: rows are inserted in the order in which they were
-- added, and nothing reads the id of a pending row.
abbrev pub numbered : PainStore → Pain → Pain
numbered s p = record p { id = s.next_id }

-- `session.add(pain)`
abbrev pub add : Pain → PainStore → PainStore
add p s = record s { pending = s.pending ++ numbered s p ∷ []; next_id = suc s.next_id }

-- The deduplication query. It runs under `no_autoflush`, so it does not see the pending rows.
unfoldable pub is_recorded : ℕ → ℕ → Text → Text → Pain → Bool
is_recorded user_id message_id source_chat quote p =
    p.user_id == user_id
    && (p.source_message_id == message_id
        && (text_eq p.source_chat source_chat && text_eq p.original_quote quote))

unfoldable pub find_recorded : ℕ → ℕ → Text → Text → PainStore → Option Pain
find_recorded user_id message_id source_chat quote s =
    first_row (is_recorded user_id message_id source_chat quote) s.stored
