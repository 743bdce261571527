-- ===== src/ProgramEdit/Chats.antt =====
-- The dialogue on the chats of a program.
use lead_finder.Prelude.Int.{ℤ}
use lead_finder.Prelude.{
  ltb, false, ◌||◌, ℕ, zero, suc, ◌+◌, ◌-◌, Bool, Option, none, some, List, [], ◌∷◌, ◌++◌, ◌==◌,
  if◌then◌else◌, length,
}
use lead_finder.Prelude.Text.{
  Text, text, text_eq, strip, truthy, starts_with, lower, split, lstrip_char,
}
use lead_finder.Models.{Program, ProgramChat}
use lead_finder.Models.Table.{first_row, delete_rows}
use lead_finder.ProgramEdit.{
  clear, raised, find_program, find_staged, change_staged, Dialogue, Reply, edit_chats, not_found,
  chats_exist, chats_done, chats_shown, chat_deleted, chat_missing, chats_added,
}

-- `s.replace(p, "")` for a `p` that is not empty; `skip` characters of an occurrence are left.
unfoldable pub remove_from : ℕ → Text → Text → Text
remove_from skip p [] = []
remove_from (suc skip) p (c ∷ s) = remove_from skip p s
remove_from zero p (c ∷ s) =
    let hit = remove_from (length p - 1) p s in
    let miss = remove_from 0 p s in if starts_with p (c ∷ s) then hit else c ∷ miss

-- Some name is longer than its column, which raises at the commit.
unfoldable pub any_long : List Text → Bool
any_long [] = false
any_long (name ∷ names) = ltb 100 (length name) || any_long names

module _ (user_id : ℕ) where
  abbrev pub chats_for : ℤ → Dialogue → Option Program → Dialogue × Reply
  chats_for program_id d none = (d, not_found)
  chats_for program_id d (some p) = (
    record d { state = edit_chats; staged = record d.staged { program_id = some program_id } },
    chats_shown p.chats,
  )

  unfoldable pub edit_chats_start : ℤ → Dialogue → Dialogue × Reply
  edit_chats_start program_id d = chats_for program_id d (find_program user_id program_id d)

  abbrev pub is_chat : Text → ProgramChat → Bool
  is_chat chat_username c = text_eq c.chat_username chat_username

  abbrev pub delete_chat : Text → Dialogue → Option ProgramChat → Dialogue × Reply
  delete_chat chat_username d none = (d, chat_missing chat_username)
  delete_chat chat_username d (some chat) = (
    change_staged user_id
        (λ q. record q { chats = delete_rows (λ (c : ProgramChat). c.id == chat.id) q.chats }) d,
    chat_deleted chat_username,
  )

  -- The names to add: a line whose chat the program has already, or that is empty, is passed over.
  unfoldable pub new_chat_names : List ProgramChat → List Text → List Text
  new_chat_names chats [] = []
  new_chat_names chats (line ∷ lines) =
      let rest = new_chat_names chats lines in
      let chat_username =
        strip (remove_from 0 (text "@") (remove_from 0 (text "t.me/") (strip line))) in
      if truthy (strip line)
      then elim (first_row (is_chat chat_username) chats) [
        | none ↦ chat_username ∷ rest
        | some c ↦ rest
      ]
      else rest

  -- The rows of the new chats, numbered from `id`.
  unfoldable pub chat_rows : ℕ → List Text → List ProgramChat
  chat_rows id [] = []
  chat_rows id (name ∷ names) = record { id = id; chat_username = name } ∷ chat_rows (suc id) names

  abbrev pub add_chats : Dialogue → List Text → Dialogue × Reply
  add_chats d [] = (d, chats_exist)
  add_chats d (name ∷ names) =
      let rows = chat_rows d.next_chat_id (name ∷ names) in
      if any_long (name ∷ names) then (d, raised) else (
        record (change_staged user_id (λ q. record q { chats = q.chats ++ rows }) d) {
          next_chat_id = d.next_chat_id + length (name ∷ names);
        },
        chats_added (name ∷ names),
      )

  -- "удалить", of which only the small letters are removed again.
  abbrev pub process_chats : Text → Dialogue → Option Program → Dialogue × Reply
  process_chats command d none = (d, not_found)
  process_chats command d (some p) =
      if starts_with (text "удалить") (lower command)
      then (let chat_username = lstrip_char b'@' (strip (remove_from 0 (text "удалить") command)) in
          delete_chat chat_username d (first_row (is_chat chat_username) p.chats))
      else add_chats d (new_chat_names p.chats (split b'\n' command))

  unfoldable pub edit_chats_process : Text → Dialogue → Dialogue × Reply
  edit_chats_process message d = process_chats (strip message) d (find_staged user_id d)

  unfoldable pub edit_chats_done : ℤ → Dialogue → Dialogue × Reply
  edit_chats_done program_id d = (clear d, chats_done)
