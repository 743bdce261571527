-- ===== src/ProgramEdit.antt =====
-- bot/handlers/program_edit.py with the states of bot/states.py: the dialogues that change a
-- program. The texts of the messages are left out: a reply says which of them is sent. The children
-- hold the dialogues on chats and settings, and the router.
pub mod Chats
pub mod SettingsForm
pub mod Router
pub mod Owned
pub mod Choices
pub mod Settings
mod Tests
use lead_finder.Prelude.{
  ℕ, zero, suc, ◌+◌, ◌-◌, Bool, true, false, not, ◌&&◌, ◌||◌, Option, none, some, List, [], ◌∷◌,
  ◌++◌, ◌==◌, if◌then◌else◌, get_elem?, length, ltb,
}
use lead_finder.Prelude.Int.{ℤ, pos, negsuc}
use lead_finder.Prelude.Text.{
  Text, text, text_eq, strip, truthy, starts_with, lower, split, lstrip_char,
}
use lead_finder.Prelude.Numeral.{parse_int}
use lead_finder.Models.{Program, ProgramChat}
use lead_finder.Models.Table.{first_row, update_rows, delete_rows}
use lead_finder.Payments.{last_piece}
use lead_finder.ClusterStats.{eq_ℤ}

-- The states of ProgramEdit; `elsewhere` is no state or one of another dialogue.
pub data EditState : Type 0 where
  elsewhere edit_name edit_niche edit_chats edit_settings : EditState

-- The data of the dialogue (`state.get_data()`).
pub record Staged : Type 0 where
  pub program_id : Option ℤ
  pub min_score : Option ℤ
  pub max_leads : Option ℤ
  pub enrich : Option Bool
  pub auto_collect : Option Bool

-- A call of the scheduler.
pub data Call : Type 0 where
  schedule_program_job : ℕ → ℕ → Text → Call
  remove_program_job : ℕ → Call

-- The user's dialogue, the table of programs with the next free id of a chat, and the calls that
-- were made, the latest first.
pub record Dialogue : Type 0 where
  pub state : EditState
  pub staged : Staged
  pub programs : List Program
  pub next_chat_id : ℕ
  pub calls : List Call

-- The last message; `raised` is an exception.
pub data Reply : Type 0 where
  raised unhandled not_found empty_name empty_niche chats_exist saved chats_done : Reply
  ask_name ask_niche : ℤ → Reply
  edit_menu : Text → Reply
  chats_shown : List ProgramChat → Reply
  chat_deleted chat_missing : Text → Reply
  chats_added : List Text → Reply
  settings_shown : Staged → Reply

abbrev pub nothing : Staged
nothing = record {
  program_id = none;
  min_score = none;
  max_leads = none;
  enrich = none;
  auto_collect = none;
}

-- `state.clear()`
abbrev pub clear : Dialogue → Dialogue
clear d = record d { state = elsewhere; staged = nothing }

-- `Program.id == program_id, Program.user_id == user_id`
unfoldable pub is_own_program : ℕ → ℤ → Program → Bool
is_own_program user_id program_id p = eq_ℤ (pos p.id) program_id && p.user_id == user_id

abbrev pub find_program : ℕ → ℤ → Dialogue → Option Program
find_program user_id program_id d = first_row (is_own_program user_id program_id) d.programs

-- Assignments to the program that was found, and the commit.
abbrev pub change_program : ℕ → ℤ → (Program → Program) → Dialogue → Dialogue
change_program user_id program_id f d = record d {
  programs = update_rows (is_own_program user_id program_id) f d.programs;
}

-- `data.get(key, default)`
abbrev pub or_default {ℓ} : {A : Type ℓ} → Option A → A → A
or_default none default = default
or_default (some v) default = v

-- `int(callback.data.split("_")[-1])`
unfoldable pub last_id : Text → Option ℤ
last_id callback_data = parse_int (last_piece (split b'_' callback_data))

-- `int(parts[n])`
abbrev pub number_of : Option Text → Option ℤ
number_of none = none
number_of (some t) = parse_int t

unfoldable pub part_number : ℕ → Text → Option ℤ
part_number n callback_data = number_of (get_elem? (split b'_' callback_data) n)

module _ (user_id : ℕ) where
  abbrev pub menu_for : Dialogue → Option Program → Dialogue × Reply
  menu_for d none = (clear d, not_found)
  menu_for d (some p) = (clear d, edit_menu p.name)

  unfoldable pub show_edit_menu : ℤ → Dialogue → Dialogue × Reply
  show_edit_menu program_id d = menu_for d (find_program user_id program_id d)

  unfoldable pub edit_name_start : ℤ → Dialogue → Dialogue × Reply
  edit_name_start program_id d = (
    record d { state = edit_name; staged = record d.staged { program_id = some program_id } },
    ask_name program_id,
  )

  unfoldable pub edit_niche_start : ℤ → Dialogue → Dialogue × Reply
  edit_niche_start program_id d = (
    record d { state = edit_niche; staged = record d.staged { program_id = some program_id } },
    ask_niche program_id,
  )

  -- No row has the id `None`.
  abbrev pub find_staged : Dialogue → Option Program
  find_staged d = elim d.staged.program_id [
    | none ↦ none
    | some program_id ↦ find_program user_id program_id d
  ]

  abbrev pub change_at : Option ℤ → (Program → Program) → Dialogue → Dialogue
  change_at none f d = d
  change_at (some program_id) f d = change_program user_id program_id f d

  abbrev pub change_staged : (Program → Program) → Dialogue → Dialogue
  change_staged f d = change_at d.staged.program_id f d

  -- A name that is longer than its column raises at the commit.
  abbrev pub name_for : Text → Dialogue → Option Program → Dialogue × Reply
  name_for new_name d none = (clear d, edit_menu new_name)
  name_for new_name d (some p) =
      if ltb 100 (length new_name)
      then (d, raised)
      else (clear (change_staged (λ q. record q { name = new_name }) d), edit_menu new_name)

  unfoldable pub edit_name_save : Text → Dialogue → Dialogue × Reply
  edit_name_save message d =
      let new_name = strip message in
      if truthy new_name then name_for new_name d (find_staged d) else (d, empty_name)

  -- Without the program, the text of the menu raises.
  abbrev pub niche_for : Text → Dialogue → Option Program → Dialogue × Reply
  niche_for new_niche d none = (clear d, raised)
  niche_for new_niche d (some p) =
      (clear (change_staged (λ q. record q { niche_description = new_niche }) d), edit_menu p.name)

  unfoldable pub edit_niche_save : Text → Dialogue → Dialogue × Reply
  edit_niche_save message d =
      let new_niche = strip message in
      if truthy new_niche then niche_for new_niche d (find_staged d) else (d, empty_niche)
