-- ===== src/ProgramEdit/Tests.antt =====
-- The dialogues at one program, and what they do with unusual input.
use lead_finder.ClusterStats.{eq_ℤ}
use lead_finder.Payments.{last_piece}
use lead_finder.Prelude.Numeral.{parse_int}
use lead_finder.Prelude.{◌≡◌, refl, true, false, none, some, List, [], ◌∷◌, map}
use lead_finder.Prelude.Int.{pos}
use lead_finder.Prelude.Text.{text, starts_with, split, lower, strip, text_eq, lstrip_char}
use lead_finder.Models.{Program}
use lead_finder.Models.Table.{Paired, first_row, update_rows}
use lead_finder.ProgramEdit.{
  elsewhere, edit_chats, nothing, Dialogue, chat_missing, chats_added, find_program, is_own_program,
  last_id,
}
use lead_finder.ProgramEdit.Router.{Event, pressed, received, handle, run, route_of, press, receive}
use lead_finder.ProgramEdit.SettingsForm.{save_settings, apply_settings}
use lead_finder.ProgramEdit.Chats.{edit_chats_process, remove_from, new_chat_names, any_long}
use lead_finder.ProgramEdit.Owned.{IsOwnChange, run-IsOwnChange}
use lead_finder.ProgramEdit.Choices.{
  settings_of, Choice, pick_score, switch_auto_collect, choose_all,
}
use lead_finder.ProgramEdit.Settings.{session, run-session}

abbrev program : Program
program = record {
  id = 4;
  user_id = 1;
  name = text "shops";
  niche_description = text "shops";
  min_score = pos 2;
  max_leads_per_run = pos 10;
  enrich = true;
  schedule_time = text "09:00";
  auto_collect_enabled = false;
  owner_chat_id = none;
  chats = record { id = 6; chat_username = text "shop" } ∷ [];
}

abbrev idle : Dialogue
idle = record {
  state = elsewhere;
  staged = nothing;
  programs = program ∷ [];
  next_chat_id = 7;
  calls = [];
}

abbrev in_chats : Dialogue
in_chats = record idle { state = edit_chats; staged = record nothing { program_id = some (pos 4) } }

abbrev choices : List Choice
choices = pick_score 3 ∷ switch_auto_collect ∷ []

run-session_example :
    (q : Program) × (find_program 1 (pos 4) (run 1 (session 1 4 choices) idle) ≡ some q)
    × (settings_of q ≡ choose_all choices (settings_of program))
    × (q.name ≡ program.name)
    × (q.niche_description ≡ program.niche_description)
    × (q.chats ≡ program.chats)
    × ((run 1 (session 1 4 choices) idle).state ≡ elsewhere)
unfolding first_row is_own_program eq_ℤ
run-session_example = run-session 1 4 choices program idle refl

abbrev intrusion : List Event
intrusion =
    pressed (text "edit_name_4") ∷ received (text "mine") ∷ pressed (text "save_settings_4") ∷ []

run-IsOwnChange_example : Paired (IsOwnChange 2) idle.programs (run 2 intrusion idle).programs
run-IsOwnChange_example = run-IsOwnChange 2 intrusion idle

-- A save without a session, such as a second press of the button, sets the defaults.
second_save :
    map settings_of (run 1 (pressed (text "save_settings_4") ∷ []) idle).programs
    ≡ record { min_score = pos 5; max_leads = pos 50; enrich = false; auto_collect = false } ∷ []
unfolding run handle route_of starts_with press last_id parse_int last_piece split save_settings
    first_row is_own_program update_rows apply_settings eq_ℤ
second_save = refl

-- The word is known with a capital, and only its small letters are removed.
capital_word :
    (handle 1 (received (text "Удалить @shop")) in_chats).1 ≡ chat_missing (text "Удалить @shop")
unfolding handle receive edit_chats_process first_row is_own_program starts_with lower strip text_eq
    lstrip_char remove_from eq_ℤ
capital_word = refl

-- A chat that is named twice in a message is added twice.
named_twice :
    (handle 1 (received (text "@new\n@new")) in_chats).1
    ≡ chats_added (text "new" ∷ text "new" ∷ [])
unfolding handle receive edit_chats_process first_row is_own_program starts_with lower strip
    new_chat_names split text_eq remove_from eq_ℤ any_long
named_twice = refl
