-- ===== src/ProgramEdit/Router.antt =====
-- Which handler a button or a message goes to.
use lead_finder.Prelude.{ℕ, Option, none, some, List, [], ◌∷◌, if◌then◌else◌}
use lead_finder.Prelude.Int.{ℤ}
use lead_finder.Prelude.Text.{Text, text, starts_with}
use lead_finder.ProgramEdit.{
  last_id, part_number, show_edit_menu, edit_name_start, edit_niche_start, edit_name_save,
  edit_niche_save, EditState, Dialogue, Reply, elsewhere, edit_name, edit_niche, edit_chats,
  edit_settings, raised, unhandled,
}
use lead_finder.ProgramEdit.Chats.{edit_chats_start, edit_chats_process, edit_chats_done}
use lead_finder.ProgramEdit.SettingsForm.{
  edit_settings_show, set_min_score, set_max_leads, toggle_enrichment, toggle_auto_collect,
  save_settings,
}

-- The buttons, in the order in which their handlers are registered.
pub data Action : Type 0 where
  menu name_start niche_start chats_start finish_chats settings_show : Action
  score max_leads enrichment auto_collection save : Action

abbrev pub routes : List (Text × Action)
routes =
    (text "edit_program_", menu)
    ∷ (text "edit_name_", name_start)
    ∷ (text "edit_niche_", niche_start)
    ∷ (text "edit_chats_", chats_start)
    ∷ (text "done_chats_", finish_chats)
    ∷ (text "edit_settings_", settings_show)
    ∷ (text "set_score_", score)
    ∷ (text "set_max_", max_leads)
    ∷ (text "toggle_enrich_", enrichment)
    ∷ (text "toggle_autocollect_", auto_collection)
    ∷ (text "save_settings_", save)
    ∷ []

unfoldable pub route_of : List (Text × Action) → Text → Option Action
route_of [] callback_data = none
route_of ((prefix, action) ∷ rest) callback_data =
    if starts_with prefix callback_data then some action else route_of rest callback_data

abbrev pub with_number : (ℤ → Dialogue → Dialogue × Reply) → Option ℤ → Dialogue → Dialogue × Reply
with_number f none d = (d, raised)
with_number f (some n) d = f n d

-- `program_id = int(parts[2])`, which only the keyboard uses.
abbrev pub after_number : Option ℤ → (Dialogue → Dialogue × Reply) → Dialogue → Dialogue × Reply
after_number none f d = (d, raised)
after_number (some n) f d = f d

unfoldable pub press : ℕ → Action → Text → Dialogue → Dialogue × Reply
press u menu b d = with_number (show_edit_menu u) (last_id b) d
press u name_start b d = with_number (edit_name_start u) (last_id b) d
press u niche_start b d = with_number (edit_niche_start u) (last_id b) d
press u chats_start b d = with_number (edit_chats_start u) (last_id b) d
press u finish_chats b d = with_number (edit_chats_done u) (last_id b) d
press u settings_show b d = with_number (edit_settings_show u) (last_id b) d
press u score b d =
    after_number (part_number 2 b) (with_number (set_min_score u) (part_number 3 b)) d
press u max_leads b d =
    after_number (part_number 2 b) (with_number (set_max_leads u) (part_number 3 b)) d
press u enrichment b d = after_number (last_id b) (toggle_enrichment u) d
press u auto_collection b d = after_number (last_id b) (toggle_auto_collect u) d
press u save b d = with_number (save_settings u) (last_id b) d

-- A message with a text goes to the handler of the state.
unfoldable pub receive : ℕ → EditState → Text → Dialogue → Dialogue × Reply
receive u elsewhere message d = (d, unhandled)
receive u edit_name message d = edit_name_save u message d
receive u edit_niche message d = edit_niche_save u message d
receive u edit_chats message d = edit_chats_process u message d
receive u edit_settings message d = (d, unhandled)

pub data Event : Type 0 where
  pressed : Text → Event
  received : Text → Event

abbrev pub press_route : ℕ → Option Action → Text → Dialogue → Dialogue × Reply
press_route u none b d = (d, unhandled)
press_route u (some action) b d = press u action b d

unfoldable pub handle : ℕ → Event → Dialogue → Dialogue × Reply
handle u (pressed b) d = press_route u (route_of routes b) b d
handle u (received message) d = receive u d.state message d

-- The events of one user, one after the other.
unfoldable pub run : ℕ → List Event → Dialogue → Dialogue
run u [] d = d
run u (e ∷ es) d = run u es (handle u e d).0
