-- ===== src/ProgramCreate/Tests.antt =====
-- The dialogue from the first button to the row, and the limit at the second program.
use lead_finder.ProgramEdit.Chats.{chat_rows, any_long}
use lead_finder.Prelude.{◌≡◌, refl, arith, none, List, [], ◌∷◌, ◌++◌, map}
use lead_finder.Prelude.Text.{
  text, text_eq, starts_with, strip, drop_while, is_space, lstrip, rstrip,
}
use lead_finder.DateTime.{DateTime, at_most, before}
use lead_finder.Models.{User, Program}
use lead_finder.Models.Table.{first_row, count_rows, update_rows}
use lead_finder.Payments.{is_user}
use lead_finder.Subscription.{
  check_program_limit, is_owned_by, is_paid_user, normalize_subscription,
}
use lead_finder.MembersParser.Bio.{is_handle_char}
use lead_finder.ProgramCreate.{
  Creation, elsewhere, no_draft, CreateEvent, create_button, save_button, sent, create_all,
  find_names, name_at, word_run, respond_to, press_save, receive_in, create_program_start,
  receive_name, receive_niche, receive_chats, save_program, back_to_chats,
  back_to_niche_description, cancel_creation, new_program,
}
use lead_finder.ProgramCreate.Limited.{IsWithinLimit, create_all-IsWithinLimit}

abbrev monday : DateTime
monday = record { year = 2025; month = 1; day = 6; micros = 0 }

abbrev creator : User
creator = record {
  telegram_id = 1;
  username = none;
  services_description = none;
  subscription_type = text "free";
  subscription_expires_at = none;
  last_analysis_at = none;
  created_at = monday;
  last_active_at = monday;
}

abbrev at_start : Creation
at_start = record {
  state = elsewhere;
  draft = no_draft;
  users = creator ∷ [];
  programs = [];
  next_id = 1;
  next_chat_id = 1;
  calls = [];
}

-- A whole dialogue.
abbrev dialogue : List (DateTime × CreateEvent)
dialogue =
    (monday, create_button)
    ∷ (monday, sent (text " shops "))
    ∷ (monday, sent (text "online shops"))
    ∷ (monday, sent (text "@shop1 t.me/shop2"))
    ∷ (monday, save_button)
    ∷ []

create_all-IsWithinLimit_example :
    IsWithinLimit 1 at_start (create_all is_handle_char 1 (dialogue ++ dialogue) at_start)
unfolding count_rows first_row is_user text_eq
create_all-IsWithinLimit_example =
    create_all-IsWithinLimit 1 is_handle_char (dialogue ++ dialogue) at_start (creator, refl, refl)
      (ground arith)

-- Both forms of a name are found; a sign without a name is passed over.
two_names :
    find_names is_handle_char 0 (text "@ @shop1, t.me/shop2") ≡ text "shop1" ∷ text "shop2" ∷ []
unfolding find_names name_at word_run is_handle_char starts_with
two_names = refl

created_one :
    map (λ (p : Program). p.name) (create_all is_handle_char 1 dialogue at_start).programs
    ≡ text "shops" ∷ []
unfolding create_all respond_to press_save receive_in create_program_start receive_name strip
    receive_niche receive_chats find_names name_at word_run save_program first_row is_user
    check_program_limit at_most before is_handle_char count_rows update_rows drop_while is_space
    lstrip rstrip starts_with text_eq back_to_chats back_to_niche_description cancel_creation
    new_program chat_rows is_owned_by is_paid_user normalize_subscription any_long
created_one = refl

-- The second dialogue of a free user is refused at its end.
refused_second :
    map
      (λ (p : Program). p.name)
      (create_all is_handle_char 1 (dialogue ++ dialogue) at_start).programs
    ≡ text "shops" ∷ []
unfolding create_all respond_to press_save receive_in create_program_start receive_name strip
    receive_niche receive_chats find_names name_at word_run save_program first_row is_user
    check_program_limit at_most before is_handle_char count_rows update_rows drop_while is_space
    lstrip rstrip starts_with text_eq back_to_chats back_to_niche_description cancel_creation
    new_program chat_rows is_owned_by is_paid_user normalize_subscription any_long
refused_second = refl
