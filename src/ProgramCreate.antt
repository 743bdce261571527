-- ===== src/ProgramCreate.antt =====
-- bot/handlers/program_create.py with the states of bot/states.py: the dialogue that creates a
-- program. The texts of the messages are left out: a reply says which of them is sent. `is_word` is
-- what `\w` matches.
pub mod Limited
mod Tests
use lead_finder.Prelude.{
  ℕ, zero, suc, ◌+◌, ◌-◌, Bool, true, false, ◌&&◌, not, Option, none, some, List, [], ◌∷◌, ◌++◌,
  ◌==◌, ltb, if◌then◌else◌, length,
}
use lead_finder.Prelude.Int.{ℤ, pos}
use lead_finder.Prelude.Text.{Text, text, strip, truthy, starts_with}
use lead_finder.DateTime.{DateTime}
use lead_finder.Models.{User, Program, ProgramChat}
use lead_finder.Models.Table.{first_row, update_rows}
use lead_finder.Payments.{is_user}
use lead_finder.Subscription.{check_program_limit}
use lead_finder.ProgramEdit.{Call, schedule_program_job}
use lead_finder.ProgramEdit.Chats.{any_long, chat_rows}

-- The states of ProgramCreate; `elsewhere` is no state or one of another dialogue.
pub data CreateState : Type 0 where
  elsewhere enter_name enter_niche_description enter_chats confirm_settings : CreateState

-- The data of the dialogue (`state.get_data()`).
pub record Draft : Type 0 where
  pub name : Option Text
  pub niche_description : Option Text
  pub chats : List Text

-- The user's dialogue, the tables with the next free ids, and the calls of the scheduler, the
-- latest first.
pub record Creation : Type 0 where
  pub state : CreateState
  pub draft : Draft
  pub users : List User
  pub programs : List Program
  pub next_id : ℕ
  pub next_chat_id : ℕ
  pub calls : List Call

-- The last message; `raised` is an exception.
pub data Reply : Type 0 where
  raised unhandled ask_name name_too_long no_chats no_profile cancelled : Reply
  ask_niche ask_chats : Text → Reply
  confirm : Text → List Text → Reply
  refused : Option Text → Reply
  created : Program → ℕ → Reply

abbrev pub no_draft : Draft
no_draft = record { name = none; niche_description = none; chats = [] }

unfoldable pub create_program_start : Creation → Creation × Reply
create_program_start d = (record d { state = enter_name }, ask_name)

unfoldable pub receive_name : Text → Creation → Creation × Reply
receive_name message d =
    let program_name = strip message in
    if ltb 100 (length program_name) then (d, name_too_long) else (
      record d {
        draft = record d.draft { name = some program_name };
        state = enter_niche_description;
      },
      ask_niche program_name,
    )

-- `data['name']`, whose KeyError comes after the change of the state.
abbrev pub with_name : (Text → Reply) → Creation → Creation × Reply
with_name reply d = elim d.draft.name [ none ↦ (d, raised) | some name ↦ (d, reply name) ]

unfoldable pub receive_niche : Text → Creation → Creation × Reply
receive_niche message d =
    with_name ask_chats (record d {
      draft = record d.draft { niche_description = some message };
      state = enter_chats;
    })

abbrev pub confirm_chats : List Text → Creation → Creation × Reply
confirm_chats [] d = (d, no_chats)
confirm_chats (chat ∷ chats) d =
    with_name (λ name. confirm name (chat ∷ chats))
      (record d { draft = record d.draft { chats = chat ∷ chats }; state = confirm_settings })

unfoldable pub back_to_niche_description : Creation → Creation × Reply
back_to_niche_description d = with_name ask_niche (record d { state = enter_niche_description })

unfoldable pub back_to_chats : Creation → Creation × Reply
back_to_chats d = with_name ask_chats (record d { state = enter_chats })

unfoldable pub cancel_creation : Creation → Creation × Reply
cancel_creation d = (record d { state = elsewhere; draft = no_draft }, cancelled)

module _ (is_word : ℕ → Bool) where
  -- The longest `\w*` at the start.
  unfoldable pub word_run : Text → Text
  word_run [] = []
  word_run (c ∷ s) = let rest = word_run s in if is_word c then c ∷ rest else []

  abbrev pub drop_link : Text → Text
  drop_link (t ∷ dot ∷ m ∷ e ∷ slash ∷ s) = s
  drop_link s = []

  -- The name of a match of `@(\w+)|t\.me/(\w+)` at the start, or the empty text.
  unfoldable pub name_at : Text → Text
  name_at [] = []
  name_at (c ∷ s) =
      if c == b'@'
      then word_run s
      else if starts_with (text "t.me/") (c ∷ s)
      then word_run (drop_link (c ∷ s))
      else []

  -- `re.findall`; `skip` characters of a match are left.
  unfoldable pub find_names : ℕ → Text → List Text
  find_names skip [] = []
  find_names (suc skip) (c ∷ s) = find_names skip s
  find_names zero (c ∷ s) = elim (name_at (c ∷ s)) [
    | [] ↦ find_names 0 s
    | x ∷ name ↦ (x ∷ name) ∷ find_names (length (x ∷ name) + (if c == b'@' then 0 else 4)) s
  ]

  unfoldable pub receive_chats : Text → Creation → Creation × Reply
  receive_chats message d = confirm_chats (find_names 0 message) d

-- The row that is added, with the defaults of the columns.
unfoldable pub new_program : ℕ → Text → Text → Creation → Program
new_program user_id name niche_description d = record {
  id = d.next_id;
  user_id = user_id;
  name = name;
  niche_description = niche_description;
  min_score = pos 2;
  max_leads_per_run = pos 50;
  enrich = false;
  schedule_time = text "09:00";
  auto_collect_enabled = false;
  owner_chat_id = some user_id;
  chats = chat_rows user_id d.next_chat_id d.draft.chats;
}

abbrev pub store : ℕ → User → Program → Creation → Creation × Reply
store user_id user p d = (
  record d {
    state = elsewhere;
    draft = no_draft;
    users = update_rows (is_user (pos user_id)) (λ _. user) d.users;
    programs = d.programs ++ p ∷ [];
    next_id = suc d.next_id;
    next_chat_id = d.next_chat_id + length d.draft.chats;
    calls = schedule_program_job p.id user_id p.schedule_time ∷ d.calls;
  },
  created p (length d.draft.chats),
)

-- `data['name']` and `data['niche_description']`; a chat's name that is longer than its column
-- raises at the commit.
abbrev pub store_draft : ℕ → User → Option Text → Option Text → Creation → Creation × Reply
store_draft user_id user (some name) (some niche) d =
    if any_long d.draft.chats
    then (d, raised)
    else store user_id user (new_program user_id name niche d) d
store_draft user_id user _ _ d = (d, raised)

-- The answer of the limit: without a commit, the change to the user is lost.
abbrev pub save_checked : ℕ → User × Bool × Option Text → Creation → Creation × Reply
save_checked user_id (user, true, reason) d =
    store_draft user_id user d.draft.name d.draft.niche_description d
save_checked user_id (user, false, reason) d = (d, refused reason)

abbrev pub save_for_user : DateTime → ℕ → Option User → Creation → Creation × Reply
save_for_user now user_id none d = (d, no_profile)
save_for_user now user_id (some user) d =
    save_checked user_id (check_program_limit now d.programs user) d

unfoldable pub save_program : DateTime → ℕ → Creation → Creation × Reply
save_program now user_id d = save_for_user now user_id (first_row (is_user (pos user_id)) d.users) d

-- The buttons of the dialogue, and a message with a text.
pub data CreateEvent : Type 0 where
  create_button name_back niche_back chats_back save_button cancel_button : CreateEvent
  sent : Text → CreateEvent

unfoldable pub receive_in : (ℕ → Bool) → CreateState → Text → Creation → Creation × Reply
receive_in is_word elsewhere message d = (d, unhandled)
receive_in is_word enter_name message d = receive_name message d
receive_in is_word enter_niche_description message d = receive_niche message d
receive_in is_word enter_chats message d = receive_chats is_word message d
receive_in is_word confirm_settings message d = (d, unhandled)

-- The filter on the state of `save_program`.
unfoldable pub press_save : CreateState → DateTime → ℕ → Creation → Creation × Reply
press_save confirm_settings now user_id d = save_program now user_id d
press_save _ now user_id d = (d, unhandled)

unfoldable pub respond_to : (ℕ → Bool) → ℕ → DateTime → CreateEvent → Creation → Creation × Reply
respond_to is_word u now create_button d = create_program_start d
respond_to is_word u now name_back d = create_program_start d
respond_to is_word u now niche_back d = back_to_niche_description d
respond_to is_word u now chats_back d = back_to_chats d
respond_to is_word u now save_button d = press_save d.state now u d
respond_to is_word u now cancel_button d = cancel_creation d
respond_to is_word u now (sent message) d = receive_in is_word d.state message d

-- The events of one user with their times, one after the other.
unfoldable pub create_all : (ℕ → Bool) → ℕ → List (DateTime × CreateEvent) → Creation → Creation
create_all is_word u [] d = d
create_all is_word u ((now, e) ∷ es) d = create_all is_word u es (respond_to is_word u now e d).0
