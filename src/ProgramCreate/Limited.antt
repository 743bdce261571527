-- ===== src/ProgramCreate/Limited.antt =====
-- The limit of the free plan over a whole dialogue.
use mathlib.Core.List.{append_assoc, append-nil}
use lead_finder.Prelude.{
  ℕ, ◌+◌, ◌≤◌, ◌≡◌, refl, sym, ap, ◌∙◌, Bool, true, false, Option, none, some, List, [], ◌∷◌, ◌++◌,
  arith, leb, if◌then◌else◌, Bool-cases, inl, inr,
}
use lead_finder.Prelude.Int.{pos}
use lead_finder.Prelude.Text.{Text, text_eq}
use lead_finder.DateTime.{DateTime}
use lead_finder.Models.{User, Program}
use lead_finder.Models.Table.{All, first_row, count_rows, first_row-update_rows, first_row-test}
use lead_finder.Payments.{is_user}
use lead_finder.Subscription.{
  paid, is_owned_by, check_program_limit, is_paid_user, normalize_subscription,
  program_limit_reason,
}
use lead_finder.ProgramEdit.Chats.{any_long}
use lead_finder.ProgramCreate.{
  Creation, Reply, raised, unhandled, refused, CreateState, elsewhere, enter_name,
  enter_niche_description, enter_chats, confirm_settings, CreateEvent, create_button, name_back,
  niche_back, chats_back, save_button, cancel_button, sent, with_name, create_program_start,
  receive_name, receive_niche, receive_chats, confirm_chats, find_names, back_to_niche_description,
  back_to_chats, cancel_creation, new_program, store_draft, save_checked, save_program, press_save,
  receive_in, respond_to, create_all,
}

count_rows-append :
    {A : Type 0} (p : A → Bool) (rows later : List A)
    → count_rows p (rows ++ later) ≡ count_rows p rows + count_rows p later
unfolding count_rows
count_rows-append p [] later = ground arith
count_rows-append p (r ∷ rows) later = ground (arith, count_rows-append p rows later)

check-free :
    (now : DateTime) (programs : List Program) (user : User)
    → text_eq user.subscription_type paid ≡ false
    → check_program_limit now programs user ≡ (
        if leb 1 (count_rows (is_owned_by user.telegram_id) programs)
        then (user, false, some program_limit_reason)
        else (user, true, none))
unfolding check_program_limit is_paid_user normalize_subscription
check-free now programs user h = rw h (rw h refl)

All-join : {A : Type 0} (P : A → Type 0) (x y : List A) → All P x → All P y → All P (x ++ y)
All-join P [] y h k = k
All-join P (r ∷ x) y h k = (h.0, All-join P x y h.1 k)

module _ (u : ℕ) where
  -- The user has a row, and it is not a paid one.
  abbrev pub IsFree : Creation → Type 0
  IsFree d =
      (user : User) × (first_row (is_user (pos u)) d.users ≡ some user)
      × (text_eq user.subscription_type paid ≡ false)

  abbrev pub owned : List Program → ℕ
  owned programs = count_rows (is_owned_by u) programs

  -- The table has grown by programs of the user, and the user, still free, has one at most.
  abbrev pub IsWithinLimit : Creation → Creation → Type 0
  IsWithinLimit d d' =
      (added : List Program) × (d'.programs ≡ d.programs ++ added)
      × All (λ (p : Program). p.user_id ≡ u) added
      × IsFree d'
      × (owned d'.programs ≤ 1)

  -- A step that leaves the tables alone.
  abbrev pub IsIdle : Creation → Creation × Reply → Type 0
  IsIdle d r = (r.0.programs ≡ d.programs) × (r.0.users ≡ d.users)

  with_name-IsIdle : (reply : Text → Reply) (d : Creation) → IsIdle d (with_name reply d)
  with_name-IsIdle reply d = by_name d.draft.name
    where
      by_name :
          (o : Option Text) → IsIdle d (elim o [ none ↦ (d, raised) | some name ↦ (d, reply name) ])
      by_name none = (refl, refl)
      by_name (some name) = (refl, refl)

  confirm_chats-IsIdle : (chats : List Text) (d : Creation) → IsIdle d (confirm_chats chats d)
  confirm_chats-IsIdle [] d = (refl, refl)
  confirm_chats-IsIdle (chat ∷ chats) d = with_name-IsIdle _ _

  receive_in-IsIdle :
      (is_word : ℕ → Bool) (state : CreateState) (message : Text) (d : Creation)
      → IsIdle d (receive_in is_word state message d)
  unfolding receive_in receive_name receive_niche receive_chats
  receive_in-IsIdle is_word elsewhere message d = (refl, refl)
  receive_in-IsIdle is_word enter_name message d = ground arith
  receive_in-IsIdle is_word enter_niche_description message d = with_name-IsIdle _ _
  receive_in-IsIdle is_word enter_chats message d =
      confirm_chats-IsIdle (find_names is_word 0 message) d
  receive_in-IsIdle is_word confirm_settings message d = (refl, refl)

  IsWithinLimit-idle :
      (d : Creation) (r : Creation × Reply)
      → IsFree d
      → owned d.programs ≤ 1
      → IsIdle d r
      → IsWithinLimit d r.0
  IsWithinLimit-idle d r free room idle = (
    [],
    idle.0 ∙ sym (append-nil d.programs),
    tt,
    (free.0, ap (first_row (is_user (pos u))) idle.1 ∙ free.1, free.2),
    rw (idle.0) room,
  )

  owned-one :
      (programs : List Program) (p : Program) → owned programs ≡ 0 → owned (programs ++ p ∷ []) ≤ 1
  unfolding count_rows
  owned-one programs p h =
      rw (count_rows-append (is_owned_by u) programs (p ∷ [])) (rw h (ground arith))

  store_draft-IsWithinLimit :
      (user : User) (name niche : Option Text) (d : Creation)
      → first_row (is_user (pos u)) d.users ≡ some user
      → text_eq user.subscription_type paid ≡ false
      → owned d.programs ≡ 0
      → IsWithinLimit d (store_draft u user name niche d).0
  unfolding new_program
  store_draft-IsWithinLimit user (some name) (some niche) d found free none_yet =
      elim (Bool-cases (any_long d.draft.chats)) [
        | inl long ↦
            rw long
              (IsWithinLimit-idle d (d, raised) (user, found, free) (ground arith) (refl, refl))
        | inr short ↦ rw short (
          new_program u name niche d ∷ [],
          refl,
          (refl, tt),
          (
            user,
            first_row-update_rows (is_user (pos u)) (λ _. user) d.users user
                (λ s h. first_row-test (is_user (pos u)) d.users user found) found,
            free,
          ),
          owned-one d.programs (new_program u name niche d) none_yet,
        )
      ]
  store_draft-IsWithinLimit user none niche d found free none_yet =
      IsWithinLimit-idle d (d, raised) (user, found, free) (ground arith) (refl, refl)
  store_draft-IsWithinLimit user (some name) none d found free none_yet =
      IsWithinLimit-idle d (d, raised) (user, found, free) (ground arith) (refl, refl)

  telegram_id-is_user : (user : User) → is_user (pos u) user ≡ true → user.telegram_id ≡ u
  unfolding is_user
  telegram_id-is_user user h = ground (arith, h)

  save_checked-IsWithinLimit :
      (now : DateTime) (user : User) (d : Creation)
      → first_row (is_user (pos u)) d.users ≡ some user
      → text_eq user.subscription_type paid ≡ false
      → owned d.programs ≤ 1
      → IsWithinLimit d (save_checked u (check_program_limit now d.programs user) d).0
  save_checked-IsWithinLimit now user d found free room =
      rw (check-free now d.programs user free)
        (elim (Bool-cases (leb 1 (count_rows (is_owned_by user.telegram_id) d.programs))) [
          | inl h ↦ rw h (
              IsWithinLimit-idle d (d, refused (some program_limit_reason)) (user, found, free) room
                (refl, refl))
          | inr h ↦ rw h (
              store_draft-IsWithinLimit user d.draft.name d.draft.niche_description d found free
                (none_owned h))
        ])
    where
      none_owned :
          leb 1 (count_rows (is_owned_by user.telegram_id) d.programs) ≡ false
          → owned d.programs ≡ 0
      none_owned h =
          let e = telegram_id-is_user user (first_row-test (is_user (pos u)) d.users user found) in
          let k = ap (λ n. leb 1 (count_rows (is_owned_by n) d.programs)) (sym e) ∙ h in
          ground (arith, k)

  save_program-IsWithinLimit :
      (now : DateTime) (d : Creation)
      → IsFree d
      → owned d.programs ≤ 1
      → IsWithinLimit d (save_program now u d).0
  unfolding save_program
  save_program-IsWithinLimit now d free room =
      rw (free.1) (save_checked-IsWithinLimit now free.0 d free.1 free.2 room)

  press_save-IsWithinLimit :
      (state : CreateState) (now : DateTime) (d : Creation)
      → IsFree d
      → owned d.programs ≤ 1
      → IsWithinLimit d (press_save state now u d).0
  unfolding press_save
  press_save-IsWithinLimit confirm_settings now d free room =
      save_program-IsWithinLimit now d free room
  press_save-IsWithinLimit elsewhere now d free room =
      IsWithinLimit-idle d (d, unhandled) free room (refl, refl)
  press_save-IsWithinLimit enter_name now d free room =
      IsWithinLimit-idle d (d, unhandled) free room (refl, refl)
  press_save-IsWithinLimit enter_niche_description now d free room =
      IsWithinLimit-idle d (d, unhandled) free room (refl, refl)
  press_save-IsWithinLimit enter_chats now d free room =
      IsWithinLimit-idle d (d, unhandled) free room (refl, refl)

  respond_to-IsWithinLimit :
      (is_word : ℕ → Bool) (now : DateTime) (e : CreateEvent) (d : Creation)
      → IsFree d
      → owned d.programs ≤ 1
      → IsWithinLimit d (respond_to is_word u now e d).0
  unfolding respond_to create_program_start back_to_niche_description back_to_chats cancel_creation
  respond_to-IsWithinLimit is_word now create_button d free room =
      IsWithinLimit-idle d (create_program_start d) free room (refl, refl)
  respond_to-IsWithinLimit is_word now name_back d free room =
      IsWithinLimit-idle d (create_program_start d) free room (refl, refl)
  respond_to-IsWithinLimit is_word now niche_back d free room =
      IsWithinLimit-idle d (back_to_niche_description d) free room (with_name-IsIdle _ _)
  respond_to-IsWithinLimit is_word now chats_back d free room =
      IsWithinLimit-idle d (back_to_chats d) free room (with_name-IsIdle _ _)
  respond_to-IsWithinLimit is_word now save_button d free room =
      press_save-IsWithinLimit d.state now d free room
  respond_to-IsWithinLimit is_word now cancel_button d free room =
      IsWithinLimit-idle d (cancel_creation d) free room (refl, refl)
  respond_to-IsWithinLimit is_word now (sent message) d free room =
      IsWithinLimit-idle d (receive_in is_word d.state message d) free room
        (receive_in-IsIdle is_word d.state message d)

  -- For a free user with one program at most, whatever the user presses and writes in the dialogue,
  -- in any order and at any times, the table only grows, by programs of the user, and the user,
  -- still free, has one program at most.
  pub create_all-IsWithinLimit :
      (is_word : ℕ → Bool) (es : List (DateTime × CreateEvent)) (d : Creation)
      → IsFree d
      → owned d.programs ≤ 1
      → IsWithinLimit d (create_all is_word u es d)
  unfolding create_all
  create_all-IsWithinLimit is_word [] d free room =
      IsWithinLimit-idle d (d, unhandled) free room (refl, refl)
  create_all-IsWithinLimit is_word ((now, e) ∷ es) d free room =
      let step = respond_to-IsWithinLimit is_word now e d free room in
      let rest =
        create_all-IsWithinLimit is_word es (respond_to is_word u now e d).0 step.3 step.4 in
      (
        step.0 ++ rest.0,
        rest.1
            ∙ ap (λ (x : List Program). x ++ rest.0) step.1
            ∙ append_assoc d.programs step.0 rest.0,
        All-join _ step.0 rest.0 step.2 rest.2,
        rest.3,
        rest.4,
      )
