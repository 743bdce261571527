-- ===== src/ProgramEdit/Owned.antt =====
-- A user's dialogue never changes a program of another user.
use lead_finder.Prelude.{
  if◌then◌else◌, ltb, length, ◌++◌, ℕ, ◌≡◌, refl, sym, subst, ◌∙◌, Bool, true, false, ◌&&◌, ◌⊎◌,
  inl, inr, Option, none, some, List, [], ◌∷◌, ◌==◌, arith, Bool-cases, ==_iff,
}
use lead_finder.Prelude.Text.{Text, text, truthy, starts_with, strip, lower}
use lead_finder.Prelude.Int.{ℤ, pos}
use lead_finder.ClusterStats.{eq_ℤ}
use lead_finder.Models.{Program, ProgramChat}
use lead_finder.Models.Table.{Paired, update_rows}
use lead_finder.ProgramEdit.{
  EditState, elsewhere, edit_name, edit_niche, edit_chats, edit_settings, Dialogue, Reply, Staged,
  is_own_program, find_program, find_staged, change_at, change_staged, menu_for, show_edit_menu,
  edit_name_start, edit_niche_start, name_for, edit_name_save, niche_for, edit_niche_save,
  or_default, last_id, part_number,
}
use lead_finder.ProgramEdit.Router.{
  Event, pressed, received, Action, menu, name_start, niche_start, chats_start, finish_chats,
  settings_show, score, max_leads, enrichment, auto_collection, save, with_number, after_number,
  press, press_route, receive, routes, route_of, handle, run,
}
use lead_finder.ProgramEdit.Chats.{
  any_long, chat_rows, chats_for, edit_chats_start, delete_chat, add_chats, process_chats,
  edit_chats_process, edit_chats_done,
}
use lead_finder.ProgramEdit.SettingsForm.{
  settings_for, edit_settings_show, set_min_score, set_max_leads, toggle_enrichment,
  toggle_auto_collect, apply_settings, with_schedule, save_for, save_settings,
}

-- A row after an event: the row before it, or a row of the user's with the same id, owner and time.
abbrev pub IsOwnChange : ℕ → Program → Program → Type 0
IsOwnChange user_id p q =
    (q ≡ p)
    ⊎ ((p.user_id ≡ user_id)
        × (q.user_id ≡ user_id)
        × (q.id ≡ p.id)
        × (q.schedule_time ≡ p.schedule_time))

IsOwnChange-trans :
    (u : ℕ) (p q r : Program) → IsOwnChange u p q → IsOwnChange u q r → IsOwnChange u p r
IsOwnChange-trans u p q r (inl e) (inl f) = inl (f ∙ e)
IsOwnChange-trans u p q r (inl e) (inr g) = subst (λ (x : Program). IsOwnChange u x r) e (inr g)
IsOwnChange-trans u p q r (inr h) (inl f) =
    subst (λ (x : Program). IsOwnChange u p x) (sym f) (inr h)
IsOwnChange-trans u p q r (inr (a, b, c, d)) (inr (e, f, g, h)) = inr (a, f, g ∙ c, h ∙ d)

Paired-refl : (u : ℕ) (ps : List Program) → Paired (IsOwnChange u) ps ps
Paired-refl u [] = tt
Paired-refl u (p ∷ ps) = (inl refl, Paired-refl u ps)

Paired-trans :
    (u : ℕ) (ps qs rs : List Program)
    → Paired (IsOwnChange u) ps qs
    → Paired (IsOwnChange u) qs rs
    → Paired (IsOwnChange u) ps rs
Paired-trans u [] [] [] h k = tt
Paired-trans u (p ∷ ps) (q ∷ qs) (r ∷ rs) h k =
    (IsOwnChange-trans u p q r h.0 k.0, Paired-trans u ps qs rs h.1 k.1)
Paired-trans u [] [] (r ∷ rs) h k = k
Paired-trans u [] (q ∷ qs) rs h k = absurd h
Paired-trans u (p ∷ ps) [] rs h k = absurd h
Paired-trans u (p ∷ ps) (q ∷ qs) [] h k = absurd k

-- A change that keeps the id, the owner and the time.
abbrev pub Keeps : (Program → Program) → Type 0
Keeps f =
    (p : Program)
    → ((f p).user_id ≡ p.user_id) × ((f p).id ≡ p.id) × ((f p).schedule_time ≡ p.schedule_time)

update_rows-Paired :
    (u : ℕ) (i : ℤ) (f : Program → Program) (ps : List Program)
    → Keeps f
    → Paired (IsOwnChange u) ps (update_rows (is_own_program u i) f ps)
unfolding update_rows is_own_program
update_rows-Paired u i f [] k = tt
update_rows-Paired u i f (p ∷ ps) k = elim (Bool-cases (eq_ℤ (pos p.id) i && p.user_id == u)) [
  | inl h ↦ rw h (
    inr (
      (==_iff p.user_id u).0 (ground arith),
      (k p).0 ∙ (==_iff p.user_id u).0 (ground arith),
      (k p).1,
      (k p).2,
    ),
    update_rows-Paired u i f ps k,
  )
  | inr h ↦ rw h (inl refl, update_rows-Paired u i f ps k)
]

-- What a handler does to the programs.
abbrev IsOwnStep : ℕ → Dialogue → Dialogue × Reply → Type 0
IsOwnStep u d r = Paired (IsOwnChange u) d.programs r.0.programs

module _ (u : ℕ) where
  change_staged-Paired :
      (f : Program → Program) (d : Dialogue)
      → Keeps f
      → Paired (IsOwnChange u) d.programs (change_staged u f d).programs
  change_staged-Paired f d k = by_id d.staged.program_id
    where
      by_id : (o : Option ℤ) → Paired (IsOwnChange u) d.programs (change_at u o f d).programs
      by_id none = Paired-refl u d.programs
      by_id (some i) = update_rows-Paired u i f d.programs k

  if-IsOwnStep :
      (b : Bool) (d : Dialogue) (x y : Dialogue × Reply)
      → IsOwnStep u d x
      → IsOwnStep u d y
      → IsOwnStep u d (if b then x else y)
  if-IsOwnStep true d x y h k = h
  if-IsOwnStep false d x y h k = k

  menu_for-IsOwnStep : (d : Dialogue) (o : Option Program) → IsOwnStep u d (menu_for u d o)
  menu_for-IsOwnStep d none = Paired-refl u d.programs
  menu_for-IsOwnStep d (some p) = Paired-refl u d.programs

  name_for-IsOwnStep :
      (name : Text) (d : Dialogue) (o : Option Program) → IsOwnStep u d (name_for u name d o)
  name_for-IsOwnStep name d none = Paired-refl u d.programs
  name_for-IsOwnStep name d (some p) =
      if-IsOwnStep (ltb 100 (length name)) d _ _ (Paired-refl u d.programs)
        (change_staged-Paired (λ q. record q { name = name }) d (λ q. (refl, refl, refl)))

  niche_for-IsOwnStep :
      (niche : Text) (d : Dialogue) (o : Option Program) → IsOwnStep u d (niche_for u niche d o)
  niche_for-IsOwnStep niche d none = Paired-refl u d.programs
  niche_for-IsOwnStep niche d (some p) = change_staged-Paired _ d (λ q. (refl, refl, refl))

  chats_for-IsOwnStep :
      (i : ℤ) (d : Dialogue) (o : Option Program) → IsOwnStep u d (chats_for u i d o)
  chats_for-IsOwnStep i d none = Paired-refl u d.programs
  chats_for-IsOwnStep i d (some p) = Paired-refl u d.programs

  delete_chat-IsOwnStep :
      (name : Text) (d : Dialogue) (o : Option ProgramChat) → IsOwnStep u d (delete_chat u name d o)
  delete_chat-IsOwnStep name d none = Paired-refl u d.programs
  delete_chat-IsOwnStep name d (some c) = change_staged-Paired _ d (λ q. (refl, refl, refl))

  add_chats-IsOwnStep : (d : Dialogue) (names : List Text) → IsOwnStep u d (add_chats u d names)
  add_chats-IsOwnStep d [] = Paired-refl u d.programs
  add_chats-IsOwnStep d (name ∷ names) =
      let rows = chat_rows u d.next_chat_id (name ∷ names) in
      if-IsOwnStep (any_long (name ∷ names)) d _ _ (Paired-refl u d.programs) (
        change_staged-Paired (λ q. record q { chats = q.chats ++ rows }) d
          (λ q. (refl, refl, refl)))

  process_chats-IsOwnStep :
      (command : Text) (d : Dialogue) (o : Option Program)
      → IsOwnStep u d (process_chats u command d o)
  process_chats-IsOwnStep command d none = Paired-refl u d.programs
  process_chats-IsOwnStep command d (some p) =
      elim (Bool-cases (starts_with (text "удалить") (lower command))) [
        | inl h ↦ rw h (delete_chat-IsOwnStep _ d _)
        | inr h ↦ rw h (add_chats-IsOwnStep d _)
      ]

  settings_for-IsOwnStep :
      (i : ℤ) (d : Dialogue) (o : Option Program) → IsOwnStep u d (settings_for u i d o)
  settings_for-IsOwnStep i d none = Paired-refl u d.programs
  settings_for-IsOwnStep i d (some p) = Paired-refl u d.programs

  pub apply_settings-Keeps : (s : Staged) → Keeps (apply_settings u s)
  unfolding apply_settings
  apply_settings-Keeps s p =
      by_schedule (or_default s.auto_collect p.auto_collect_enabled) _ refl refl refl
    where
      by_schedule :
          (b : Bool) (q : Program)
          → q.user_id ≡ p.user_id
          → q.id ≡ p.id
          → q.schedule_time ≡ p.schedule_time
          → ((with_schedule u b q).user_id ≡ p.user_id)
            × ((with_schedule u b q).id ≡ p.id)
            × ((with_schedule u b q).schedule_time ≡ p.schedule_time)
      by_schedule true q x y z = (x, y, z)
      by_schedule false q x y z = (x, y, z)

  save_for-IsOwnStep :
      (i : ℤ) (d : Dialogue) (o : Option Program) → IsOwnStep u d (save_for u i d o)
  save_for-IsOwnStep i d none = Paired-refl u d.programs
  save_for-IsOwnStep i d (some p) =
      update_rows-Paired u i (apply_settings u d.staged) d.programs (apply_settings-Keeps d.staged)

  with_number-IsOwnStep :
      (f : ℤ → Dialogue → Dialogue × Reply) (n : Option ℤ) (d : Dialogue)
      → ((i : ℤ) → IsOwnStep u d (f i d))
      → IsOwnStep u d (with_number f n d)
  with_number-IsOwnStep f none d h = Paired-refl u d.programs
  with_number-IsOwnStep f (some n) d h = h n

  after_number-IsOwnStep :
      (n : Option ℤ) (f : Dialogue → Dialogue × Reply) (d : Dialogue)
      → IsOwnStep u d (f d)
      → IsOwnStep u d (after_number n f d)
  after_number-IsOwnStep none f d h = Paired-refl u d.programs
  after_number-IsOwnStep (some n) f d h = h

  press-IsOwnStep : (a : Action) (b : Text) (d : Dialogue) → IsOwnStep u d (press u a b d)
  unfolding press show_edit_menu edit_name_start edit_niche_start edit_chats_start edit_chats_done
      edit_settings_show set_min_score set_max_leads toggle_enrichment toggle_auto_collect
      save_settings
  press-IsOwnStep menu b d =
      with_number-IsOwnStep (show_edit_menu u) (last_id b) d
        (λ i. menu_for-IsOwnStep d (find_program u i d))
  press-IsOwnStep name_start b d =
      with_number-IsOwnStep (edit_name_start u) (last_id b) d (λ i. Paired-refl u d.programs)
  press-IsOwnStep niche_start b d =
      with_number-IsOwnStep (edit_niche_start u) (last_id b) d (λ i. Paired-refl u d.programs)
  press-IsOwnStep chats_start b d =
      with_number-IsOwnStep (edit_chats_start u) (last_id b) d
        (λ i. chats_for-IsOwnStep i d (find_program u i d))
  press-IsOwnStep finish_chats b d =
      with_number-IsOwnStep (edit_chats_done u) (last_id b) d (λ i. Paired-refl u d.programs)
  press-IsOwnStep settings_show b d =
      with_number-IsOwnStep (edit_settings_show u) (last_id b) d
        (λ i. settings_for-IsOwnStep i d (find_program u i d))
  press-IsOwnStep score b d =
      after_number-IsOwnStep (part_number 2 b) (with_number (set_min_score u) (part_number 3 b)) d (
        with_number-IsOwnStep (set_min_score u) (part_number 3 b) d (λ i. Paired-refl u d.programs))
  press-IsOwnStep max_leads b d =
      after_number-IsOwnStep (part_number 2 b) (with_number (set_max_leads u) (part_number 3 b)) d (
        with_number-IsOwnStep (set_max_leads u) (part_number 3 b) d (λ i. Paired-refl u d.programs))
  press-IsOwnStep enrichment b d =
      after_number-IsOwnStep (last_id b) (toggle_enrichment u) d (Paired-refl u d.programs)
  press-IsOwnStep auto_collection b d =
      after_number-IsOwnStep (last_id b) (toggle_auto_collect u) d (Paired-refl u d.programs)
  press-IsOwnStep save b d =
      with_number-IsOwnStep (save_settings u) (last_id b) d
        (λ i. save_for-IsOwnStep i d (find_program u i d))

  receive-IsOwnStep : (s : EditState) (m : Text) (d : Dialogue) → IsOwnStep u d (receive u s m d)
  unfolding receive edit_name_save edit_niche_save edit_chats_process
  receive-IsOwnStep elsewhere m d = Paired-refl u d.programs
  receive-IsOwnStep edit_name m d = elim (Bool-cases (truthy (strip m))) [
    | inl h ↦ rw h (name_for-IsOwnStep (strip m) d (find_staged u d))
    | inr h ↦ rw h (Paired-refl u d.programs)
  ]
  receive-IsOwnStep edit_niche m d = elim (Bool-cases (truthy (strip m))) [
    | inl h ↦ rw h (niche_for-IsOwnStep (strip m) d (find_staged u d))
    | inr h ↦ rw h (Paired-refl u d.programs)
  ]
  receive-IsOwnStep edit_chats m d = process_chats-IsOwnStep (strip m) d (find_staged u d)
  receive-IsOwnStep edit_settings m d = Paired-refl u d.programs

  handle-IsOwnStep : (e : Event) (d : Dialogue) → IsOwnStep u d (handle u e d)
  unfolding handle
  handle-IsOwnStep (received m) d = receive-IsOwnStep d.state m d
  handle-IsOwnStep (pressed b) d = by_route (route_of routes b)
    where
      by_route : (o : Option Action) → IsOwnStep u d (press_route u o b d)
      by_route none = Paired-refl u d.programs
      by_route (some a) = press-IsOwnStep a b d

  -- Whatever a user presses and writes, in any order and with any data, only rows of the user's own
  -- programs change: every other row stays as it is, and a row that changes keeps its id, its owner
  -- and its time.
  pub run-IsOwnChange :
      (es : List Event) (d : Dialogue) → Paired (IsOwnChange u) d.programs (run u es d).programs
  unfolding run
  run-IsOwnChange [] d = Paired-refl u d.programs
  run-IsOwnChange (e ∷ es) d =
      Paired-trans u d.programs (handle u e d).0.programs (run u es (handle u e d).0).programs
        (handle-IsOwnStep e d) (run-IsOwnChange es (handle u e d).0)
