-- ===== src/ProgramEdit/Settings.antt =====
-- The dialogue on the settings: what is saved is what was chosen.
use lead_finder.Prelude.{ℕ, ◌≡◌, refl, ap, ◌∙◌, Bool, true, false, some, List, [], ◌∷◌, ◌++◌, map}
use lead_finder.Prelude.Int.{pos}
use lead_finder.Prelude.Text.{text, lacks, starts_with}
use lead_finder.Models.{Program}
use lead_finder.Models.Table.{first_row, update_rows, first_row-update_rows}
use lead_finder.ProgramEdit.{
  elsewhere, edit_settings, Staged, Dialogue, Reply, is_own_program, find_program, or_default,
}
use lead_finder.ProgramEdit.Router.{
  Event, pressed, score, max_leads, enrichment, auto_collection, settings_show, save, route_of,
  handle, run,
}
use lead_finder.ProgramEdit.SettingsForm.{
  staged_for, edit_settings_show, set_min_score, set_max_leads, toggle_enrichment,
  toggle_auto_collect, apply_settings, with_schedule, save_for, save_settings,
}
use lead_finder.ProgramEdit.Owned.{apply_settings-Keeps}
use lead_finder.ProgramEdit.Choices.{
  Settings, settings_of, Choice, choose, choose_all, choice_data, open_data, save_data,
  last_id-show, part_number-show, staged_of, handle-route, press-score, press-max_leads,
  press-enrichment, press-auto_collection, press-settings_show, press-save, route_choice,
  route_of-choice, pick_score, pick_max, switch_enrich, switch_auto_collect,
}

module _ (u id : ℕ) where
  handle-choice :
      (c : Choice) (s : Settings) (d : Dialogue)
      → d.staged ≡ staged_of (pos id) s
      → (handle u (pressed (choice_data id c)) d).0
        ≡ record d { staged = staged_of (pos id) (choose c s) }
  unfolding set_min_score set_max_leads toggle_enrichment toggle_auto_collect route_choice
      choice_data lacks
  handle-choice (pick_score n) s d e =
      ap (λ (r : Dialogue × Reply). r.0)
        (handle-route u _ score d (route_of-choice id (pick_score n))
          ∙ press-score u (pos id) (pos n) _ d
              (part_number-show (text "set") (text "score") id n refl refl))
      ∙ rw e refl
  handle-choice (pick_max n) s d e =
      ap (λ (r : Dialogue × Reply). r.0)
        (handle-route u _ max_leads d (route_of-choice id (pick_max n))
          ∙ press-max_leads u (pos id) (pos n) _ d
              (part_number-show (text "set") (text "max") id n refl refl))
      ∙ rw e refl
  handle-choice switch_enrich s d e =
      ap (λ (r : Dialogue × Reply). r.0)
        (handle-route u _ enrichment d (route_of-choice id switch_enrich)
          ∙ press-enrichment u (pos id) _ d
              (last_id-show (text "toggle") (text "enrich") id refl refl))
      ∙ rw e refl
  handle-choice switch_auto_collect s d e =
      ap (λ (r : Dialogue × Reply). r.0)
        (handle-route u _ auto_collection d (route_of-choice id switch_auto_collect)
          ∙ press-auto_collection u (pos id) _ d
              (last_id-show (text "toggle") (text "autocollect") id refl refl))
      ∙ rw e refl

  run-cons :
      (e : Event) (es : List Event) (d : Dialogue) → run u (e ∷ es) d ≡ run u es (handle u e d).0
  unfolding run
  run-cons e es d = refl

  run-choices :
      (cs : List Choice) (s : Settings) (d : Dialogue) (rest : List Event)
      → d.staged ≡ staged_of (pos id) s
      → run u (map (λ c. pressed (choice_data id c)) cs ++ rest) d
        ≡ run u rest (record d { staged = staged_of (pos id) (choose_all cs s) })
  run-choices [] s d rest e = rw (← e) refl
  run-choices (c ∷ cs) s d rest e =
      run-cons (pressed (choice_data id c)) (map (λ c. pressed (choice_data id c)) cs ++ rest) d
      ∙ ap (run u (map (λ c. pressed (choice_data id c)) cs ++ rest)) (handle-choice c s d e)
      ∙ run-choices cs (choose c s) (record d { staged = staged_of (pos id) (choose c s) }) rest
          refl

  settings_of-apply :
      (s : Settings) (p : Program) → settings_of (apply_settings u (staged_of (pos id) s) p) ≡ s
  unfolding apply_settings
  settings_of-apply s p = by_schedule s.auto_collect refl
    where
      by_schedule :
          (b : Bool)
          → s.auto_collect ≡ b
          → settings_of (
              with_schedule u b (record p {
                min_score = s.min_score;
                max_leads_per_run = s.max_leads;
                enrich = s.enrich;
              }))
            ≡ record s { auto_collect = b }
      by_schedule true e = refl
      by_schedule false e = refl

  kept_by-apply :
      (s : Staged) (p : Program)
      → ((apply_settings u s p).name ≡ p.name)
        × ((apply_settings u s p).niche_description ≡ p.niche_description)
        × ((apply_settings u s p).chats ≡ p.chats)
  unfolding apply_settings
  kept_by-apply s p = by_schedule (or_default s.auto_collect p.auto_collect_enabled)
    where
      by_schedule :
          (b : Bool)
          → let q = with_schedule u b (record p {
            min_score = or_default s.min_score (pos 5);
            max_leads_per_run = or_default s.max_leads (pos 50);
            enrich = or_default s.enrich false;
          }) in
            (q.name ≡ p.name) × (q.niche_description ≡ p.niche_description) × (q.chats ≡ p.chats)
      by_schedule true = (refl, refl, refl)
      by_schedule false = (refl, refl, refl)

  handle-open :
      (p : Program) (d : Dialogue)
      → find_program u (pos id) d ≡ some p
      → (handle u (pressed (open_data id)) d).0
        ≡ record d { state = edit_settings; staged = staged_of (pos id) (settings_of p) }
  unfolding edit_settings_show staged_for open_data lacks route_of starts_with
  handle-open p d e =
      ap (λ (r : Dialogue × Reply). r.0)
        (handle-route u _ settings_show d refl
          ∙ press-settings_show u (pos id) _ d
              (last_id-show (text "edit") (text "settings") id refl refl))
      ∙ rw e refl

  handle-save :
      (p : Program) (d : Dialogue)
      → find_program u (pos id) d ≡ some p
      → (handle u (pressed (save_data id)) d).0 ≡ (save_for u (pos id) d (some p)).0
  unfolding save_settings save_data lacks route_of starts_with
  handle-save p d e =
      ap (λ (r : Dialogue × Reply). r.0)
        (handle-route u _ save d refl
          ∙ press-save u (pos id) _ d (last_id-show (text "save") (text "settings") id refl refl))
      ∙ rw e refl

  -- The user opens the settings, presses buttons, and saves.
  abbrev pub session : List Choice → List Event
  session cs =
      pressed (open_data id)
      ∷ (map (λ c. pressed (choice_data id c)) cs ++ pressed (save_data id) ∷ [])

  find-after_save :
      (s : Staged) (p : Program) (d : Dialogue)
      → find_program u (pos id) d ≡ some p
      → first_row
          (is_own_program u (pos id))
          (update_rows (is_own_program u (pos id)) (apply_settings u s) d.programs)
        ≡ some (apply_settings u s p)
  find-after_save s p d e =
      first_row-update_rows _ (apply_settings u s) d.programs p
        (λ q h. let k = apply_settings-Keeps u s q in unfold is_own_program in rw (k.0, k.1) h) e

  opened : List Choice → Program → Dialogue → Dialogue
  opened cs p d = record d {
    state = edit_settings;
    staged = staged_of (pos id) (choose_all cs (settings_of p));
  }

  run-whole :
      (cs : List Choice) (p : Program) (d : Dialogue)
      → find_program u (pos id) d ≡ some p
      → run u (session cs) d ≡ (save_for u (pos id) (opened cs p d) (some p)).0
  unfolding opened
  run-whole cs p d e =
      run-cons (pressed (open_data id)) _ d
      ∙ ap (run u (map (λ c. pressed (choice_data id c)) cs ++ pressed (save_data id) ∷ []))
          (handle-open p d e)
      ∙ run-choices cs (settings_of p)
          (record d { state = edit_settings; staged = staged_of (pos id) (settings_of p) })
          (pressed (save_data id) ∷ []) refl
      ∙ run-cons (pressed (save_data id)) [] (opened cs p d)
      ∙ unfold run in handle-save p (opened cs p d) e

  -- A session on a program of the user's ends outside the dialogue, and leaves the program with the
  -- settings that the buttons meant, one after the other from the program's own; its name, its
  -- niche and its chats are kept.
  pub run-session :
      (cs : List Choice) (p : Program) (d : Dialogue)
      → find_program u (pos id) d ≡ some p
      → (q : Program) × (find_program u (pos id) (run u (session cs) d) ≡ some q)
        × (settings_of q ≡ choose_all cs (settings_of p))
        × (q.name ≡ p.name)
        × (q.niche_description ≡ p.niche_description)
        × (q.chats ≡ p.chats)
        × ((run u (session cs) d).state ≡ elsewhere)
  unfolding opened
  run-session cs p d e =
      let chosen = choose_all cs (settings_of p) in
      let kept = kept_by-apply (staged_of (pos id) chosen) p in
      rw (run-whole cs p d e) (
        apply_settings u (staged_of (pos id) chosen) p,
        find-after_save (staged_of (pos id) chosen) p d e,
        settings_of-apply chosen p,
        kept.0,
        kept.1,
        kept.2,
        refl,
      )
