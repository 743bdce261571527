-- ===== src/ProgramEdit/SettingsForm.antt =====
-- The dialogue on the settings of a program.
use lead_finder.Prelude.{ℕ, zero, suc, Bool, true, false, not, Option, none, some, ◌∷◌}
use lead_finder.Prelude.Int.{ℤ, pos}
use lead_finder.Models.{Program}
use lead_finder.ProgramEdit.{
  clear, find_program, change_program, or_default, Staged, Call, Dialogue, Reply, edit_settings,
  schedule_program_job, remove_program_job, not_found, saved, settings_shown,
}

module _ (user_id : ℕ) where
  -- The settings of a program, as they are staged.
  unfoldable pub staged_for : ℤ → Program → Staged
  staged_for program_id p = record {
    program_id = some program_id;
    min_score = some p.min_score;
    max_leads = some p.max_leads_per_run;
    enrich = some p.enrich;
    auto_collect = some p.auto_collect_enabled;
  }

  abbrev pub settings_for : ℤ → Dialogue → Option Program → Dialogue × Reply
  settings_for program_id d none = (d, not_found)
  settings_for program_id d (some p) =
      let staged = staged_for program_id p in
      (record d { state = edit_settings; staged = staged }, settings_shown staged)

  unfoldable pub edit_settings_show : ℤ → Dialogue → Dialogue × Reply
  edit_settings_show program_id d = settings_for program_id d (find_program user_id program_id d)

  abbrev pub restage : Staged → Dialogue → Dialogue × Reply
  restage staged d = (record d { staged = staged }, settings_shown staged)

  unfoldable pub set_min_score : ℤ → Dialogue → Dialogue × Reply
  set_min_score new_score d = restage (record d.staged { min_score = some new_score }) d

  unfoldable pub set_max_leads : ℤ → Dialogue → Dialogue × Reply
  set_max_leads new_max d = restage (record d.staged { max_leads = some new_max }) d

  unfoldable pub toggle_enrichment : Dialogue → Dialogue × Reply
  toggle_enrichment d =
      restage (record d.staged { enrich = some (not (or_default d.staged.enrich false)) }) d

  unfoldable pub toggle_auto_collect : Dialogue → Dialogue × Reply
  toggle_auto_collect d =
      restage
        (record d.staged { auto_collect = some (not (or_default d.staged.auto_collect true)) }) d

  -- `program.owner_chat_id or callback.from_user.id`
  abbrev pub owner_or_user : Option ℕ → ℕ
  owner_or_user none = user_id
  owner_or_user (some zero) = user_id
  owner_or_user (some (suc n)) = suc n

  abbrev pub with_schedule : Bool → Program → Program
  with_schedule true p = record p {
    auto_collect_enabled = true;
    owner_chat_id = some (owner_or_user p.owner_chat_id);
  }
  with_schedule false p = record p { auto_collect_enabled = false }

  -- The assignments of `save_settings`.
  unfoldable pub apply_settings : Staged → Program → Program
  apply_settings s p = with_schedule (or_default s.auto_collect p.auto_collect_enabled) (record p {
    min_score = or_default s.min_score (pos 5);
    max_leads_per_run = or_default s.max_leads (pos 50);
    enrich = or_default s.enrich false;
  })

  abbrev pub call_for : Program → Bool → Call
  call_for p true = schedule_program_job p.id (owner_or_user p.owner_chat_id) p.schedule_time
  call_for p false = remove_program_job p.id

  abbrev pub save_for : ℤ → Dialogue → Option Program → Dialogue × Reply
  save_for program_id d none = (clear d, saved)
  save_for program_id d (some p) = (
    clear (record (change_program user_id program_id (apply_settings d.staged) d) {
      calls = call_for p (or_default d.staged.auto_collect p.auto_collect_enabled) ∷ d.calls;
    }),
    saved,
  )

  unfoldable pub save_settings : ℤ → Dialogue → Dialogue × Reply
  save_settings program_id d = save_for program_id d (find_program user_id program_id d)
