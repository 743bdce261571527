-- ===== src/ProgramEdit/Choices.antt =====
-- The buttons of the settings: what they mean, and the data that reaches their handlers.
use lead_finder.Prelude.{ℕ, ◌≡◌, refl, Bool, true, not, some, List, [], ◌∷◌, ◌++◌}
use lead_finder.Prelude.Int.{ℤ, pos}
use lead_finder.Prelude.Text.{Text, text, split-append, split-lacks, lacks, starts_with}
use lead_finder.Prelude.Numeral.{show}
use lead_finder.Prelude.Decimal.{parse_int-show, show-digits, lacks-digits}
use lead_finder.Models.{Program}
use lead_finder.Payments.{last_piece}
use lead_finder.ProgramEdit.{Staged, Dialogue, last_id, part_number}
use lead_finder.ProgramEdit.Router.{
  pressed, Action, score, max_leads, enrichment, auto_collection, settings_show, save, routes,
  route_of, press, handle,
}
use lead_finder.ProgramEdit.SettingsForm.{
  edit_settings_show, set_min_score, set_max_leads, toggle_enrichment, toggle_auto_collect,
  save_settings,
}

-- What the dialogue sets.
pub record Settings : Type 0 where
  pub min_score : ℤ
  pub max_leads : ℤ
  pub enrich : Bool
  pub auto_collect : Bool

abbrev pub settings_of : Program → Settings
settings_of p = record {
  min_score = p.min_score;
  max_leads = p.max_leads_per_run;
  enrich = p.enrich;
  auto_collect = p.auto_collect_enabled;
}

-- The buttons of the settings.
pub data Choice : Type 0 where
  pick_score pick_max : ℕ → Choice
  switch_enrich switch_auto_collect : Choice

-- What a button means.
abbrev pub choose : Choice → Settings → Settings
choose (pick_score n) s = record s { min_score = pos n }
choose (pick_max n) s = record s { max_leads = pos n }
choose switch_enrich s = record s { enrich = not s.enrich }
choose switch_auto_collect s = record s { auto_collect = not s.auto_collect }

abbrev pub choose_all : List Choice → Settings → Settings
choose_all [] s = s
choose_all (c ∷ cs) s = choose_all cs (choose c s)

-- The data of the buttons, as `get_settings_keyboard` writes it.
unfoldable pub choice_data : ℕ → Choice → Text
choice_data id (pick_score n) = text "set_score_" ++ (show id ++ (text "_" ++ show n))
choice_data id (pick_max n) = text "set_max_" ++ (show id ++ (text "_" ++ show n))
choice_data id switch_enrich = text "toggle_enrich_" ++ show id
choice_data id switch_auto_collect = text "toggle_autocollect_" ++ show id

unfoldable pub open_data : ℕ → Text
open_data id = text "edit_settings_" ++ show id

unfoldable pub save_data : ℕ → Text
save_data id = text "save_settings_" ++ show id

pub lacks-show : (n : ℕ) → lacks b'_' (show n) ≡ true
lacks-show n = lacks-digits b'_' (show n) refl (show-digits n)

pub last_id-show :
    (v w : Text) (n : ℕ)
    → lacks b'_' v ≡ true
    → lacks b'_' w ≡ true
    → last_id (v ++ b'_' ∷ (w ++ b'_' ∷ show n)) ≡ some (pos n)
unfolding last_id last_piece
last_id-show v w n h k = rw (split-append b'_' v (w ++ b'_' ∷ show n) h) (
    rw (split-append b'_' w (show n) k)
      (rw (split-lacks b'_' (show n) (lacks-show n)) (rw (parse_int-show n) refl)))

pub part_number-show :
    (v w : Text) (i n : ℕ)
    → lacks b'_' v ≡ true
    → lacks b'_' w ≡ true
    → (part_number 2 (v ++ b'_' ∷ (w ++ b'_' ∷ (show i ++ b'_' ∷ show n))) ≡ some (pos i))
      × (part_number 3 (v ++ b'_' ∷ (w ++ b'_' ∷ (show i ++ b'_' ∷ show n))) ≡ some (pos n))
unfolding part_number
part_number-show v w i n h k = rw (split-append b'_' v (w ++ b'_' ∷ (show i ++ b'_' ∷ show n)) h) (
    rw (split-append b'_' w (show i ++ b'_' ∷ show n) k) (
      rw (split-append b'_' (show i) (show n) (lacks-show i))
        (rw (split-lacks b'_' (show n) (lacks-show n)) (parse_int-show i, parse_int-show n))))

-- The settings as the dialogue holds them.
abbrev pub staged_of : ℤ → Settings → Staged
staged_of id s = record {
  program_id = some id;
  min_score = some s.min_score;
  max_leads = some s.max_leads;
  enrich = some s.enrich;
  auto_collect = some s.auto_collect;
}

pub handle-route :
    (u : ℕ) (b : Text) (a : Action) (d : Dialogue)
    → route_of routes b ≡ some a
    → handle u (pressed b) d ≡ press u a b d
unfolding handle
handle-route u b a d e = rw e refl

pub press-score :
    (u : ℕ) (i n : ℤ) (b : Text) (d : Dialogue)
    → (part_number 2 b ≡ some i) × (part_number 3 b ≡ some n)
    → press u score b d ≡ set_min_score u n d
unfolding press
press-score u i n b d h = rw (h.0, h.1) refl

pub press-max_leads :
    (u : ℕ) (i n : ℤ) (b : Text) (d : Dialogue)
    → (part_number 2 b ≡ some i) × (part_number 3 b ≡ some n)
    → press u max_leads b d ≡ set_max_leads u n d
unfolding press
press-max_leads u i n b d h = rw (h.0, h.1) refl

pub press-enrichment :
    (u : ℕ) (i : ℤ) (b : Text) (d : Dialogue)
    → last_id b ≡ some i
    → press u enrichment b d ≡ toggle_enrichment u d
unfolding press
press-enrichment u i b d h = rw h refl

pub press-auto_collection :
    (u : ℕ) (i : ℤ) (b : Text) (d : Dialogue)
    → last_id b ≡ some i
    → press u auto_collection b d ≡ toggle_auto_collect u d
unfolding press
press-auto_collection u i b d h = rw h refl

pub press-settings_show :
    (u : ℕ) (i : ℤ) (b : Text) (d : Dialogue)
    → last_id b ≡ some i
    → press u settings_show b d ≡ edit_settings_show u i d
unfolding press
press-settings_show u i b d h = rw h refl

pub press-save :
    (u : ℕ) (i : ℤ) (b : Text) (d : Dialogue)
    → last_id b ≡ some i
    → press u save b d ≡ save_settings u i d
unfolding press
press-save u i b d h = rw h refl

unfoldable pub route_choice : Choice → Action
route_choice (pick_score n) = score
route_choice (pick_max n) = max_leads
route_choice switch_enrich = enrichment
route_choice switch_auto_collect = auto_collection

pub route_of-choice :
    (id : ℕ) (c : Choice) → route_of routes (choice_data id c) ≡ some (route_choice c)
unfolding route_of starts_with choice_data route_choice
route_of-choice id (pick_score n) = refl
route_of-choice id (pick_max n) = refl
route_of-choice id switch_enrich = refl
route_of-choice id switch_auto_collect = refl
