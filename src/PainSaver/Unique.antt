-- ===== src/PainSaver/Unique.antt =====
-- The loop over a lead's pains: the keys of the rows that it adds are new.
use mathlib.Core.List.{append_assoc}
use lead_finder.Prelude.{
  ℕ, suc, ◌%◌, ◌≤◌, ◌≡◌, ◌≢◌, ◌⊎◌, refl, sym, ◌∙◌, subst, true, false, Option, none, some, List, [],
  ◌∷◌, ◌++◌, arith, eq_of_some, Option-cases, Bool-cases, inl, inr, length, length-append,
  if◌then◌else◌, ◌==◌, length-take, get_or,
}
use lead_finder.Prelude.Text.{Text, text, text_eq_iff, truthy, or_empty, strip, lstrip_char}
use lead_finder.Json.{Json, Items, Fields, get}
use lead_finder.Models.{Pain}
use lead_finder.Models.Table.{All, All-append, first_row}
use lead_finder.PainStore.{numbered, PainStore, find_recorded, is_recorded, has_key, same_key}
use lead_finder.PainStore.Unique.{HasUniqueKeys, has_key-append, append-HasUniqueKeys}
use lead_finder.Qualifier.Prompt.{MessageData, Candidate}
use lead_finder.PainSaver.{
  Key, key_of, is_seen, Saving, trim, source_chat_of, lead_pain, quote_of, save_pain, save_from,
  save_all, pain_texts, pain_text_of, extract_pain_texts, iterated, or_else,
}

-- A row of the user, or of a chat that is not this one.
abbrev pub IsApart : ℕ → Text → Pain → Type 0
IsApart user_id chat p = (p.user_id ≡ user_id) ⊎ (p.source_chat ≢ chat)

-- A row that a save adds for a user's lead.
pub record IsSaved (user_id program_id : ℕ) (c : Candidate) (p : Pain) : Type 0 where
  pub owner : p.user_id ≡ user_id
  pub program : p.program_id ≡ program_id
  pub chat : p.source_chat ≡ source_chat_of c
  pub bounded : length p.source_chat ≤ 100
  pub has_message : p.source_message_id ≢ 0
  pub has_text : truthy p.text ≡ true
  pub has_quote : truthy p.original_quote ≡ true
  pub unclustered : p.cluster_id ≡ none

-- The query finds every stored row of the user that the constraint would refuse.
not-has_key :
    (user_id : ℕ) (p : Pain) (rows : List Pain)
    → All (IsApart user_id p.source_chat) rows
    → first_row (is_recorded user_id p.source_message_id p.source_chat p.original_quote) rows ≡ none
    → has_key p rows ≡ false
unfolding first_row is_recorded has_key same_key
not-has_key user_id p [] own e = refl
not-has_key user_id p (q ∷ rows) own e =
    let rest = not-has_key user_id p rows own.1 in
    elim own.0 [
      | inl mine ↦ ground (
        arith,
        text_eq_iff p.source_chat q.source_chat,
        text_eq_iff q.source_chat p.source_chat,
        text_eq_iff p.original_quote q.original_quote,
        text_eq_iff q.original_quote p.original_quote,
      )
      | inr apart ↦ ground (
        arith,
        text_eq_iff p.source_chat q.source_chat,
        text_eq_iff q.source_chat p.source_chat,
        λ (e : p.source_chat ≡ q.source_chat). apart (sym e),
      )
    ]

-- Every pending key has been seen.
abbrev pub Covered : List Pain → List Key → Type 0
Covered rows seen = (p : Pain) → has_key p rows ≡ true → is_seen (key_of p) seen ≡ true

Covered-append :
    (rows : List Pain) (seen : List Key) (r : Pain)
    → Covered rows seen
    → Covered (rows ++ r ∷ []) (key_of r ∷ seen)
unfolding has_key is_seen same_key
Covered-append rows seen r h p e = ground (arith, has_key-append p rows (r ∷ []), h p)

Covered-seen :
    (rows : List Pain) (seen : List Key) (k : Key) → Covered rows seen → Covered rows (k ∷ seen)
unfolding is_seen
Covered-seen rows seen k h p e = ground (arith, h p)

trim-length : (v : Option Text) (n : ℕ) → length (or_empty (trim v n)) ≤ n
unfolding trim
trim-length none n = omega arith
trim-length (some s) n = ground (arith, length-take n (strip s))

source_chat_of-length : (c : Candidate) → length (source_chat_of c) ≤ 100
unfolding source_chat_of
source_chat_of-length c =
    trim-length
      (some (
        lstrip_char 0x40 (
          if truthy (or_empty c.source_chat_username)
          then or_empty c.source_chat_username
          else c.source_chat)))
      100

-- A text of the answer that is kept is not empty.
pain_texts-truthy :
    (shown : Json → Text) (vs : List Json) → All (λ t. truthy t ≡ true) (pain_texts shown vs)
unfolding pain_texts
pain_texts-truthy shown [] = tt
pain_texts-truthy shown (v ∷ vs) = elim (Bool-cases (truthy (pain_text_of shown v))) [
  | inl full ↦ rw full (full, pain_texts-truthy shown vs)
  | inr empty ↦ rw empty (pain_texts-truthy shown vs)
]

pub extract_pain_texts-truthy :
    (shown : Json → Text) (fs : Fields) (ts : List Text)
    → extract_pain_texts shown fs ≡ some ts
    → All (λ t. truthy t ≡ true) ts
unfolding extract_pain_texts
extract_pain_texts-truthy shown fs ts e =
    elim (Option-cases
      (iterated (or_else (get (text "identified_pains") fs) (Json.arr Items.nil)))) [
        | inl raised ↦ absurd (ground arith)
        | inr (vs, read) ↦
            subst (All (λ t. truthy t ≡ true)) (eq_of_some (ground arith))
              (pain_texts-truthy shown vs)
      ]

module _ (user_id program_id : ℕ) (c : Candidate) (stored : List Pain) where
  -- The loop's state: the rows added wait behind the stored ones, counted, with keys that are new.
  pub record IsSaving (acc : Saving) : Type 0 where
    pub fixed : acc.store.stored ≡ stored
    pub unique : HasUniqueKeys (stored ++ acc.store.pending)
    pub covered : Covered acc.store.pending acc.seen
    pub counted : length acc.store.pending ≡ acc.inserted
    pub rows : All (IsSaved user_id program_id c) acc.store.pending

  numbered-IsSaved :
      (s : PainStore) (p : Pain)
      → IsSaved user_id program_id c p
      → IsSaved user_id program_id c (numbered s p)
  numbered-IsSaved s p h = record {
    owner = h.owner;
    program = h.program;
    chat = h.chat;
    bounded = h.bounded;
    has_message = h.has_message;
    has_text = h.has_text;
    has_quote = h.has_quote;
    unclustered = h.unclustered;
  }

  save-HasUniqueKeys :
      (p : Pain) (acc : Saving)
      → All (IsApart user_id p.source_chat) stored
      → is_seen (key_of p) acc.seen ≡ false
      → find_recorded user_id p.source_message_id p.source_chat p.original_quote acc.store ≡ none
      → IsSaving acc
      → HasUniqueKeys (stored ++ (acc.store.pending ++ numbered acc.store p ∷ []))
  unfolding find_recorded
  save-HasUniqueKeys p acc own new missing g =
      let q = numbered acc.store p in
      let not_stored = not-has_key user_id q stored own (rw (← g.fixed) missing) in
      let not_pending : has_key q acc.store.pending ≡ false = ground (arith, g.covered q) in
      subst HasUniqueKeys (append_assoc stored acc.store.pending (q ∷ [])) (
        append-HasUniqueKeys (stored ++ acc.store.pending) q g.unique
          (has_key-append q stored acc.store.pending ∙ rw (not_stored, not_pending) refl))

  save_pain-IsSaving :
      (business_type : Option Text) (p : Pain) (acc : Saving)
      → All (IsApart user_id (source_chat_of c)) stored
      → IsSaved user_id program_id c p
      → IsSaving acc
      → IsSaving (save_pain user_id program_id c business_type p acc)
  unfolding save_pain
  save_pain-IsSaving business_type p acc own h g = elim (Bool-cases (is_seen (key_of p) acc.seen)) [
    | inl seen ↦ rw seen g
    | inr new ↦
        elim (Option-cases
          (find_recorded user_id p.source_message_id p.source_chat p.original_quote acc.store)) [
            | inr (q, recorded) ↦
                rw (new, recorded)
                  (record {
                    fixed = g.fixed;
                    unique = g.unique;
                    covered = Covered-seen acc.store.pending acc.seen (key_of p) g.covered;
                    counted = g.counted;
                    rows = g.rows;
                  })
            | inl missing ↦
                rw (new, missing)
                  (record {
                    fixed = g.fixed;
                    unique = save-HasUniqueKeys p acc (rw h.chat own) new missing g;
                    covered =
                        Covered-append acc.store.pending acc.seen (numbered acc.store p) g.covered;
                    counted = omega (
                      arith,
                      length-append acc.store.pending (numbered acc.store p ∷ []),
                      g.counted,
                    );
                    rows =
                        All-append (IsSaved user_id program_id c) acc.store.pending
                          (numbered acc.store p) g.rows (numbered-IsSaved acc.store p h);
                  })
          ]
  ]

  save_from-IsSaving :
      (business_type : Option Text) (msg : MessageData) (t : Text) (acc : Saving)
      → All (IsApart user_id (source_chat_of c)) stored
      → truthy t ≡ true
      → IsSaving acc
      → IsSaving (save_from user_id program_id c business_type msg t acc)
  unfolding save_from
  save_from-IsSaving b msg t acc own full g = elim (Bool-cases (msg.message_id == 0)) [
    | inl zeroth ↦ rw zeroth g
    | inr there ↦ elim (Bool-cases (truthy (quote_of msg t))) [
      | inr empty ↦ rw (there, empty) g
      | inl quoted ↦
          rw (there, quoted)
            (save_pain-IsSaving b (lead_pain user_id program_id c b t msg (quote_of msg t)) acc own
              (unfold lead_pain in
                record {
                  owner = refl;
                  program = refl;
                  chat = refl;
                  bounded = source_chat_of-length c;
                  has_message = λ (e : msg.message_id ≡ 0). ground arith;
                  has_text = full;
                  has_quote = quoted;
                  unclustered = refl;
                })
              g)
    ]
  ]

  pub save_all-IsSaving :
      (business_type : Option Text) (m : MessageData) (ms : List MessageData) (idx : ℕ)
      (ts : List Text) (acc : Saving)
      → All (IsApart user_id (source_chat_of c)) stored
      → All (λ t. truthy t ≡ true) ts
      → IsSaving acc
      → IsSaving (save_all user_id program_id c business_type m ms idx ts acc)
  unfolding save_all
  save_all-IsSaving b m ms idx [] acc own full g = g
  save_all-IsSaving b m ms idx (t ∷ ts) acc own full g =
      let msg = get_or (m ∷ ms) (idx % suc (length ms)) m in
      save_all-IsSaving b m ms (suc idx) ts (save_from user_id program_id c b msg t acc) own full.1
        (save_from-IsSaving b msg t acc own full.0 g)
