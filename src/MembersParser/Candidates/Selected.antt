-- ===== src/MembersParser/Candidates/Selected.antt =====
-- What holds of the candidates that are returned, and that no user is looked up in vain.
use lead_finder.Prelude.{
  ℕ, suc, ◌≤◌, ◌≡◌, refl, sym, ◌∙◌, subst, Bool, true, false, not, ◌&&◌, ◌⊎◌, inl, inr, Option,
  none, some, List, [], ◌∷◌, ◌==◌, arith, Bool-cases, Option-cases, length, eq_of_some, ==_iff,
}
use lead_finder.Prelude.Text.{Text, truthy}
use lead_finder.DateTime.{DateTime}
use lead_finder.Json.{Json, Fields}
use lead_finder.Models.Table.{All}
use lead_finder.Qualifier.Prompt.{MessageData}
use lead_finder.PainCollector.{ChatMessage}
use lead_finder.MembersParser.{Part, ok, paused, failed, max_floodwait_retries}
use lead_finder.MembersParser.Bio.{find_channel_in_bio}
use lead_finder.MembersParser.Scan.{Chat, TgUser, UserData, Users, Scan, scan, no_scan}
use lead_finder.MembersParser.Scan.Users.{IsEntry, AreEntries, scan-AreEntries}
use lead_finder.MembersParser.Screen.{BatchMessage, Selection}
use lead_finder.MembersParser.Candidates.{
  ParsedCandidate, Profiles, Telegram, parsed, find_user, profile_of, candidate_of, add_candidate,
  build_candidates, is_some, find_entity, end_of, with_profiles, with_selection, with_scan,
  with_entity, parse_users_from_messages,
}

-- A candidate has at least one stored message and at most `cap`, each with a text, and is credited
-- with at least as many.
pub record IsCandidate (cap : ℕ) (c : ParsedCandidate) : Type 0 where
  pub stored : 1 ≤ length c.candidate.messages_with_metadata
  pub capped : length c.candidate.messages_with_metadata ≤ cap
  pub counted : length c.candidate.messages_with_metadata ≤ c.candidate.messages_in_chat
  pub texts : All (λ (m : MessageData). truthy m.text ≡ true) c.candidate.messages_with_metadata

found-first :
    (j k : ℕ) (d d' : UserData) (users : Users)
    → (j == k) ≡ true
    → find_user k ((j, d) ∷ users) ≡ some d'
    → d ≡ d'
unfolding find_user
found-first j k d d' users y e = ground arith

found-later :
    (j k : ℕ) (d : UserData) (users : Users)
    → (j == k) ≡ false
    → find_user k ((j, d) ∷ users) ≡ find_user k users
unfolding find_user
found-later j k d users y = ground arith

find_user-IsEntry :
    (cap k : ℕ) (users : Users) (d : UserData)
    → AreEntries cap users
    → find_user k users ≡ some d
    → IsEntry cap k d
find_user-IsEntry cap k [] d h e = absurd (unfold find_user in ground arith)
find_user-IsEntry cap k ((j, d') ∷ users) d h e =
    let (entry, fresh, rest) = h in
    elim (Bool-cases (j == k)) [
      | inl y ↦
          subst (λ (x : ℕ). IsEntry cap x d) ((==_iff j k).0 y)
            (subst (λ (x : UserData). IsEntry cap j x) (found-first j k d' d users y e) entry)
      | inr y ↦ find_user-IsEntry cap k users d rest (sym (found-later j k d' users y) ∙ e)
    ]

module _ (cap : ℕ) (is_word : ℕ → Bool) (chat_identifier : Text) (chat : Chat)
    (results : List (Text × Json)) (only_with_channels : Bool) where
  candidate_of-IsCandidate :
      (k : ℕ) (d : UserData) (u : TgUser) (m : MessageData) (ms : List MessageData)
      → IsEntry cap k d
      → d.messages ≡ m ∷ ms
      → IsCandidate cap (candidate_of is_word chat_identifier chat results d u)
  unfolding candidate_of
  candidate_of-IsCandidate k d u m ms h e = record {
    stored = rw e (omega arith);
    capped = h.capped;
    counted = h.counted;
    texts = h.texts;
  }

  add_candidate-All :
      (k : ℕ) (d : UserData) (u : TgUser) (rest : List ParsedCandidate)
      → IsEntry cap k d
      → All (IsCandidate cap) rest
      → All
          (IsCandidate cap)
          (add_candidate is_word chat_identifier chat results only_with_channels d u rest)
  add_candidate-All k d u rest h a =
      elim (Bool-cases
        (only_with_channels && not (is_some (find_channel_in_bio is_word u.about)))) [
          | inl y ↦ rw y a
          | inr y ↦ rw y (by_messages d.messages refl)
        ]
    where
      by_messages :
          (ms : List MessageData)
          → d.messages ≡ ms
          → All (IsCandidate cap) (elim ms [
            | [] ↦ rest
            | m ∷ ms ↦ candidate_of is_word chat_identifier chat results d u ∷ rest
          ])
      by_messages [] e = a
      by_messages (m ∷ ms) e = (candidate_of-IsCandidate k d u m ms h e, a)

  build-cons :
      (users : Users) (profiles : Profiles) (k : ℕ) (ks : List ℕ) (cs : List ParsedCandidate)
      → build_candidates is_word chat_identifier chat results only_with_channels users profiles
          (k ∷ ks)
        ≡ some cs
      → (d : UserData) × (rest : List ParsedCandidate) × (find_user k users ≡ some d)
        × (build_candidates is_word chat_identifier chat results only_with_channels users profiles
              ks
            ≡ some rest)
        × (add_candidate is_word chat_identifier chat results only_with_channels d
              (profile_of k d profiles)
              rest
            ≡ cs)
  unfolding build_candidates
  build-cons users profiles k ks cs e = elim (Option-cases (find_user k users)) [
    | inl n ↦ absurd (ground arith)
    | inr (d, f) ↦
        elim (Option-cases (
          build_candidates is_word chat_identifier chat results only_with_channels users profiles
            ks)) [
              | inl n ↦ absurd (ground arith)
              | inr (rest, more) ↦ (d, rest, f, more, ground arith)
            ]
  ]

  build_candidates-All :
      (users : Users) (profiles : Profiles) (ks : List ℕ) (cs : List ParsedCandidate)
      → AreEntries cap users
      → build_candidates is_word chat_identifier chat results only_with_channels users profiles ks
        ≡ some cs
      → All (IsCandidate cap) cs
  unfolding build_candidates
  build_candidates-All users profiles [] cs h e = subst (All (IsCandidate cap)) (eq_of_some e) tt
  build_candidates-All users profiles (k ∷ ks) cs h e =
      let (d, rest, found, more, same) = build-cons users profiles k ks cs e in
      subst (All (IsCandidate cap)) same (
        add_candidate-All k d (profile_of k d profiles) rest
          (find_user-IsEntry cap k users d h found)
          (build_candidates-All users profiles ks rest h more))

end_of-cases :
    (p : Part (List ParsedCandidate × List ChatMessage)) (cs : List ParsedCandidate)
    (ms : List ChatMessage)
    → end_of p ≡ parsed cs ms
    → (p ≡ ok (cs, ms)) ⊎ (cs ≡ [])
end_of-cases (ok (found, texts)) cs ms e = inl (ground arith)
end_of-cases paused cs ms e = absurd (ground arith)
end_of-cases failed cs ms e = inr (ground arith)

module _ (isoformat : DateTime → Text) (is_word : ℕ → Bool) (set_order : List ℕ → List ℕ)
    (screen : List BatchMessage → Fields) (max_age : ℕ) (telegram : Telegram)
    (chat_identifier : Text) (only_with_channels : Bool) where
  profiles-All :
      (cap : ℕ) (chat : Chat) (s : Scan) (selection : Selection) (o : Option Profiles)
      (cs : List ParsedCandidate) (ms : List ChatMessage)
      → AreEntries cap s.unique_users
      → with_profiles isoformat is_word set_order screen max_age telegram chat_identifier
          only_with_channels chat s selection o
        ≡ ok (cs, ms)
      → All (IsCandidate cap) cs
  profiles-All cap chat s selection none cs ms h e = absurd (ground arith)
  profiles-All cap chat s selection (some profiles) cs ms h e =
      elim (Option-cases (
        build_candidates is_word chat_identifier chat selection.results only_with_channels
          s.unique_users profiles (set_order selection.ids))) [
            | inl n ↦ absurd (ground arith)
            | inr (found, b) ↦
                build_candidates-All cap is_word chat_identifier chat selection.results
                  only_with_channels s.unique_users profiles (set_order selection.ids) cs h
                  (ground arith)
          ]

  selection-All :
      (cap : ℕ) (chat : Chat) (s : Scan) (p : Part Selection) (cs : List ParsedCandidate)
      (ms : List ChatMessage)
      → AreEntries cap s.unique_users
      → with_selection isoformat is_word set_order screen max_age telegram chat_identifier
          only_with_channels chat s p
        ≡ ok (cs, ms)
      → All (IsCandidate cap) cs
  selection-All cap chat s paused cs ms h e = absurd (ground arith)
  selection-All cap chat s failed cs ms h e = absurd (ground arith)
  selection-All cap chat s (ok selection) cs ms h e = profiles-All cap chat s selection _ cs ms h e

  module _ (messages_limit : ℕ) (cap : ℕ) (use_batch_analysis : Bool) where
    scan-All :
        (chat : Chat) (p : Part Scan) (cs : List ParsedCandidate) (ms : List ChatMessage)
        → scan isoformat chat max_age cap telegram.ending (telegram.history messages_limit) no_scan
          ≡ p
        → with_scan isoformat is_word set_order screen max_age telegram chat_identifier
            only_with_channels messages_limit cap use_batch_analysis chat p
          ≡ ok (cs, ms)
        → All (IsCandidate cap) cs
    scan-All chat paused cs ms r e = absurd (ground arith)
    scan-All chat failed cs ms r e = absurd (ground arith)
    scan-All chat (ok s) cs ms r e =
        selection-All cap chat s _ cs ms
          (scan-AreEntries isoformat chat max_age cap telegram.ending
            (telegram.history messages_limit) s r)
          e

    chat-All :
        (p : Part (Option Chat)) (cs : List ParsedCandidate) (ms : List ChatMessage)
        → with_entity isoformat is_word set_order screen max_age telegram chat_identifier
            only_with_channels messages_limit cap use_batch_analysis p
          ≡ ok (cs, ms)
        → All (IsCandidate cap) cs
    chat-All paused cs ms e = absurd (ground arith)
    chat-All failed cs ms e = absurd (ground arith)
    chat-All (ok none) cs ms e =
        let same : [] ≡ cs = ground arith in subst (All (IsCandidate cap)) same tt
    chat-All (ok (some chat)) cs ms e = scan-All chat _ cs ms refl e

    -- Every candidate that is returned has at least one stored message and at most
    -- `max_messages_per_user`, each with a text, and is credited with at least as many messages as
    -- are stored.
    pub parse_users-IsCandidate :
        (cs : List ParsedCandidate) (ms : List ChatMessage)
        → parse_users_from_messages isoformat is_word set_order screen max_age telegram
            chat_identifier only_with_channels messages_limit cap use_batch_analysis
          ≡ parsed cs ms
        → All (IsCandidate cap) cs
    unfolding parse_users_from_messages
    parse_users-IsCandidate cs ms e = elim (Bool-cases telegram.authorized) [
      | inl y ↦
          let entity = find_entity telegram.get_entity (suc max_floodwait_retries) 0 in
          elim (end_of-cases
            (with_entity isoformat is_word set_order screen max_age telegram chat_identifier
              only_with_channels messages_limit cap use_batch_analysis entity)
            cs ms (ground arith)) [
              | inl whole ↦ chat-All entity cs ms whole
              | inr nothing ↦ subst (All (IsCandidate cap)) (sym nothing) tt
            ]
      | inr y ↦ absurd (ground arith)
    ]
