-- ===== src/MembersParser/Scan/Users.antt =====
-- What holds of `unique_users`, and how many messages each user is credited with.
use lead_finder.Prelude.{
  ℕ, suc, ◌+◌, ◌≤◌, ◌≡◌, refl, ap, ◌∙◌, Bool, true, false, not, ◌&&◌, ◌||◌, inl, inr, List, [], ◌∷◌,
  arith, ◌==◌, ltb, if◌then◌else◌, Bool-cases, length, length-append,
}
use lead_finder.Prelude.Text.{Text, truthy, or_empty}
use lead_finder.DateTime.{DateTime}
use lead_finder.Models.Table.{All, All-append}
use lead_finder.Qualifier.Prompt.{MessageData}
use lead_finder.MembersParser.{Reply, got, ok}
use lead_finder.MembersParser.Scan.{
  Chat, TgUser, Posted, Sender, nobody, no_user, user, UserData, Users, Scan, Ending, is_eligible,
  is_too_old, message_data, add_message, record_message, handle_sender, handle_message, scan,
  no_scan,
}
use lead_finder.MembersParser.Scan.Recent.{
  recent, Scanned, done, step, scan-Scanned, handle_message-cases,
}

-- `k in unique_users`
unfoldable pub has_user : ℕ → Users → Bool
has_user k [] = false
has_user k ((j, d) ∷ users) = j == k || has_user k users

-- `unique_users[k]["message_count"]`, and 0 for a user who is not in it.
unfoldable pub count_of : ℕ → Users → ℕ
count_of k [] = 0
count_of k ((j, d) ∷ users) =
    let rest = count_of k users in if j == k then d.message_count else rest

-- No bot, not deleted, and with a username.
abbrev pub IsPerson : TgUser → Type 0
IsPerson u = (u.bot ≡ false) × (u.deleted ≡ false) × (truthy (or_empty u.username) ≡ true)

is_eligible-IsPerson : (u : TgUser) → is_eligible u ≡ true → IsPerson u
unfolding is_eligible
is_eligible-IsPerson u h = ground arith

-- An entry: its key is the user's id, the user is no bot, not deleted and has a username, and of
-- the messages that are counted, at most `cap` are stored, each with a text.
pub record IsEntry (cap : ℕ) (k : ℕ) (d : UserData) : Type 0 where
  pub keyed : k ≡ d.user_obj.id
  pub person : IsPerson d.user_obj
  pub capped : length d.messages ≤ cap
  pub counted : length d.messages ≤ d.message_count
  pub active : 1 ≤ d.message_count
  pub texts : All (λ (m : MessageData). truthy m.text ≡ true) d.messages

-- No two entries have a key in common.
abbrev pub AreEntries : ℕ → Users → Type 0
AreEntries cap [] = Unit
AreEntries cap ((k, d) ∷ users) =
    IsEntry cap k d × (has_user k users ≡ false) × AreEntries cap users

-- A message that counts for the user with this id.
unfoldable pub is_from : ℕ → Posted → Bool
is_from k m = from_reply k m.sender && truthy (or_empty m.text)
  where
    from_reply : ℕ → Reply Sender → Bool
    from_reply k (got (user u)) = u.id == k && is_eligible u
    from_reply k r = false

unfoldable pub messages_from : ℕ → List Posted → ℕ
messages_from k [] = 0
messages_from k (m ∷ ms) = let rest = messages_from k ms in if is_from k m then suc rest else rest

module _ (isoformat : DateTime → Text) (chat : Chat) (max_age : ℕ) (cap : ℕ) where
  has_user-record :
      (j : ℕ) (m : Posted) (u : TgUser) (users : Users)
      → has_user j (record_message isoformat chat max_age cap m u users)
        ≡ (u.id == j || has_user j users)
  unfolding has_user record_message
  has_user-record j m u [] = ground arith
  has_user-record j m u ((k, d) ∷ users) = ground (arith, has_user-record j m u users)

  record_message-hit :
      (m : Posted) (u : TgUser) (k : ℕ) (d : UserData) (users : Users)
      → (k == u.id) ≡ true
      → record_message isoformat chat max_age cap m u ((k, d) ∷ users)
        ≡ (k, add_message isoformat chat max_age cap m d) ∷ users
  unfolding record_message
  record_message-hit m u k d users y = ground arith

  record_message-miss :
      (m : Posted) (u : TgUser) (k : ℕ) (d : UserData) (users : Users)
      → (k == u.id) ≡ false
      → record_message isoformat chat max_age cap m u ((k, d) ∷ users)
        ≡ (k, d) ∷ record_message isoformat chat max_age cap m u users
  unfolding record_message
  record_message-miss m u k d users y = ground arith

  count_of-record :
      (j : ℕ) (m : Posted) (u : TgUser) (users : Users)
      → count_of j (record_message isoformat chat max_age cap m u users)
        ≡ (if u.id == j then suc (count_of j users) else count_of j users)
  unfolding count_of record_message add_message
  count_of-record j m u [] = ground arith
  count_of-record j m u ((k, d) ∷ users) = ground (arith, count_of-record j m u users)

  add_message-IsEntry :
      (m : Posted) (k : ℕ) (d : UserData)
      → truthy (or_empty m.text) ≡ true
      → k ≡ d.user_obj.id
      → IsPerson d.user_obj
      → length d.messages ≤ cap
      → length d.messages ≤ d.message_count
      → All (λ (x : MessageData). truthy x.text ≡ true) d.messages
      → IsEntry cap k (add_message isoformat chat max_age cap m d)
  unfolding add_message
  add_message-IsEntry m k d t keyed person capped counted texts =
      elim (Bool-cases (not (is_too_old max_age m.stored m.date) && ltb (length d.messages) cap)) [
        | inl y ↦ rw y (record {
          keyed = keyed;
          person = person;
          capped = ground (arith, length-append d.messages (message_data isoformat chat m ∷ []));
          counted = ground (arith, length-append d.messages (message_data isoformat chat m ∷ []));
          active = omega arith;
          texts =
              All-append _ d.messages (message_data isoformat chat m) texts
                (unfold message_data in t);
        })
        | inr y ↦ rw y (record {
          keyed = keyed;
          person = person;
          capped = capped;
          counted = omega arith;
          active = omega arith;
          texts = texts;
        })
      ]

  record_message-AreEntries :
      (m : Posted) (u : TgUser) (users : Users)
      → truthy (or_empty m.text) ≡ true
      → is_eligible u ≡ true
      → AreEntries cap users
      → AreEntries cap (record_message isoformat chat max_age cap m u users)
  record_message-AreEntries m u [] t el h =
      unfold record_message in
      (
        add_message-IsEntry m u.id (record { user_obj = u; message_count = 0; messages = [] }) t
            refl (is_eligible-IsPerson u el) (omega arith) (omega arith) tt,
        unfold has_user in refl,
        tt,
      )
  record_message-AreEntries m u ((k, d) ∷ users) t el h =
      let (e, fresh, rest) = h in
      let later = record_message-AreEntries m u users t el rest in
      elim (Bool-cases (k == u.id)) [
        | inl y ↦
            rw (record_message-hit m u k d users y)
              (add_message-IsEntry m k d t e.keyed e.person e.capped e.counted e.texts, fresh, rest)
        | inr y ↦
            rw (record_message-miss m u k d users y)
              (e, has_user-record k m u users ∙ ground arith, later)
      ]

  handle_sender-AreEntries :
      (m : Posted) (sender : Sender) (s : Scan)
      → AreEntries cap s.unique_users
      → AreEntries cap (handle_sender isoformat chat max_age cap m sender s).unique_users
  handle_sender-AreEntries m nobody s h = h
  handle_sender-AreEntries m no_user s h = h
  handle_sender-AreEntries m (user u) s h =
      elim (Bool-cases (truthy (or_empty m.text) && is_eligible u)) [
        | inl y ↦
            rw y (record_message-AreEntries m u s.unique_users (ground arith) (ground arith) h)
        | inr y ↦ rw y h
      ]

  Scanned-AreEntries :
      {ms : List Posted} {s t : Scan}
      → Scanned isoformat chat max_age cap ms s t
      → AreEntries cap s.unique_users
      → AreEntries cap t.unique_users
  Scanned-AreEntries done h = h
  Scanned-AreEntries (step {m} {ms} {s} {t} {u} e rest) h =
      Scanned-AreEntries rest (elim (handle_message-cases isoformat chat max_age cap m s t e) [
        | inl (sender, k, r) ↦ rw r (handle_sender-AreEntries m sender _ h)
        | inr (seconds, k, room, r) ↦ rw r h
      ])

  -- After a scan that ends well, every user has one entry, under its own id: it is no bot, not
  -- deleted, has a username and at least one counted message, and of these at most
  -- `max_messages_per_user` are stored, each with a text.
  pub scan-AreEntries :
      (ending : Ending) (ms : List Posted) (t : Scan)
      → scan isoformat chat max_age cap ending ms no_scan ≡ ok t
      → AreEntries cap t.unique_users
  scan-AreEntries ending ms t e =
      Scanned-AreEntries (scan-Scanned isoformat chat max_age cap ending ms no_scan t e) tt

  handle_sender-count :
      (j : ℕ) (m : Posted) (sender : Sender) (s : Scan)
      → m.sender ≡ got sender
      → count_of j (handle_sender isoformat chat max_age cap m sender s).unique_users
        ≡ (if is_from j m then suc (count_of j s.unique_users) else count_of j s.unique_users)
  unfolding is_from
  handle_sender-count j m nobody s e = rw e refl
  handle_sender-count j m no_user s e = rw e refl
  handle_sender-count j m (user u) s e = rw e (ground (arith, count_of-record j m u s.unique_users))

  handle_message-count :
      (j : ℕ) (m : Posted) (s t : Scan)
      → handle_message isoformat chat max_age cap m s ≡ ok t
      → count_of j t.unique_users
        ≡ (if is_from j m then suc (count_of j s.unique_users) else count_of j s.unique_users)
  handle_message-count j m s t e = elim (handle_message-cases isoformat chat max_age cap m s t e) [
    | inl (sender, k, r) ↦
        ap (λ (x : Scan). count_of j x.unique_users) r ∙ handle_sender-count j m sender _ k
    | inr (seconds, k, room, r) ↦
        ap (λ (x : Scan). count_of j x.unique_users) r ∙ unfold is_from in rw k refl
  ]

  Scanned-count :
      (j : ℕ) {ms : List Posted} {s t : Scan}
      → Scanned isoformat chat max_age cap ms s t
      → count_of j t.unique_users ≡ count_of j s.unique_users + messages_from j ms
  unfolding messages_from
  Scanned-count j done = omega arith
  Scanned-count j (step {m} {ms} {s} {t} {u} e rest) =
      ground (arith, Scanned-count j rest, handle_message-count j m s t e)

  -- After a scan that ends well, the count of a user is the number of recent messages with a text
  -- whose sender came, has this id and is eligible.
  pub scan-count :
      (ending : Ending) (ms : List Posted) (t : Scan) (j : ℕ)
      → scan isoformat chat max_age cap ending ms no_scan ≡ ok t
      → count_of j t.unique_users ≡ messages_from j (recent max_age ms)
  unfolding count_of
  scan-count ending ms t j e =
      omega (arith, Scanned-count j (scan-Scanned isoformat chat max_age cap ending ms no_scan t e))
