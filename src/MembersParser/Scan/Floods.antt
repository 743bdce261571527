-- ===== src/MembersParser/Scan/Floods.antt =====
-- How often Telegram may make the scan wait.
use lead_finder.Prelude.{
  ℕ, suc, ◌+◌, ◌≤◌, ◌<◌, ◌≡◌, refl, sym, ap, ◌∙◌, Bool, true, false, not, ◌&&◌, inl, inr, List, [],
  ◌∷◌, arith, Bool-cases, leb,
}
use lead_finder.Prelude.Text.{Text}
use lead_finder.DateTime.{DateTime}
use lead_finder.MembersParser.{
  Reply, got, flood, raised, Part, ok, paused, failed, handle_flood_wait, max_floodwait_retries,
}
use lead_finder.MembersParser.Scan.{
  Chat, Posted, Sender, nobody, no_user, user, Scan, Ending, exhausted, is_too_old, collect_text,
  handle_sender, handle_reply, handle_message, scan, no_scan,
}
use lead_finder.MembersParser.Scan.Recent.{recent, recent-old, recent-young, scan-old, scan-young}

abbrev pub is_flood : Reply Sender → ℕ
is_flood (flood seconds) = 1
is_flood r = 0

abbrev pub is_raised : Reply Sender → Bool
is_raised raised = true
is_raised r = false

-- How many senders are withheld by a FloodWaitError.
unfoldable pub flood_count : List Posted → ℕ
flood_count [] = 0
flood_count (m ∷ ms) = is_flood m.sender + flood_count ms

-- No request for a sender ends in another exception.
unfoldable pub all_answered : List Posted → Bool
all_answered [] = true
all_answered (m ∷ ms) = not (is_raised m.sender) && all_answered ms

all_answered-cons :
    (m : Posted) (ms : List Posted)
    → all_answered (m ∷ ms) ≡ true
    → (is_raised m.sender ≡ false) × (all_answered ms ≡ true)
unfolding all_answered
all_answered-cons m ms h = ground arith

module _ (isoformat : DateTime → Text) (chat : Chat) (max_age : ℕ) (cap : ℕ) where
  handle_sender-retries :
      (m : Posted) (sender : Sender) (s : Scan)
      → (handle_sender isoformat chat max_age cap m sender s).flood_wait_retries
        ≡ s.flood_wait_retries
  handle_sender-retries m nobody s = refl
  handle_sender-retries m no_user s = refl
  handle_sender-retries m (user u) s = ground arith

  reply-wait :
      (m : Posted) (r : Reply Sender) (s : Scan)
      → is_raised r ≡ false
      → s.flood_wait_retries + is_flood r ≤ max_floodwait_retries
      → (t : Scan) × (handle_reply isoformat chat max_age cap m r s ≡ ok t)
        × (t.flood_wait_retries ≡ s.flood_wait_retries + is_flood r)
  unfolding handle_flood_wait
  reply-wait m (got sender) s answered room = (
    handle_sender isoformat chat max_age cap m sender s,
    refl,
    omega (arith, handle_sender-retries m sender s),
  )
  reply-wait m (flood seconds) s answered room =
      (record s { flood_wait_retries = suc s.flood_wait_retries }, ground arith, omega arith)
  reply-wait m raised s answered room = absurd (ground arith)

  reply-stop :
      (m : Posted) (r : Reply Sender) (s : Scan)
      → is_raised r ≡ false
      → s.flood_wait_retries ≤ max_floodwait_retries
      → max_floodwait_retries < s.flood_wait_retries + is_flood r
      → handle_reply isoformat chat max_age cap m r s ≡ paused
  unfolding handle_flood_wait
  reply-stop m (got sender) s answered low high = absurd (omega arith)
  reply-stop m (flood seconds) s answered low high = ground arith
  reply-stop m raised s answered low high = absurd (ground arith)

  -- A message whose sender does not raise is handled unless the waits are used up.
  handle_message-wait :
      (m : Posted) (s : Scan)
      → is_raised m.sender ≡ false
      → s.flood_wait_retries + is_flood m.sender ≤ max_floodwait_retries
      → (t : Scan) × (handle_message isoformat chat max_age cap m s ≡ ok t)
        × (t.flood_wait_retries ≡ s.flood_wait_retries + is_flood m.sender)
  unfolding handle_message
  handle_message-wait m s answered room =
      reply-wait m m.sender
        (record s { all_messages = collect_text isoformat chat m s.all_messages }) answered room

  handle_message-stop :
      (m : Posted) (s : Scan)
      → is_raised m.sender ≡ false
      → s.flood_wait_retries ≤ max_floodwait_retries
      → max_floodwait_retries < s.flood_wait_retries + is_flood m.sender
      → handle_message isoformat chat max_age cap m s ≡ paused
  unfolding handle_message
  handle_message-stop m s answered low high =
      reply-stop m m.sender
        (record s { all_messages = collect_text isoformat chat m s.all_messages }) answered low high

  -- What the rest of a scan does, by the waits that it needs.
  abbrev IsWaiting : Scan → List Posted → Type 0
  IsWaiting s ms =
      (s.flood_wait_retries + flood_count (recent max_age ms) ≤ max_floodwait_retries
        → (t : Scan) × (scan isoformat chat max_age cap exhausted ms s ≡ ok t))
      × (max_floodwait_retries < s.flood_wait_retries + flood_count (recent max_age ms)
          → scan isoformat chat max_age cap exhausted ms s ≡ paused)

  abbrev after : Ending → List Posted → Part Scan → Part Scan
  after ending ms p = elim p [
    | ok s' ↦ scan isoformat chat max_age cap ending ms s'
    | paused ↦ paused
    | failed ↦ failed
  ]

  IsWaiting-step :
      (m : Posted) (ms : List Posted) (s t : Scan)
      → scan isoformat chat max_age cap exhausted (m ∷ ms) s
        ≡ scan isoformat chat max_age cap exhausted ms t
      → recent max_age (m ∷ ms) ≡ m ∷ recent max_age ms
      → t.flood_wait_retries ≡ s.flood_wait_retries + is_flood m.sender
      → IsWaiting t ms
      → IsWaiting s (m ∷ ms)
  unfolding flood_count
  IsWaiting-step m ms s t same prefix count h =
      rw (prefix, same) (λ low. h.0 (omega (arith, count)), λ high. h.1 (omega (arith, count)))

  IsWaiting-stop :
      (m : Posted) (ms : List Posted) (s : Scan)
      → scan isoformat chat max_age cap exhausted (m ∷ ms) s ≡ paused
      → recent max_age (m ∷ ms) ≡ m ∷ recent max_age ms
      → max_floodwait_retries < s.flood_wait_retries + is_flood m.sender
      → IsWaiting s (m ∷ ms)
  unfolding flood_count
  IsWaiting-stop m ms s stop prefix high = rw prefix (λ low. absurd (omega arith), λ h. stop)

  scan-IsWaiting :
      (ms : List Posted) (s : Scan)
      → all_answered (recent max_age ms) ≡ true
      → s.flood_wait_retries ≤ max_floodwait_retries
      → IsWaiting s ms
  scan-IsWaiting [] s answered low =
      unfold scan recent flood_count in (λ h. (s, refl), λ h. absurd (omega arith))
  scan-IsWaiting (m ∷ ms) s answered low = elim (Bool-cases (is_too_old max_age m.arrived m.date)) [
    | inl old ↦
        rw (scan-old isoformat chat max_age cap exhausted m ms s old, recent-old max_age m ms old)
          (unfold flood_count in (λ h. (s, refl), λ h. absurd (omega arith)))
    | inr young ↦
        let prefix = recent-young max_age m ms young in
        let both =
          all_answered-cons m (recent max_age ms) (sym (ap all_answered prefix) ∙ answered) in
        let next = scan-young isoformat chat max_age cap exhausted m ms s young in
        elim (Bool-cases (leb (s.flood_wait_retries + is_flood m.sender) max_floodwait_retries)) [
          | inl room ↦
              let (t, e, count) = handle_message-wait m s both.0 (ground arith) in
              IsWaiting-step m ms s t (next ∙ ap (after exhausted ms) e) prefix count
                (scan-IsWaiting ms t both.1 (ground arith))
          | inr full ↦
              IsWaiting-stop m ms s
                (next ∙ ap (after exhausted ms) (handle_message-stop m s both.0 low (ground arith)))
                prefix (ground arith)
        ]
  ]

  -- When the history is exhausted and no request for a sender among the recent messages ends in
  -- another exception, the scan ends well if Telegram withholds at most `max_floodwait_retries` of
  -- those senders, and is paused if it withholds more.
  pub scan-floods :
      (ms : List Posted)
      → all_answered (recent max_age ms) ≡ true
      → (flood_count (recent max_age ms) ≤ max_floodwait_retries
          → (t : Scan) × (scan isoformat chat max_age cap exhausted ms no_scan ≡ ok t))
        × (max_floodwait_retries < flood_count (recent max_age ms)
            → scan isoformat chat max_age cap exhausted ms no_scan ≡ paused)
  scan-floods ms answered =
      let h = scan-IsWaiting ms no_scan answered (omega arith) in
      (λ low. h.0 (omega arith), λ high. h.1 (omega arith))
