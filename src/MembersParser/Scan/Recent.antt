-- ===== src/MembersParser/Scan/Recent.antt =====
-- The scan as a sequence of steps, one for each message before the first that is too old, and the
-- texts that it keeps for the search for pains.
use mathlib.Core.List.{append_assoc, append-nil}
use lead_finder.Prelude.{
  ℕ, suc, ◌<◌, ◌≡◌, refl, sym, ap, ◌∙◌, true, false, ◌⊎◌, inl, inr, List, [], ◌∷◌, ◌++◌, arith,
  if◌then◌else◌, Bool-cases,
}
use lead_finder.Prelude.Text.{Text, truthy, or_empty}
use lead_finder.DateTime.{DateTime}
use lead_finder.PainCollector.{ChatMessage}
use lead_finder.MembersParser.{
  Reply, got, flood, raised, Part, ok, paused, failed, handle_flood_wait, max_floodwait_retries,
}
use lead_finder.MembersParser.Scan.{
  Chat, Posted, Sender, nobody, no_user, user, Scan, Ending, exhausted, broken, flooded, is_too_old,
  chat_message, collect_text, handle_sender, handle_reply, handle_message, end_scan, scan, no_scan,
}

-- The messages before the first that is too old.
unfoldable pub recent : ℕ → List Posted → List Posted
recent max_age [] = []
recent max_age (m ∷ ms) = elim (is_too_old max_age m.arrived m.date) [
  | true ↦ []
  | false ↦ m ∷ recent max_age ms
]

pub recent-old :
    (max_age : ℕ) (m : Posted) (ms : List Posted)
    → is_too_old max_age m.arrived m.date ≡ true
    → recent max_age (m ∷ ms) ≡ []
unfolding recent
recent-old max_age m ms old = rw (old, recent) refl

pub recent-young :
    (max_age : ℕ) (m : Posted) (ms : List Posted)
    → is_too_old max_age m.arrived m.date ≡ false
    → recent max_age (m ∷ ms) ≡ m ∷ recent max_age ms
unfolding recent
recent-young max_age m ms young = rw (young, recent) refl

ok-injective : {A : Type 0} {a b : A} → ok a ≡ ok b → a ≡ b
ok-injective e = cc

end_scan-ok : (ending : Ending) (s s' : Scan) → end_scan ending s ≡ ok s' → s ≡ s'
unfolding handle_flood_wait
end_scan-ok exhausted s s' e = ground arith
end_scan-ok broken s s' e = absurd (ground arith)
end_scan-ok (flooded seconds) s s' e = ground arith

module _ (isoformat : DateTime → Text) (chat : Chat) where
  -- An entry for each message with a text, in their order.
  unfoldable pub text_entries : List Posted → List ChatMessage
  text_entries [] = []
  text_entries (m ∷ ms) =
      let rest = text_entries ms in
      if truthy (or_empty m.text) then chat_message isoformat chat m ∷ rest else rest

  collect_text-entries :
      (m : Posted) (ms : List Posted) (cs : List ChatMessage)
      → collect_text isoformat chat m cs ++ text_entries ms ≡ cs ++ text_entries (m ∷ ms)
  unfolding collect_text text_entries
  collect_text-entries m ms cs = elim (Bool-cases (truthy (or_empty m.text))) [
    | inl y ↦ rw y (append_assoc cs (chat_message isoformat chat m ∷ []) (text_entries ms))
    | inr y ↦ rw y refl
  ]

module _ (isoformat : DateTime → Text) (chat : Chat) (max_age : ℕ) (cap : ℕ) where
  -- `ms` were handled one after the other, from `s` to `t`.
  pub data Scanned : List Posted → Scan → Scan → Type 0 where
    done : {s : Scan} → Scanned [] s s
    step :
        {m : Posted} {ms : List Posted} {s t u : Scan}
        → handle_message isoformat chat max_age cap m s ≡ ok t
        → Scanned ms t u
        → Scanned (m ∷ ms) s u

  next_of :
      (ending : Ending) (ms : List Posted) (t : Scan) (p : Part Scan)
      → (elim p [
        | ok s' ↦ scan isoformat chat max_age cap ending ms s'
        | paused ↦ paused
        | failed ↦ failed
      ])
        ≡ ok t
      → (u : Scan) × (p ≡ ok u) × (scan isoformat chat max_age cap ending ms u ≡ ok t)
  next_of ending ms t (ok u) e = (u, refl, e)
  next_of ending ms t paused e = absurd (ground arith)
  next_of ending ms t failed e = absurd (ground arith)

  pub scan-old :
      (ending : Ending) (m : Posted) (ms : List Posted) (s : Scan)
      → is_too_old max_age m.arrived m.date ≡ true
      → scan isoformat chat max_age cap ending (m ∷ ms) s ≡ ok s
  unfolding scan
  scan-old ending m ms s old = rw (old, scan) refl

  pub scan-young :
      (ending : Ending) (m : Posted) (ms : List Posted) (s : Scan)
      → is_too_old max_age m.arrived m.date ≡ false
      → scan isoformat chat max_age cap ending (m ∷ ms) s
        ≡ (elim (handle_message isoformat chat max_age cap m s) [
          | ok s' ↦ scan isoformat chat max_age cap ending ms s'
          | paused ↦ paused
          | failed ↦ failed
        ])
  unfolding scan
  scan-young ending m ms s young = rw (young, scan) refl

  -- A scan that ends well is such a sequence, through exactly the recent messages.
  pub scan-Scanned :
      (ending : Ending) (ms : List Posted) (s t : Scan)
      → scan isoformat chat max_age cap ending ms s ≡ ok t
      → Scanned (recent max_age ms) s t
  scan-Scanned ending [] s t e =
      rw (end_scan-ok ending s t (unfold scan in e)) (unfold recent in done)
  scan-Scanned ending (m ∷ ms) s t e = elim (Bool-cases (is_too_old max_age m.arrived m.date)) [
    | inl old ↦
        let same : s ≡ t = ok-injective (sym (scan-old ending m ms s old) ∙ e) in
        rw (recent-old max_age m ms old, same) done
    | inr young ↦
        let (u, first, rest) =
          next_of ending ms t (handle_message isoformat chat max_age cap m s)
            (sym (scan-young ending m ms s young) ∙ e) in
        rw (recent-young max_age m ms young) (step first (scan-Scanned ending ms u t rest))
  ]

  reply-cases :
      (m : Posted) (r : Reply Sender) (s t : Scan)
      → handle_reply isoformat chat max_age cap m r s ≡ ok t
      → ((sender : Sender) × (r ≡ got sender)
          × (t ≡ handle_sender isoformat chat max_age cap m sender s))
        ⊎ ((seconds : ℕ) × (r ≡ flood seconds)
            × (s.flood_wait_retries < max_floodwait_retries)
            × (t ≡ record s { flood_wait_retries = suc s.flood_wait_retries }))
  unfolding handle_flood_wait
  reply-cases m (got sender) s t e = inl (sender, refl, ground arith)
  reply-cases m (flood seconds) s t e = inr (seconds, refl, ground arith, ground arith)
  reply-cases m raised s t e = absurd (ground arith)

  -- A message that is handled: its sender came, or Telegram asked for a wait that was granted.
  pub handle_message-cases :
      (m : Posted) (s t : Scan)
      → handle_message isoformat chat max_age cap m s ≡ ok t
      → let texts = record s { all_messages = collect_text isoformat chat m s.all_messages } in
        ((sender : Sender) × (m.sender ≡ got sender)
          × (t ≡ handle_sender isoformat chat max_age cap m sender texts))
        ⊎ ((seconds : ℕ) × (m.sender ≡ flood seconds)
            × (s.flood_wait_retries < max_floodwait_retries)
            × (t ≡ record texts { flood_wait_retries = suc s.flood_wait_retries }))
  unfolding handle_message
  handle_message-cases m s t e =
      reply-cases m m.sender
        (record s { all_messages = collect_text isoformat chat m s.all_messages }) t e

  handle_sender-texts :
      (m : Posted) (sender : Sender) (s : Scan)
      → (handle_sender isoformat chat max_age cap m sender s).all_messages ≡ s.all_messages
  handle_sender-texts m nobody s = refl
  handle_sender-texts m no_user s = refl
  handle_sender-texts m (user u) s = ground arith

  Scanned-texts :
      {ms : List Posted} {s t : Scan}
      → Scanned ms s t
      → t.all_messages ≡ s.all_messages ++ text_entries isoformat chat ms
  Scanned-texts (done {s}) = sym (unfold text_entries in append-nil s.all_messages)
  Scanned-texts (step {m} {ms} {s} {t} {u} e rest) =
      Scanned-texts rest
      ∙ ap (λ (cs : List ChatMessage). cs ++ text_entries isoformat chat ms) (texts_after m s t e)
      ∙ collect_text-entries isoformat chat m ms s.all_messages
    where
      texts_after :
          (m : Posted) (s t : Scan)
          → handle_message isoformat chat max_age cap m s ≡ ok t
          → t.all_messages ≡ collect_text isoformat chat m s.all_messages
      texts_after m s t e = elim (handle_message-cases m s t e) [
        | inl (sender, k, r) ↦ rw r (handle_sender-texts m sender _)
        | inr (seconds, k, h, r) ↦ rw r refl
      ]

  -- When the scan ends well, the texts kept for the search for pains are those of the recent
  -- messages, bots' and floods' included, each once and in the order of the history.
  pub scan-all_messages :
      (ending : Ending) (ms : List Posted) (t : Scan)
      → scan isoformat chat max_age cap ending ms no_scan ≡ ok t
      → t.all_messages ≡ text_entries isoformat chat (recent max_age ms)
  scan-all_messages ending ms t e = Scanned-texts (scan-Scanned ending ms no_scan t e)
