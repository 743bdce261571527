-- ===== src/Qualifier/Batch/Recovered.antt =====
-- Recovered leads carry the username that the parser reads from them.
use lead_finder.Prelude.{
  ℕ, suc, ◌+◌, ◌≡◌, refl, true, Option, none, some, List, [], ◌∷◌, arith, Option-cases, Bool-cases,
  inl, inr, ◌⊎◌, drop, zero,
}
use lead_finder.Prelude.Text.{Text, text, text_eq, strip, truthy}
use lead_finder.Json.{Json, Fields, get, truth}
use lead_finder.Models.Table.{All, All-append}
use lead_finder.Qualifier.Recovery.{
  Scan, scan, scan_char, plain_char, string_char, close_brace, close_object, slice, as_lead,
  add_lead, lead_items, respond, recovered_response, find_array, before_array,
  recover_partial_batch_response,
}

-- `lead["username"]` is there and is not empty.
abbrev pub HasUsername : Fields → Type 0
HasUsername fs = (name : Json) × (get (text "username") fs ≡ some name) × (truth name ≡ true)

as_lead-HasUsername : (v : Option Json) (fs : Fields) → as_lead v ≡ some fs → HasUsername fs
unfolding as_lead
as_lead-HasUsername (some (Json.obj gs)) fs h = elim (Option-cases (get (text "username") gs)) [
  | inl missing ↦ absurd (ground arith)
  | inr (name, e) ↦ (name, ground arith, ground arith)
]
as_lead-HasUsername none fs h = ground arith
as_lead-HasUsername (some v) fs h = ground arith

add_lead-HasUsername :
    (leads : List Fields) (v : Option Json)
    → All HasUsername leads
    → All HasUsername (add_lead leads (as_lead v))
unfolding add_lead
add_lead-HasUsername leads v h = elim (Option-cases (as_lead v)) [
  | inl no_lead ↦ rw no_lead h
  | inr (fs, e) ↦ rw e (All-append HasUsername leads fs h (as_lead-HasUsername v fs e))
]

module _ (loads : Text → Option Json) (whole : Text) where
  close_brace-HasUsername :
      (i d : ℕ) (s : Scan)
      → All HasUsername s.leads
      → All HasUsername (close_brace loads whole i s d).leads
  unfolding close_brace close_object
  close_brace-HasUsername i zero s h = h
  close_brace-HasUsername i (suc zero) s h = elim (Option-cases s.obj_start) [
    | inl outside ↦ rw outside h
    | inr (start, e) ↦ rw e (add_lead-HasUsername s.leads (loads (slice start (i + 1) whole)) h)
  ]
  close_brace-HasUsername i (suc (suc d)) s h = h

  -- A character leaves the leads alone, or it is a closing brace.
  leads-scan_char :
      (i c : ℕ) (s s' : Scan)
      → scan_char loads whole i c s ≡ some s'
      → (s'.leads ≡ s.leads) ⊎ (s'.leads ≡ (close_brace loads whole i s s.depth).leads)
  unfolding scan_char plain_char string_char
  leads-scan_char i c s s' e = ground arith

  scan_char-HasUsername :
      (i c : ℕ) (s s' : Scan)
      → scan_char loads whole i c s ≡ some s'
      → All HasUsername s.leads
      → All HasUsername s'.leads
  scan_char-HasUsername i c s s' e h = elim (leads-scan_char i c s s' e) [
    | inl same ↦ rw same h
    | inr closed ↦ rw closed (close_brace-HasUsername i s.depth s h)
  ]

  scan-HasUsername :
      (rest : Text) (i : ℕ) (s : Scan)
      → All HasUsername s.leads
      → All HasUsername (scan loads whole i rest s).leads
  unfolding scan
  scan-HasUsername [] i s h = h
  scan-HasUsername (c ∷ rest) i s h = elim (Option-cases (scan_char loads whole i c s)) [
    | inl stopped ↦ rw (stopped, scan) h
    | inr (s', e) ↦
        rw (e, scan) (scan-HasUsername rest (suc i) s' (scan_char-HasUsername i c s s' e h))
  ]

-- The leads of a recovered response, as its reader finds them.
record AreRecovered (count : ℕ) (response : Fields) (l : Fields) (ls : List Fields) : Type 0 where
  response_eq : response ≡ recovered_response count (l ∷ ls)
  named : All HasUsername (l ∷ ls)

respond-AreRecovered :
    (count : ℕ) (leads : List Fields) (response : Fields)
    → All HasUsername leads
    → respond count leads ≡ some response
    → (l : Fields) × (ls : List Fields) × AreRecovered count response l ls
unfolding respond
respond-AreRecovered count [] response h e = ground arith
respond-AreRecovered count (l ∷ ls) response h e =
    (l, ls, record { response_eq = ground arith; named = h })

recover-AreRecovered :
    (loads : Text → Option Json) (raw : Text) (count : ℕ) (response : Fields)
    → recover_partial_batch_response loads raw count ≡ some response
    → (l : Fields) × (ls : List Fields) × AreRecovered count response l ls
unfolding recover_partial_batch_response
recover-AreRecovered loads raw count response e = elim (Bool-cases (truthy (strip raw))) [
  | inl full ↦ elim (Option-cases (find_array (strip raw))) [
    | inl no_array ↦ absurd (ground arith)
    | inr (a, found) ↦
        respond-AreRecovered count
          (scan loads (strip raw) (a + 1) (drop (a + 1) (strip raw)) before_array).leads response
          (scan-HasUsername loads (strip raw) (drop (a + 1) (strip raw)) (a + 1) before_array tt)
          (ground arith)
  ]
  | inr empty ↦ absurd (ground arith)
]

get-recovered_response :
    (count : ℕ) (leads : List Fields)
    → get (text "potential_leads") (recovered_response count leads)
      ≡ some (Json.arr (lead_items leads))
unfolding get recovered_response text_eq
get-recovered_response count leads = refl

-- A recovered response has at least one lead, and each has a username that is not empty.
pub recover-HasUsername :
    (loads : Text → Option Json) (raw : Text) (analyzed_count : ℕ) {response : Fields}
    → recover_partial_batch_response loads raw analyzed_count ≡ some response
    → (l : Fields) × (ls : List Fields) × (get (text "potential_leads") response
        ≡ some (Json.arr (lead_items (l ∷ ls))))
      × All HasUsername (l ∷ ls)
recover-HasUsername loads raw analyzed_count {response} e =
    let (l, ls, r) = recover-AreRecovered loads raw analyzed_count response e in
    (l, ls, rw r.response_eq (get-recovered_response analyzed_count (l ∷ ls)), r.named)
