-- ===== src/PainCollector/Batches.antt =====
-- The loop over the batches, as a walk through the list of them.
use lead_finder.Prelude.{
  ℕ, zero, suc, ◌≤◌, ◌≡◌, refl, ap, true, Option, none, some, List, [], ◌∷◌, ◌++◌, arith, length,
  length-drop, take, drop, min, length-take,
}
use lead_finder.Prelude.Text.{Text}
use lead_finder.DateTime.{DateTime}
use lead_finder.Json.{Json}
use lead_finder.PainStore.{PainStore}
use lead_finder.Qualifier.Qualify.{Answer}
use lead_finder.PainCollector.{ChatMessage, collect_batch, collect_batches, collect_pains}

-- The messages in batches: each of the full size but the last, which has at least one message.
abbrev pub AreBatches : ℕ → List ChatMessage → List (List ChatMessage) → Type 0
AreBatches size messages [] = messages ≡ []
AreBatches size messages (batch ∷ batches) =
    (1 ≤ length batch)
    × (length batch ≡ min size (length messages))
    × (rest : List ChatMessage) × (messages ≡ batch ++ rest)
    × AreBatches size rest batches

take-append-drop : (n : ℕ) (ms : List ChatMessage) → ms ≡ take n ms ++ drop n ms
take-append-drop zero ms = refl
take-append-drop (suc n) [] = refl
take-append-drop (suc n) (m ∷ ms) = ap (λ x. m ∷ x) (take-append-drop n ms)

module _ (loads : Text → Option Json) (from_iso : Text → Option DateTime) (ask : ℕ → Answer)
    (batch_size user_id program_id : ℕ) where
  -- The batches in their order, numbered from `n`, until one raises.
  unfoldable pub collect_each : ℕ → List (List ChatMessage) → PainStore × ℕ → Option (PainStore × ℕ)
  collect_each n [] acc = some acc
  collect_each n (batch ∷ batches) acc =
      elim (collect_batch loads from_iso ask batch_size user_id program_id n batch acc) [
        | none ↦ none
        | some acc' ↦ collect_each (suc n) batches acc'
      ]

  collect_batches-each :
      (fuel n : ℕ) (messages : List ChatMessage)
      → 1 ≤ batch_size
      → length messages ≤ fuel
      → (batches : List (List ChatMessage)) × AreBatches batch_size messages batches
        × ((acc : PainStore × ℕ)
            → collect_batches loads from_iso ask batch_size user_id program_id fuel n messages acc
              ≡ collect_each n batches acc)
  unfolding collect_batches collect_each
  collect_batches-each zero n [] b h = ([], refl, λ acc. refl)
  collect_batches-each zero n (m ∷ ms) b h = absurd (omega arith)
  collect_batches-each (suc fuel) n [] b h = ([], refl, λ acc. refl)
  collect_batches-each (suc fuel) n (m ∷ ms) b h =
      let batch = take batch_size (m ∷ ms) in
      let (batches, cut, same) =
        collect_batches-each fuel (suc n) (drop batch_size (m ∷ ms)) b
          (omega (arith, length-drop batch_size (m ∷ ms))) in
      (
        batch ∷ batches,
        (
          omega (arith, length-take batch_size (m ∷ ms)),
          length-take batch_size (m ∷ ms),
          drop batch_size (m ∷ ms),
          take-append-drop batch_size (m ∷ ms),
          cut,
        ),
        λ acc.
            by_run acc (collect_batch loads from_iso ask batch_size user_id program_id n batch acc)
              batches same,
      )
    where
      by_run :
          (acc : PainStore × ℕ) (run : Option (PainStore × ℕ)) (batches : List (List ChatMessage))
          → ((a : PainStore × ℕ)
              → collect_batches loads from_iso ask batch_size user_id program_id fuel
                  (suc n)
                  (drop batch_size (m ∷ ms))
                  a
                ≡ collect_each (suc n) batches a)
          → ◌≡◌ {A = Option (PainStore × ℕ)}
              (elim run [
                | none ↦ none
                | some a ↦
                    collect_batches loads from_iso ask batch_size user_id program_id fuel
                      (suc n)
                      (drop batch_size (m ∷ ms))
                      a
              ])
              (elim run [ none ↦ none | some a ↦ collect_each (suc n) batches a ])
      by_run acc none batches same = refl
      by_run acc (some a) batches same = same a

  -- With a batch size of at least 1, the messages fall into batches, each of that size but the
  -- last, which is not empty; together and in order they are the messages. A collection handles
  -- exactly these batches, one after the other, numbered from 0, and raises where one of them does.
  pub collect_pains-each :
      (messages : List ChatMessage) (s : PainStore)
      → 1 ≤ batch_size
      → (batches : List (List ChatMessage)) × AreBatches batch_size messages batches
        × (collect_pains loads from_iso ask batch_size user_id program_id true messages s
            ≡ collect_each 0 batches (s, 0))
  unfolding collect_pains
  collect_pains-each messages s b =
      let (batches, cut, same) =
        collect_batches-each (length messages) 0 messages b (omega arith) in
      (batches, cut, same (s, 0))
