-- ===== src/ClusterStats/Figures.antt =====
-- What the figures of a cluster mean.
use lead_finder.Prelude.{
  ℕ, zero, suc, leb, Bool-cases, inl, inr, ◌+◌, ◌*◌, ◌≤◌, ◌≡◌, List, [], ◌∷◌, arith, length,
}
use lead_finder.DateTime.{DateTime}
use lead_finder.Models.{Pain, PainCluster}
use lead_finder.ClusterStats.{intensity_score, total_score, with_stats}

total_score-bounds :
    (ps : List Pain) → (length ps ≤ total_score ps) × (total_score ps ≤ 3 * length ps)
unfolding total_score intensity_score
total_score-bounds [] = (omega arith, omega arith)
total_score-bounds (p ∷ ps) = ground (arith, total_score-bounds ps)

-- `round2` gives a nearest hundredth.
abbrev pub IsRounding : (ℕ → ℕ → ℕ) → Type 0
IsRounding round2 =
    (s n : ℕ) → 1 ≤ n → (200 * s ≤ 2 * (n * round2 s n) + n) × (2 * (n * round2 s n) ≤ 200 * s + n)

mul_mono : (n r k : ℕ) → r ≤ k → n * r ≤ n * k
mul_mono zero r k h = omega arith
mul_mono (suc n) r k h =
    let below = mul_mono n r k h in
    let left : suc n * r ≡ n * r + r = omega arith in
    let right : suc n * k ≡ n * k + k = omega arith in omega arith

-- A product that is bounded by a multiple bounds the factor.
at_least : (n r : ℕ) → 1 ≤ n → 199 * n ≤ 2 * (n * r) → 100 ≤ r
at_least n r h k = elim (Bool-cases (leb 100 r)) [
  | inl enough ↦ ground arith
  | inr short ↦ let below = mul_mono n r 99 (ground arith) in absurd (omega arith)
]

at_most : (n r : ℕ) → 1 ≤ n → 2 * (n * r) ≤ 601 * n → r ≤ 300
at_most n r h k = elim (Bool-cases (leb r 300)) [
  | inl enough ↦ ground arith
  | inr long ↦ let above = mul_mono n 301 r (ground arith) in absurd (omega arith)
]

-- With rounding to a nearest hundredth, the average intensity that a cluster shows of one or more
-- pains is between 1 and 3.
pub with_stats-avg_intensity :
    (round2 : ℕ → ℕ → ℕ) (now : DateTime) (p : Pain) (ps : List Pain) (cluster : PainCluster)
    → IsRounding round2
    → (100 ≤ (with_stats round2 now (p ∷ ps) cluster).avg_intensity)
      × ((with_stats round2 now (p ∷ ps) cluster).avg_intensity ≤ 300)
unfolding with_stats
with_stats-avg_intensity round2 now p ps cluster law =
    let (low, high) = total_score-bounds (p ∷ ps) in
    let n = length (p ∷ ps) in
    let (above, below) = law (total_score (p ∷ ps)) n (omega arith) in
    (
      at_least n (round2 (total_score (p ∷ ps)) n) (omega arith) (omega arith),
      at_most n (round2 (total_score (p ∷ ps)) n) (omega arith) (omega arith),
    )
