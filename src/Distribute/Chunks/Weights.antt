-- ===== src/Distribute/Chunks/Weights.antt =====
-- The weights and the ideal chunk sizes.
use native.Mathlib.Omega.{arith}
use native.Mathlib.Nat.{mul-div-le, le_of_mul-le-mul_left, mul-le-mul_left}
use distributed_system_manag.Base.{ℕ, zero, suc, ◌+◌, ◌*◌, ◌/◌, ◌≤◌, ◌≡◌, List, ap}
use distributed_system_manag.Distribute.Chunks.{weight, sum_weights, total_weight, ideal_chunk}

sum_weights-suc : (rounds i total : ℕ) → sum_weights rounds (suc i) total ≡ total + rounds
unfolding sum_weights weight
sum_weights-suc zero i total = omega arith
sum_weights-suc (suc rounds) i total =
    omega (arith, sum_weights-suc rounds (suc i) (total + weight (suc i)), one)
  where
    one : weight (suc i) ≡ 1
    one = ground arith

-- The first node weighs 3, each other one 1.
pub total_weight-suc : (m : ℕ) → total_weight (suc m) ≡ m + 3
unfolding total_weight sum_weights weight
total_weight-suc m = omega (arith, sum_weights-suc m 0 3)

-- The first node's share and one share for each of the others do not exceed the whole.
pub shares-le : (s m : ℕ) → s * 3 / (m + 3) + m * (s / (m + 3)) ≤ s
shares-le s m =
    le_of_mul-le-mul_left {k = m + 3}
      (omega (
        arith,
        mul-div-le (s * 3) (m + 3),
        mul-le-mul_left {m = (m + 3) * (s / (m + 3))} {n = s} m (mul-div-le s (m + 3)),
      ))
      (omega arith)

pub share-le-first : (s m : ℕ) → s / (m + 3) ≤ s * 3 / (m + 3)
share-le-first s m = grind arith

module _ (pread : ℕ → ℕ → List ℕ) (s m : ℕ) where
  pub ideal_chunk-zero : ideal_chunk pread s (suc m) 0 ≡ s * 3 / (m + 3)
  unfolding ideal_chunk weight
  ideal_chunk-zero = rw (total_weight-suc m)

  pub ideal_chunk-suc : (i : ℕ) → ideal_chunk pread s (suc m) (suc i) ≡ s / (m + 3)
  unfolding ideal_chunk weight
  ideal_chunk-suc i = rw (total_weight-suc m, one) (ap (λ (t : ℕ). t / (m + 3)) one_share)
    where
      one : weight (suc i) ≡ 1
      one = ground arith

      one_share : s * 1 ≡ s
      one_share = omega arith
