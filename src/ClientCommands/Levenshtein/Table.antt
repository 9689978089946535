-- ===== src/ClientCommands/Levenshtein/Table.antt =====
-- The table of `levenshtein` holds the edit distances.
use native.Mathlib.Numerals.{sub-one}
use distributed_system_manag.Base.{
  ℕ, zero, suc, ◌+◌, ◌≤◌, ◌<◌, ◌≡◌, refl, ap₂, sym, subst, ◌&&◌, List, length, arith, ◌⊎◌, inl, inr,
  ◌==◌, for_up, for_up-keeps, Bool-cases,
}
use distributed_system_manag.ClientCommands.Levenshtein.{
  Table, store, fill_cell, fill_row, set_borders, fill_table, levenshtein,
}
use distributed_system_manag.ClientCommands.Levenshtein.Distance.{
  Edits, dist, dist-le, dist-Edits_exist,
}

module _ (s1 s2 : List ℕ) where
  -- The cells that are written when the inner loop stands before (i, j).
  abbrev Written : ℕ → ℕ → ℕ → ℕ → Type 0
  Written i j a b = (a ≡ 0) ⊎ ((b ≡ 0) ⊎ ((a < i) ⊎ ((a ≡ i) × (b < j))))

  abbrev IsCorrect : ℕ → ℕ → Table → Type 0
  IsCorrect i j dp =
      (a b : ℕ) → a ≤ length s1 → b ≤ length s2 → Written i j a b → dp a b ≡ dist s1 s2 a b

  dist-eq_zero : (a : ℕ) → dist s1 s2 a 0 ≡ a
  unfolding dist
  dist-eq_zero zero = refl
  dist-eq_zero (suc a) = refl

  -- The first column holds the row numbers below `k`.
  abbrev ColumnSet : ℕ → Table → Type 0
  ColumnSet k dp = (a : ℕ) → a < k → dp a 0 ≡ a

  abbrev BordersSet : ℕ → Table → Type 0
  BordersSet k dp = ((a : ℕ) → a ≤ length s1 → dp a 0 ≡ a) × ((b : ℕ) → b < k → dp 0 b ≡ b)

  column_step : (k : ℕ) (dp : Table) → ColumnSet k dp → ColumnSet (suc k) (store k 0 k dp)
  unfolding store
  column_step k dp h a lt = ground (arith, h a)

  border_step : (k : ℕ) (dp : Table) → BordersSet k dp → BordersSet (suc k) (store 0 k k dp)
  unfolding store
  border_step k dp (column, row) = (λ a le. ground (arith, column a), λ b lt. ground (arith, row b))

  set_borders-IsCorrect : (dp : Table) → IsCorrect 1 1 (set_borders s1 s2 dp)
  unfolding set_borders dist
  set_borders-IsCorrect dp a b ha hb written =
      ground (arith, borders.0 a, borders.1 b, dist-eq_zero a, written)
    where
      column : ColumnSet (length s1 + 1) (for_up (length s1 + 1) 0 (λ i. store i 0 i) dp)
      column =
          for_up-keeps ColumnSet (λ i. store i 0 i) (length s1 + 1) (length s1 + 1) 0 dp
            (omega arith) (λ m t lo hi h. column_step m t h) (λ a lt. absurd (omega arith))

      borders : BordersSet (length s2 + 1) (set_borders s1 s2 dp)
      borders =
          for_up-keeps BordersSet (λ j. store 0 j j) (length s2 + 1) (length s2 + 1) 0 _
            (omega arith) (λ m t lo hi h. border_step m t h)
            (λ a le. column a (omega arith), λ b lt. absurd (omega arith))

  -- A round writes the distance.
  fill_cell-eq :
      (i j : ℕ) (dp : Table)
      → suc i ≤ length s1
      → suc j ≤ length s2
      → IsCorrect (suc i) (suc j) dp
      → fill_cell s1 s2 (suc i) (suc j) dp ≡ store (suc i) (suc j) (dist s1 s2 (suc i) (suc j)) dp
  unfolding fill_cell dist
  fill_cell-eq i j dp hi hj known = simp (
    sub-one,
    known i (suc j) (omega arith) hj (inr (inr (inl (omega arith)))),
    known (suc i) j hi (omega arith) (inr (inr (inr (refl, omega arith)))),
    known i j (omega arith) (omega arith) (inr (inr (inl (omega arith)))),
  )

  store-IsCorrect :
      (i j : ℕ) (dp : Table)
      → IsCorrect i j dp
      → IsCorrect i (suc j) (store i j (dist s1 s2 i j) dp)
  unfolding store
  store-IsCorrect i j dp known a b ha hb written = elim (Bool-cases (i == a && j == b)) [
    | inl here ↦ rw here (ap₂ (dist s1 s2) (ground (arith, here)) (ground (arith, here)))
    | inr there ↦ rw there (known a b ha hb (ground (arith, there, written)))
  ]

  fill_cell-IsCorrect :
      (i j : ℕ) (dp : Table)
      → 1 ≤ i
      → i ≤ length s1
      → 1 ≤ j
      → j ≤ length s2
      → IsCorrect i j dp
      → IsCorrect i (suc j) (fill_cell s1 s2 i j dp)
  fill_cell-IsCorrect zero j dp li hi lj hj known = absurd (omega arith)
  fill_cell-IsCorrect (suc i) zero dp li hi lj hj known = absurd (omega arith)
  fill_cell-IsCorrect (suc i) (suc j) dp li hi lj hj known =
      subst (IsCorrect (suc i) (suc (suc j))) (sym (fill_cell-eq i j dp hi hj known))
        (store-IsCorrect (suc i) (suc j) dp known)

  fill_row-IsCorrect :
      (i : ℕ) (dp : Table)
      → 1 ≤ i
      → i ≤ length s1
      → IsCorrect i 1 dp
      → IsCorrect (suc i) 1 (fill_row s1 s2 i dp)
  unfolding fill_row
  fill_row-IsCorrect i dp li hi known a b ha hb written =
      for_up-keeps (IsCorrect i) (fill_cell s1 s2 i) (suc (length s2)) (length s2) 1 dp
        (omega arith) (λ m t lo hi' h. fill_cell-IsCorrect i m t li hi lo (omega arith) h) known a b
        ha hb (ground (arith, written))

  fill_table-IsCorrect : (dp : Table) → IsCorrect (suc (length s1)) 1 (fill_table s1 s2 dp)
  unfolding fill_table
  fill_table-IsCorrect dp =
      for_up-keeps (λ i. IsCorrect i 1) (fill_row s1 s2) (suc (length s1)) (length s1) 1
        (set_borders s1 s2 dp) (omega arith)
        (λ m t lo hi h. fill_row-IsCorrect m t lo (omega arith) h) (set_borders-IsCorrect dp)

  pub levenshtein-eq-dist : (dp : Table) → levenshtein s1 s2 dp ≡ dist s1 s2 (length s1) (length s2)
  unfolding levenshtein
  levenshtein-eq-dist dp =
      fill_table-IsCorrect dp (length s1) (length s2) (omega arith) (omega arith)
        (inr (inr (inl (omega arith))))

-- Whatever the memory held at the start, the result is the least count of insertions, removals and
-- changes of a character that turns the first text into the second.
pub levenshtein-IsLeast :
    (s1 s2 : List ℕ) (dp : Table)
    → Edits s1 s2 (levenshtein s1 s2 dp) × ((n : ℕ) → Edits s1 s2 n → levenshtein s1 s2 dp ≤ n)
levenshtein-IsLeast s1 s2 dp = (
  rw (levenshtein-eq-dist s1 s2 dp) (dist-Edits_exist s1 s2),
  λ n h. rw (levenshtein-eq-dist s1 s2 dp) (dist-le s1 s2 h),
)
