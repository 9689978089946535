-- ===== src/ClientCommands/Levenshtein.antt =====
-- `levenshtein` of src/clientsCommand.cpp.
pub mod Distance
pub mod Table
use distributed_system_manag.Base.{
  ℕ, zero, suc, ◌+◌, ◌-◌, ◌&&◌, min, List, length, get_or, ◌==◌, if◌then◌else◌, for_up,
}

-- The rows that `malloc` gives, as the value of each cell. A cell's value is of no account before
-- the first write: the table at the start is an argument.
abbrev pub Table : Type 0
Table = ℕ → ℕ → ℕ

-- `dp[i][j] = value`
unfoldable pub store : ℕ → ℕ → ℕ → Table → Table
store i j value dp i' j' = if i == i' && j == j' then value else dp i' j'

unfoldable pub substitution_cost : ℕ → ℕ → ℕ
substitution_cost a b = if a == b then 0 else 1

module _ (s1 s2 : List ℕ) where
  -- The body of the inner loop.
  unfoldable pub fill_cell : ℕ → ℕ → Table → Table
  fill_cell i j dp =
      let cost = substitution_cost (get_or s1 (i - 1) 0) (get_or s2 (j - 1) 0) in
      let a = dp (i - 1) j + 1 in
      let b = dp i (j - 1) + 1 in
      let c = dp (i - 1) (j - 1) + cost in store i j (min a (min b c)) dp

  unfoldable pub fill_row : ℕ → Table → Table
  fill_row i = for_up (length s2) 1 (fill_cell i)

  -- The two loops that set the first column and the first row.
  unfoldable pub set_borders : Table → Table
  set_borders dp =
      for_up (length s2 + 1) 0 (λ j. store 0 j j) (for_up (length s1 + 1) 0 (λ i. store i 0 i) dp)

  unfoldable pub fill_table : Table → Table
  fill_table dp = for_up (length s1) 1 fill_row (set_borders dp)

  unfoldable pub levenshtein : Table → ℕ
  levenshtein dp = fill_table dp (length s1) (length s2)
