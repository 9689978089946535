-- ===== src/Distribute/Run/Session/Freed.antt =====
-- The blocks after `freeMemory`.
use distributed_system_manag.Base.{
  ℕ, suc, ◌+◌, ◌*◌, ◌<◌, ◌≤◌, ◌≡◌, ◌≢◌, sym, ◌∙◌, Option, none, List, length, arith, Bool-cases,
  inl, inr, ltb, ltb→lt, ◌⊎◌,
}
use distributed_system_manag.Discovery.Lists.Released.{
  freed, freed-below, freed-within, freed-beyond,
}
use distributed_system_manag.Memory.{Block, update}

lt_or_le : (a k : ℕ) → (a < k) ⊎ (k ≤ a)
lt_or_le a k = elim (Bool-cases (ltb a k)) [
  | inl h ↦ inl (ltb→lt _ _ h)
  | inr h ↦ inr (ground (arith, h))
]

pair_cases : (k a : ℕ) → k ≤ a → a < suc (suc k) → (a ≡ k) ⊎ (a ≡ suc k)
pair_cases k a h h' = elim (lt_or_le a (suc k)) [
  | inl e ↦ inl (omega (arith, e, h))
  | inr e ↦ inr (omega (arith, e, h'))
]

-- The blocks after `freeMemory`: the list's from `base` on, and the arrays of integers at `o` and
-- behind it.
unfoldable pub run_freed :
    (base o : ℕ) → List (List ℕ × List ℕ) → (ℕ → Option Block) → ℕ → Option Block
run_freed base o answers blocks =
    update
      (update (update (update (freed (suc (suc base)) answers blocks) base none) (suc base) none) o
        none)
      (suc o) none

module _ (base o : ℕ) (answers : List (List ℕ × List ℕ)) (blocks : ℕ → Option Block)
    (behind : suc (suc base) + 2 * length answers ≤ o) where
  run_freed-other :
      (a : ℕ)
      → a ≢ base
      → a ≢ suc base
      → a ≢ o
      → a ≢ suc o
      → run_freed base o answers blocks a ≡ freed (suc (suc base)) answers blocks a
  unfolding run_freed
  run_freed-other a h1 h2 h3 h4 = ground arith

  run_freed-arrays :
      (a : ℕ)
      → (a ≡ base) ⊎ (a ≡ suc base) ⊎ (a ≡ o) ⊎ (a ≡ suc o)
      → run_freed base o answers blocks a ≡ none
  unfolding run_freed
  run_freed-arrays a h = ground (arith, h)

  pub run_freed-arguments : (a : ℕ) → suc (suc o) ≤ a → run_freed base o answers blocks a ≡ blocks a
  run_freed-arguments a h =
      run_freed-other a (omega (arith, h, behind)) (omega (arith, h, behind)) (omega (arith, h))
        (omega (arith, h))
      ∙ freed-beyond (suc (suc base)) answers blocks a (omega (arith, h, behind))

  pub run_freed-before :
      (before : ℕ → Option Block)
      → ((a : ℕ) → a < base → blocks a ≡ before a)
      → ((a : ℕ) → base ≤ a → before a ≡ none)
      → ((a : ℕ) → suc (suc base) + 2 * length answers ≤ a → a < o → blocks a ≡ none)
      → (a : ℕ) → a < suc (suc o)
      → run_freed base o answers blocks a ≡ before a
  run_freed-before before old fresh gap a h = elim (lt_or_le a base) [
    | inl below ↦
        run_freed-other a (omega (arith, below)) (omega (arith, below))
          (omega (arith, below, behind)) (omega (arith, below, behind))
        ∙ freed-below (suc (suc base)) answers blocks a (omega (arith, below))
        ∙ old a below
    | inr from ↦
        (elim (lt_or_le a (suc (suc base))) [
          | inl array ↦ elim (pair_cases base a from array) [
            | inl e ↦ run_freed-arrays a (inl e)
            | inr e ↦ run_freed-arrays a (inr (inl e))
          ]
          | inr strings ↦ elim (lt_or_le a o) [
            | inr array ↦ elim (pair_cases o a array h) [
              | inl e ↦ run_freed-arrays a (inr (inr (inl e)))
              | inr e ↦ run_freed-arrays a (inr (inr (inr e)))
            ]
            | inl below ↦
                run_freed-other a (omega (arith, strings)) (omega (arith, strings))
                  (omega (arith, below)) (omega (arith, below))
                ∙ (elim (lt_or_le a (suc (suc base) + 2 * length answers)) [
                  | inl within ↦ freed-within (suc (suc base)) answers blocks a strings within
                  | inr beyond ↦
                      freed-beyond (suc (suc base)) answers blocks a beyond ∙ gap a beyond below
                ])
          ]
        ])
        ∙ sym (fresh a from)
  ]
