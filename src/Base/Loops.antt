-- ===== src/Base/Loops.antt =====
-- `for (int k = first; rounds are left; k++) s = body(k, s);` and its invariant rule.
use Prim.Native.Nat.{ℕ, zero, suc, ◌+◌, ◌≤◌, ◌<◌}
use mathlib.Core.Path.{◌≡◌, subst}
use native.Mathlib.Omega.{arith}

unfoldable pub for_up {ℓ} : {S : Type ℓ} → (rounds first : ℕ) → (ℕ → S → S) → S → S
for_up zero k body s = s
for_up (suc rounds) k body s = for_up rounds (suc k) body (body k s)

-- What holds before the first round, and is handed on by each, holds after the last.
pub for_up-keeps {ℓ κ} :
    {S : Type ℓ} (P : ℕ → S → Type κ) (body : ℕ → S → S) (last rounds k : ℕ) (s : S)
    → k + rounds ≡ last
    → ((m : ℕ) (t : S) → k ≤ m → m < last → P m t → P (suc m) (body m t))
    → P k s
    → P last (for_up rounds k body s)
unfolding for_up
for_up-keeps P body last zero k s e step p = subst (λ m. P m s) (omega arith) p
for_up-keeps P body last (suc rounds) k s e step p =
    for_up-keeps P body last rounds (suc k) (body k s) (omega arith)
      (λ m t lo hi. step m t (omega arith) hi) (step k s (omega arith) (omega arith) p)
