-- ===== src/Distribute/Run/Order.antt =====
-- The nodes' results in another order.
use mathlib.Core.List.{Permᴰ}
use mathlib.Core.List.Permᴰ.{nil, cons, swap, trans}
use distributed_system_manag.Base.{
  ℕ, zero, suc, ◌+◌, ◌*◌, ◌/◌, ◌%◌, ◌≡◌, refl, sym, ap, ap₂, ◌∙◌, List, ℤ, to_u64, arith,
}
use distributed_system_manag.Distribute.Run.{xor, combine, to_int, final_result}

bit : (x y r : ℕ) → ((x % 2 + y % 2) % 2 + 2 * r) % 2 ≡ (x % 2 + y % 2) % 2
bit x y r = omega arith

rest : (x y r : ℕ) → ((x % 2 + y % 2) % 2 + 2 * r) / 2 ≡ r
rest x y r = omega arith

swap_bits :
    (r a b x y : ℕ)
    → (((r % 2 + a % 2) % 2 + 2 * x) % 2 + b % 2) % 2
      ≡ (((r % 2 + b % 2) % 2 + 2 * y) % 2 + a % 2) % 2
swap_bits r a b x y = omega arith

xor-swap : (k r a b : ℕ) → xor k (xor k r a) b ≡ xor k (xor k r b) a
unfolding xor
xor-swap zero r a b = refl
xor-swap (suc k) r a b =
    ap₂ (λ x y. x + 2 * y) low
      (ap (λ t. xor k t (b / 2)) (rest r a (xor k (r / 2) (a / 2)))
        ∙ xor-swap k (r / 2) (a / 2) (b / 2)
        ∙ sym (ap (λ t. xor k t (a / 2)) (rest r b (xor k (r / 2) (b / 2)))))
  where
    low :
        (((r % 2 + a % 2) % 2 + 2 * xor k (r / 2) (a / 2)) % 2 + b % 2) % 2
        ≡ (((r % 2 + b % 2) % 2 + 2 * xor k (r / 2) (b / 2)) % 2 + a % 2) % 2
    low = swap_bits r a b (xor k (r / 2) (a / 2)) (xor k (r / 2) (b / 2))

combine-Perm : {xs ys : List ℤ} → Permᴰ xs ys → (result : ℕ) → combine result xs ≡ combine result ys
unfolding combine
combine-Perm nil result = refl
combine-Perm (cons {a} {b} {l₁} {l₂} e p) result =
    combine-Perm p (xor 32 result (to_u64 a)) ∙ ap (λ z. combine (xor 32 result (to_u64 z)) l₂) e
combine-Perm (swap {a} {b} {a'} {b'} {l} e f) result =
    ap (λ r. combine r l) (xor-swap 32 result (to_u64 a) (to_u64 b))
    ∙ ap₂ (λ x y. combine (xor 32 (xor 32 result (to_u64 x)) (to_u64 y)) l) f e
combine-Perm (trans p q) result = combine-Perm p result ∙ combine-Perm q result

-- The nodes' results in any other order give the same final result.
pub final_result-Perm : (xs ys : List ℤ) → Permᴰ xs ys → final_result xs ≡ final_result ys
unfolding final_result
final_result-Perm xs ys p = ap to_int (combine-Perm p 0)
