-- ===== src/Distribute/Run/Reply.antt =====
-- The final result as an `int`, and as the text that a server sends to its client.
use native.Mathlib.Nat.{pow-suc}
use distributed_system_manag.Base.{
  ℕ, zero, suc, ◌/◌, ◌^◌, ◌<◌, ◌≡◌, List, [], ◌∷◌, arith, ℤ, to_u64, some, c_str,
}
use distributed_system_manag.Distribute.Parse.Print.{IsInt, to_string, parse_int-to_string}
use distributed_system_manag.Distribute.Network.{network_result}
use distributed_system_manag.Distribute.Run.{xor, combine, to_int, final_result}

xor-lt : (k a b : ℕ) → xor k a b < 2 ^ k
unfolding xor
xor-lt zero a b = omega arith
xor-lt (suc k) a b = omega (arith, xor-lt k (a / 2) (b / 2), pow-suc 2 k)

pub combine-lt : (result : ℕ) (values : List ℤ) → result < 2 ^ 32 → combine result values < 2 ^ 32
unfolding combine
combine-lt result [] h = h
combine-lt result (v ∷ values) h =
    combine-lt (xor 32 result (to_u64 v)) values (xor-lt 32 result (to_u64 v))

pub to_int-IsInt : (bits : ℕ) → bits < 2 ^ 32 → IsInt (to_int bits)
unfolding to_int
to_int-IsInt bits h = ground arith

pub final_result-IsInt : (values : List ℤ) → IsInt (final_result values)
unfolding final_result
final_result-IsInt values = to_int-IsInt (combine 0 values) (combine-lt 0 values (omega arith))

-- The text that a server sends for its combined result is read by the client as that result:
-- `std::stoi` does not throw, and nothing is lost.
pub network_result-to_string :
    (values : List ℤ)
    → network_result (some (c_str (to_string (final_result values)))) ≡ some (final_result values)
unfolding network_result
network_result-to_string values =
    parse_int-to_string (final_result values) (final_result-IsInt values)
