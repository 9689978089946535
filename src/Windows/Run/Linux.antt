-- ===== src/Windows/Run/Linux.antt =====
-- The plan and the results of the Windows client beside those of the Linux client.
use distributed_system_manag.Base.{
  Bool, false, ◌==◌, if◌then◌else◌, ℕ, ◌^◌, ◌≤◌, ◌≡◌, Option, none, some, List, [], ◌∷◌, arith, ℤ,
  true,
}
use distributed_system_manag.Distribute.Parse.{
  parse_int, parse_long_long, parse_signed, parse_magnitude, in_range, skip_space,
}
use distributed_system_manag.Distribute.Network
use distributed_system_manag.Distribute.Run
use distributed_system_manag.Distribute.Run.{Job}
use distributed_system_manag.Windows.Run.{network_result}

in_range-wider :
    (small large : ℕ) (negative : Bool) (n : ℕ) (z : ℤ)
    → small ≤ large
    → in_range small negative n ≡ some z
    → in_range large negative n ≡ some z
unfolding in_range
in_range-wider small large negative n z le e = ground arith

read-wider :
    (small large : ℕ) (negative : Bool) (o : Option ℕ) (z : ℤ)
    → small ≤ large
    → (elim o [ none ↦ none | some n ↦ in_range small negative n ]) ≡ some z
    → (elim o [ none ↦ none | some n ↦ in_range large negative n ]) ≡ some z
read-wider small large negative none z le e = e
read-wider small large negative (some n) z le e = in_range-wider small large negative n z le e

parse_signed-wider :
    (small large : ℕ) (s : List ℕ) (z : ℤ)
    → small ≤ large
    → parse_signed small s ≡ some z
    → parse_signed large s ≡ some z
unfolding parse_signed
parse_signed-wider small large [] z le e = cc e
parse_signed-wider small large (c ∷ s) z le e = go (c == b'-') e
  where
    go :
        (minus : Bool)
        → (if minus
            then elim (parse_magnitude s) [ none ↦ none | some n ↦ in_range small true n ]
            else elim (parse_magnitude (if c == b'+' then s else c ∷ s)) [
              | none ↦ none
              | some n ↦ in_range small false n
            ])
          ≡ some z
        → (if minus
            then elim (parse_magnitude s) [ none ↦ none | some n ↦ in_range large true n ]
            else elim (parse_magnitude (if c == b'+' then s else c ∷ s)) [
              | none ↦ none
              | some n ↦ in_range large false n
            ])
          ≡ some z
    go true e = read-wider small large true (parse_magnitude s) z le e
    go false e =
        read-wider small large false (parse_magnitude (if c == b'+' then s else c ∷ s)) z le e

-- Whatever reply the Linux client takes as a result, the Windows client takes as the same result.
network_result-linux :
    (reply : Option (List ℕ)) (z : ℤ)
    → Network.network_result reply ≡ some z
    → network_result reply ≡ some z
unfolding network_result Network.network_result parse_int parse_long_long
network_result-linux none z e = e
network_result-linux (some res) z e =
    parse_signed-wider (2 ^ 31) (2 ^ 63) (skip_space res) z (omega arith) e
