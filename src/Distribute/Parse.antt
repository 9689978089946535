-- ===== src/Distribute/Parse.antt =====
-- `std::stoll` and `std::stoi`: blanks, a sign, digits; anything may follow.
pub mod Print
use distributed_system_manag.Base.{
  ℕ, ◌+◌, ◌-◌, ◌*◌, ◌^◌, Bool, ◌&&◌, ◌||◌, true, false, Option, none, some, List, [], ◌∷◌, ltb, leb,
  ◌==◌, if◌then◌else◌, ℤ, pos, negsuc,
}

unfoldable pub skip_space : List ℕ → List ℕ
skip_space [] = []
skip_space (c ∷ s) =
    let rest = skip_space s in if c == 32 || (leb 9 c && leb c 13) then rest else c ∷ s

unfoldable pub is_digit : ℕ → Bool
is_digit c = leb b'0' c && leb c b'9'

-- The value of the digits that follow those which give `n`.
unfoldable pub parse_digits : ℕ → List ℕ → ℕ
unfolding is_digit
parse_digits n [] = n
parse_digits n (c ∷ s) =
    let rest = parse_digits (n * 10 + (c - b'0')) s in if is_digit c then rest else n

-- One digit at least.
unfoldable pub parse_magnitude : List ℕ → Option ℕ
unfolding is_digit parse_digits
parse_magnitude [] = none
parse_magnitude (c ∷ s) = if is_digit c then some (parse_digits 0 (c ∷ s)) else none

-- A number and its sign in a type that reaches from `-bound` to `bound - 1`; `none`:
-- `std::out_of_range`.
unfoldable pub in_range : (bound : ℕ) → Bool → ℕ → Option ℤ
in_range bound negative n =
    if negative
    then (if leb n bound then some (if n == 0 then pos 0 else negsuc (n - 1)) else none)
    else (if ltb n bound then some (pos n) else none)

unfoldable pub parse_signed : (bound : ℕ) → List ℕ → Option ℤ
unfolding parse_magnitude in_range
parse_signed bound [] = none
parse_signed bound (c ∷ s) =
    if c == b'-'
    then elim (parse_magnitude s) [ none ↦ none | some n ↦ in_range bound true n ]
    else elim (parse_magnitude (if c == b'+' then s else c ∷ s)) [
      | none ↦ none
      | some n ↦ in_range bound false n
    ]

-- `std::stoll`; `none`: it throws.
unfoldable pub parse_long_long : List ℕ → Option ℤ
unfolding parse_signed skip_space
parse_long_long s = parse_signed (2 ^ 63) (skip_space s)

-- `std::stoi`
unfoldable pub parse_int : List ℕ → Option ℤ
unfolding parse_signed skip_space
parse_int s = parse_signed (2 ^ 31) (skip_space s)
