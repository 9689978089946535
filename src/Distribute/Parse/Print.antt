-- ===== src/Distribute/Parse/Print.antt =====
-- `std::to_string` of an `int`, and that a program reads back what another has printed.
use native.Mathlib.Nat.{pow-suc}
use distributed_system_manag.Base.{
  ℕ, zero, suc, ◌+◌, ◌-◌, ◌*◌, ◌/◌, ◌%◌, ◌^◌, ◌<◌, ◌≤◌, ◌≡◌, refl, ap, ◌∙◌, some, length, List, [],
  ◌∷◌, ◌==◌, if◌then◌else◌, arith, ℤ, pos, negsuc, pos_part, neg_part, c_str, All, Bool-cases, inl,
  inr,
}
use distributed_system_manag.Distribute.Parse.{
  skip_space, parse_digits, parse_magnitude, parse_signed, parse_int,
}

-- The digits of a number, in front of `out`: nothing for 0.
unfoldable pub digits : (fuel : ℕ) → ℕ → List ℕ → List ℕ
digits zero n out = out
digits (suc fuel) n out =
    let rest = digits fuel (n / 10) ((b'0' + n % 10) ∷ out) in if n == 0 then out else rest

-- The digits of a number, at least one.
unfoldable pub print_with : (fuel : ℕ) → ℕ → List ℕ
print_with fuel n = if n == 0 then b'0' ∷ [] else digits fuel n []

-- An `int` has ten digits at most.
unfoldable pub print_magnitude : ℕ → List ℕ
print_magnitude n = print_with 10 n

unfoldable pub to_string : ℤ → List ℕ
to_string (pos n) = print_magnitude n
to_string (negsuc n) = b'-' ∷ print_magnitude (n + 1)

abbrev pub AllDigits : List ℕ → Type 0
AllDigits = All (λ c. (b'0' ≤ c) × (c ≤ b'9'))

digits-AllDigits : (fuel n : ℕ) (out : List ℕ) → AllDigits out → AllDigits (digits fuel n out)
unfolding digits
digits-AllDigits zero n out h = h
digits-AllDigits (suc fuel) n out h =
    let rest = digits-AllDigits fuel (n / 10) ((b'0' + n % 10) ∷ out) (omega arith, h) in
    elim (Bool-cases (n == 0)) [ inl e ↦ rw e h | inr e ↦ rw e rest ]

digits-IsLonger : (fuel n : ℕ) (out : List ℕ) → length out ≤ length (digits fuel n out)
unfolding digits
digits-IsLonger zero n out = omega arith
digits-IsLonger (suc fuel) n out =
    let rest = digits-IsLonger fuel (n / 10) ((b'0' + n % 10) ∷ out) in
    elim (Bool-cases (n == 0)) [ inl e ↦ rw e (omega arith) | inr e ↦ rw e (omega (arith, rest)) ]

-- The last digit of `n`, read behind the digits before it, gives `n`.
parse_last :
    (n : ℕ) (out : List ℕ) → parse_digits (n / 10) ((b'0' + n % 10) ∷ out) ≡ parse_digits n out
unfolding parse_digits
parse_last n out = ground (arith, ap (λ k. parse_digits k out) (whole n))
  where
    whole : (n : ℕ) → n / 10 * 10 + (b'0' + n % 10 - b'0') ≡ n
    whole n = omega arith

parse_digits-digits :
    (fuel n : ℕ) (out : List ℕ)
    → n < 10 ^ fuel
    → parse_digits 0 (digits fuel n out) ≡ parse_digits n out
unfolding digits
parse_digits-digits zero n out h = ap (λ k. parse_digits k out) (omega arith)
parse_digits-digits (suc fuel) n out h =
    let rest =
      parse_digits-digits fuel (n / 10) ((b'0' + n % 10) ∷ out) (omega (arith, pow-suc 10 fuel)) in
    elim (Bool-cases (n == 0)) [
      | inl e ↦ ground (arith, e)
      | inr e ↦ rw e (rest ∙ parse_last n out)
    ]

parse_magnitude-AllDigits :
    (s : List ℕ) → AllDigits s → 0 < length s → parse_magnitude s ≡ some (parse_digits 0 s)
unfolding parse_magnitude
parse_magnitude-AllDigits [] h lt = absurd (omega arith)
parse_magnitude-AllDigits (c ∷ s) h lt = ground arith

-- What is printed is digits, and they read back.
record Reads (s : List ℕ) (n : ℕ) : Type 0 where
  all_digits : AllDigits s
  some_digit : 0 < length s
  value : parse_digits 0 s ≡ n

print-Reads : (fuel n : ℕ) → n < 10 ^ fuel → 0 < fuel → Reads (print_with fuel n) n
unfolding print_with digits parse_digits
print-Reads zero n h lt = absurd (omega arith)
print-Reads (suc fuel) n h lt = elim (Bool-cases (n == 0)) [
  | inl e ↦ rw e (record {
    all_digits = (omega arith, tt);
    some_digit = omega arith;
    value = ground (arith, e);
  })
  | inr e ↦ rw e (record {
    all_digits = digits-AllDigits fuel (n / 10) ((b'0' + n % 10) ∷ []) (omega arith, tt);
    some_digit = omega (arith, digits-IsLonger fuel (n / 10) ((b'0' + n % 10) ∷ []));
    value =
        parse_digits-digits fuel (n / 10) ((b'0' + n % 10) ∷ []) (omega (arith, pow-suc 10 fuel))
        ∙ parse_last n [];
  })
]

parse_magnitude-Reads : (s : List ℕ) (n : ℕ) → Reads s n → parse_magnitude s ≡ some n
parse_magnitude-Reads s n r =
    parse_magnitude-AllDigits s r.all_digits r.some_digit ∙ ap some r.value

parse_signed-pos :
    (bound : ℕ) (s : List ℕ) (n : ℕ)
    → Reads s n
    → n < bound
    → parse_signed bound (skip_space s) ≡ some (pos n)
unfolding parse_signed skip_space
parse_signed-pos bound [] n r lt = absurd (omega (arith, r.some_digit))
parse_signed-pos bound (c ∷ s) n r lt =
    ground (arith, r.all_digits.0, parse_magnitude-Reads (c ∷ s) n r)

parse_signed-negsuc :
    (bound : ℕ) (s : List ℕ) (n : ℕ)
    → Reads s (n + 1)
    → n < bound
    → parse_signed bound (skip_space (b'-' ∷ s)) ≡ some (negsuc n)
unfolding parse_signed skip_space
parse_signed-negsuc bound s n r lt = ground (arith, parse_magnitude-Reads s (n + 1) r)

c_str-AllDigits : (s : List ℕ) → AllDigits s → c_str s ≡ s
unfolding c_str
c_str-AllDigits [] h = refl
c_str-AllDigits (c ∷ s) (h, hs) = ground (arith, c_str-AllDigits s hs)

c_str_minus : (s : List ℕ) → c_str s ≡ s → c_str (b'-' ∷ s) ≡ b'-' ∷ s
unfolding c_str
c_str_minus s e = ap (◌∷◌ b'-') e

-- The numbers of an `int`.
abbrev pub IsInt : ℤ → Type 0
IsInt z = (pos_part z < 2 ^ 31) × (neg_part z ≤ 2 ^ 31)

-- An `int` that has been printed by `std::to_string` reads back by `std::stoi`.
pub parse_int-to_string : (z : ℤ) → IsInt z → parse_int (c_str (to_string z)) ≡ some z
unfolding parse_int to_string print_magnitude
parse_int-to_string (pos n) (lt, _) =
    let r = print-Reads 10 n (omega arith) (omega arith) in
    ap (λ t. parse_signed (2 ^ 31) (skip_space t)) (c_str-AllDigits (print_with 10 n) r.all_digits)
    ∙ parse_signed-pos (2 ^ 31) (print_with 10 n) n r lt
parse_int-to_string (negsuc n) (_, le) =
    let r = print-Reads 10 (n + 1) (omega arith) (omega arith) in
    ap (λ t. parse_signed (2 ^ 31) (skip_space t))
      (c_str_minus (print_with 10 (n + 1)) (c_str-AllDigits (print_with 10 (n + 1)) r.all_digits))
    ∙ parse_signed-negsuc (2 ^ 31) (print_with 10 (n + 1)) n r (omega arith)
