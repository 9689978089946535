-- ===== src/ShareFile/Wire.antt =====
-- Integers as the bytes that cross the connection: `sizeof` many, low byte first, as on x86.
use native.Mathlib.Nat.{pow-suc}
use distributed_system_manag.Base.{
  ℕ, zero, suc, ◌+◌, ◌*◌, ◌/◌, ◌%◌, ◌^◌, ◌<◌, ◌≡◌, refl, List, [], ◌∷◌, ◌++◌, length, ap, arith,
}

unfoldable pub to_bytes : ℕ → ℕ → List ℕ
to_bytes zero n = []
to_bytes (suc w) n = (n % 256) ∷ to_bytes w (n / 256)

unfoldable pub of_bytes : List ℕ → ℕ
of_bytes [] = 0
of_bytes (b ∷ bs) = b + 256 * of_bytes bs

-- What a transfer puts on the connection: the folder and the file's name, each behind its length,
-- the size's bytes and the content.
abbrev pub transfer : List ℕ → List ℕ → List ℕ → List ℕ → List ℕ
transfer folder filename size content =
    to_bytes 4 (length folder)
    ++ (folder ++ (to_bytes 4 (length filename) ++ (filename ++ (size ++ content))))

pub length-to_bytes : (w n : ℕ) → length (to_bytes w n) ≡ w
unfolding to_bytes
length-to_bytes zero n = refl
length-to_bytes (suc w) n = ap suc (length-to_bytes w (n / 256))

-- The integer that its bytes stand for is the integer, where it fits them.
pub of_bytes-to_bytes : (w n : ℕ) → n < 256 ^ w → of_bytes (to_bytes w n) ≡ n
unfolding to_bytes of_bytes
of_bytes-to_bytes zero n h = omega arith
of_bytes-to_bytes (suc w) n h =
    omega (arith, of_bytes-to_bytes w (n / 256) (omega (arith, pow-suc 256 w)))
