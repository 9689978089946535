-- ===== src/Windows/System/Pread.antt =====
-- What `pread_windows` reads.
use distributed_system_manag.Base.{
  ℕ, ◌+◌, ◌*◌, ◌%◌, ◌^◌, ◌<◌, ◌≡◌, ap, ◌∙◌, Option, some, List, arith,
}
use distributed_system_manag.Windows.System.{Overlapped, WindowsOs, overlapped, pread_windows}

-- The position that the two halves stand for.
abbrev pub position : Overlapped → ℕ
position ov = ov.offset_high * 2 ^ 32 + ov.offset

-- Splitting an offset below 2^64 into two words and putting them together gives the offset.
position-overlapped : (offset : ℕ) → offset < 2 ^ 64 → position (overlapped offset) ≡ offset
unfolding overlapped
position-overlapped offset h = omega arith

-- Documented behaviour of `ReadFile` with an `OVERLAPPED`: it reads at the position that its two
-- words stand for, as `pread` does.
abbrev ReadsAt : {W : Type 0} → WindowsOs W → (ℕ → ℕ → ℕ → W → Option (List ℕ) × W) → Type 0
ReadsAt {W} os pread =
    (file n : ℕ) (ov : Overlapped) (w : W)
    → os.read_file file n (some ov) w ≡ pread file n (position ov) w

-- Where `ReadFile` reads at the position that the two words of an `OVERLAPPED` stand for, the
-- emulation reads what `pread` reads: for every size below 2^32 and offset below 2^64.
pread_windows_lem :
    {W : Type 0} (os : WindowsOs W) (pread : ℕ → ℕ → ℕ → W → Option (List ℕ) × W)
    → ReadsAt os pread
    → (file size offset : ℕ) (w : W) → size < 2 ^ 32
    → offset < 2 ^ 64
    → pread_windows os file size offset w ≡ pread file size offset w
unfolding pread_windows
pread_windows_lem os pread reads file size offset w small low =
    reads file (size % 2 ^ 32) (overlapped offset) w
    ∙ ap (λ n. pread file n (position (overlapped offset)) w) (mod_small size small)
    ∙ ap (λ p. pread file size p w) (position-overlapped offset low)
  where
    mod_small : (n : ℕ) → n < 2 ^ 32 → n % 2 ^ 32 ≡ n
    mod_small n h = omega arith
