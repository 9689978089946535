-- ===== src/Windows/System.antt =====
-- The Windows calls that the variants use, and `pread_windows`, which both files define.
pub mod Pread
pub mod Handles
use distributed_system_manag.Base.{
  ℕ, ◌%◌, ◌/◌, ◌^◌, Bool, true, false, Option, none, some, List, [], ◌∷◌, codes,
}
use distributed_system_manag.Node.{Prog}
use distributed_system_manag.Distribute.Local.{Pipe}

-- The position in an `OVERLAPPED`: two `DWORD`s.
pub record Overlapped : Type 0 where
  pub offset : ℕ
  pub offset_high : ℕ

-- The handles in a `PROCESS_INFORMATION`.
pub record Process : Type 0 where
  pub h_process : ℕ
  pub h_thread : ℕ

-- `none` is a call that fails: a `BOOL` that is `FALSE`, or `INVALID_HANDLE_VALUE`.
-- `create_process name handles` starts a program, given by its path or by a command line, with its
-- standard input, and its output and errors, connected to the two handles where they are given.
pub record WindowsOs (W : Type 0) : Type 0 where
  pub create_pipe : W → Option Pipe × W
  pub set_handle_information : ℕ → W → W
  pub create_process : List ℕ → Option (ℕ × ℕ) → W → Option Process × W
  pub wait_for_single_object : ℕ → W → W
  pub get_exit_code_process : ℕ → W → ℕ × W
  pub create_file : List ℕ → W → Option ℕ × W
  pub get_file_size_ex : ℕ → W → Option ℕ × W
  pub read_file : ℕ → ℕ → Option Overlapped → W → Option (List ℕ) × W
  pub write_file : ℕ → List ℕ → W → Option ℕ × W
  pub close_handle : ℕ → W → W

-- `ov.Offset` and `ov.OffsetHigh`, for an offset that is not negative.
unfoldable pub overlapped : ℕ → Overlapped
overlapped offset = record { offset = offset % 2 ^ 32; offset_high = offset / 2 ^ 32 % 2 ^ 32 }

module _ {W : Type 0} (os : WindowsOs W) where
  -- `none`: the result is -1.
  unfoldable pub pread_windows : (file size offset : ℕ) → W → Option (List ℕ) × W
  unfolding overlapped
  pread_windows file size offset w = os.read_file file (size % 2 ^ 32) (some (overlapped offset)) w

  -- Of the handles that a return closes, one after the other.
  unfoldable pub close_handles : List ℕ → W → W
  close_handles [] w = w
  close_handles (h ∷ hs) w = close_handles hs (os.close_handle h w)

  abbrev pub closing : List ℕ → Prog W (Unit {0})
  closing hs w = (some tt, close_handles hs w)

  -- A return after a failure, which closes the handles first.
  abbrev pub or_close_handles : {A : Type 0} → List ℕ → Prog W A → Prog W A
  or_close_handles hs m w = elim (m w).0 [
    | none ↦ (none, close_handles hs (m w).1)
    | some a ↦ (some a, (m w).1)
  ]
