-- ===== src/Windows/Divide/Posix.antt =====
-- The division on Windows beside that on Linux.
use distributed_system_manag.Base.{ℕ, ◌<◌, ◌≡◌, List}
use distributed_system_manag.Distribute.Align
use distributed_system_manag.Distribute.Chunks
use distributed_system_manag.Windows.System.{WindowsOs, pread_windows}
use distributed_system_manag.Windows.Feed.{bytes_read}

-- `pread` is what the open file `file` gives at any time.
abbrev pub ReadsAs : {W : Type 0} → WindowsOs W → ℕ → ℕ → (ℕ → ℕ → List ℕ) → Type 0
ReadsAs {W} os file limit pread =
    (p : ℕ) (w : W)
    → p < limit
    → bytes_read (pread_windows os file Align.read_size p w).0 ≡ pread Align.read_size p
