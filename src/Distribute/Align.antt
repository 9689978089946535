-- ===== src/Distribute/Align.antt =====
-- `adjustToNextLine`: from a position to the start of the next line.
-- `pread` is a parameter: `pread n p` is what the call reads, at most `n` bytes at position `p`,
-- and `[]` stands for a result of 0 or less.
pub mod Laws
use mathlib.Core.Option
use distributed_system_manag.Base.{
  ℕ, zero, suc, ◌+◌, ◌-◌, ◌*◌, Bool, ◌&&◌, Option, none, some, List, [], ◌∷◌, ltb, leb, ◌==◌,
  if◌then◌else◌, length,
}

-- `BUF_SIZE` and `BUF_SIZE * 4`.
abbrev pub read_size : ℕ
read_size = 4096

abbrev pub scan_limit : ℕ
scan_limit = read_size * 4

-- The loop over the bytes of a read: the index of the first newline.
unfoldable pub find_newline : List ℕ → Option ℕ
find_newline [] = none
find_newline (c ∷ s) = if c == 10 then some 0 else Option.map suc (find_newline s)

module _ (pread : ℕ → ℕ → List ℕ) where
  -- The loop. Each round reads a byte at least, so `scan_limit` rounds are enough: at no fuel the
  -- loop's own test has failed.
  unfoldable pub scan : ℕ → ℕ → ℕ → ℕ → ℕ
  scan zero start p file_size = start
  scan (suc fuel) start p file_size =
      let bytes = pread read_size p in
      let rest = scan fuel start (p + length bytes) file_size in
      if ltb p file_size && ltb (p - start) scan_limit
      then (if length bytes == 0
          then start
          else elim (find_newline bytes) [ some i ↦ p + i + 1 | none ↦ rest ])
      else start

  unfoldable pub adjust_to_next_line : ℕ → ℕ → ℕ
  adjust_to_next_line p file_size =
      if leb file_size p then file_size else scan scan_limit p p file_size
