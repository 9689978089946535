-- ===== src/Windows/Divide.antt =====
-- `getFileSize`, `adjustToNextLine` and `divideFileIntoChunks` of
-- `Clients Commands/distributedcomputing/windowsdistributivecomputing.cpp`: the code of the Linux
-- file over the Windows calls. The numbers are 64-bit and signed, but `off_t` and `long int`, which
-- keep an offset, have 32 bits on Windows: a file below 2^31 bytes overflows none of them.
pub mod Posix
use distributed_system_manag.Base.{
  ℕ, zero, suc, ◌+◌, ◌-◌, ◌||◌, ◌&&◌, Option, none, some, List, [], ◌∷◌, length, ltb, leb, ◌==◌,
  if◌then◌else◌, ℤ, pos, negsuc, sub_ℕ,
}
use distributed_system_manag.Distribute.Align.{read_size, scan_limit, find_newline}
use distributed_system_manag.Distribute.Chunks.{Chunk, ideal_chunk}
use distributed_system_manag.Windows.System.{WindowsOs, pread_windows}
use distributed_system_manag.Windows.Feed.{bytes_read}

module _ {W : Type 0} (os : WindowsOs W) where
  -- -1 where the file does not open or has no size.
  unfoldable pub get_file_size : List ℕ → W → ℤ × W
  get_file_size path w = elim (os.create_file path w).0 [
    | none ↦ (negsuc 0, (os.create_file path w).1)
    | some file ↦
        let (size, w') = os.get_file_size_ex file (os.create_file path w).1 in
        (elim size [ none ↦ negsuc 0 | some n ↦ pos n ], os.close_handle file w')
  ]

  module _ (file : ℕ) where
    -- The loop. Each round reads a byte at least, so `scan_limit` rounds are enough: at no fuel the
    -- loop's own test has failed.
    unfoldable pub scan : ℕ → ℕ → ℕ → ℕ → W → ℕ × W
    unfolding bytes_read pread_windows
    scan zero start p file_size w = (start, w)
    scan (suc fuel) start p file_size w =
        let (read, w') = pread_windows os file read_size p w in
        let bytes = bytes_read read in
        let rest = scan fuel start (p + length bytes) file_size w' in
        if ltb p file_size && ltb (p - start) scan_limit
        then (if length bytes == 0
            then (start, w')
            else elim (find_newline bytes) [ some i ↦ (p + i + 1, w') | none ↦ rest ])
        else (start, w)

    unfoldable pub adjust_to_next_line : ℕ → ℕ → W → ℕ × W
    unfolding scan
    adjust_to_next_line p file_size w =
        if leb file_size p then (file_size, w) else scan scan_limit p p file_size w

    module _ (file_size total_connections : ℕ) where
      -- `adjusted_end` of node `i`, which starts at `offset`.
      unfoldable pub adjusted_end : ℕ → ℕ → W → ℕ × W
      unfolding adjust_to_next_line
      adjusted_end i offset w =
          let ideal = ideal_chunk (λ _ _. []) file_size total_connections i in
          let tentative_end = offset + ideal in
          let (aligned, w') = adjust_to_next_line tentative_end file_size w in
          if i == total_connections - 1
          then (file_size, w)
          else (if leb aligned offset || ltb (tentative_end + ideal) aligned
              then (tentative_end, w')
              else (aligned, w'))

      -- The loop over the nodes: `rounds` rounds from index `i`.
      unfoldable pub divide_from : ℕ → ℕ → ℕ → W → List Chunk × W
      unfolding adjusted_end
      divide_from zero i offset w = ([], w)
      divide_from (suc rounds) i offset w =
          let (end, w1) = adjusted_end i offset w in
          let (chunks, w2) = divide_from rounds (suc i) end w1 in
          (record { offset = offset; size = sub_ℕ end offset } ∷ chunks, w2)

  -- By the size, once the file is open.
  unfoldable pub divide_open : ℕ → ℕ → ℤ × W → Option (List Chunk) × W
  unfolding divide_from
  divide_open file n (pos zero, w) = (none, os.close_handle file w)
  divide_open file n (negsuc k, w) = (none, os.close_handle file w)
  divide_open file n (pos (suc k), w) =
      let (chunks, w') = divide_from file (suc k) n n 0 0 w in
      (some chunks, os.close_handle file w')

  -- `none` is an early return, which leaves both arrays as `malloc` gave them.
  unfoldable pub divide_file_into_chunks : List ℕ → ℕ → W → Option (List Chunk) × W
  unfolding get_file_size divide_open
  divide_file_into_chunks path n w = elim (os.create_file path w).0 [
    | none ↦ (none, (os.create_file path w).1)
    | some file ↦ divide_open file n (get_file_size path (os.create_file path w).1)
  ]
