-- ===== src/Windows/Feed.antt =====
-- The loops that give a part of the file to the program: of `distributiveComputingLocal` on the
-- client and of `distributiveComputing` on the server.
pub mod Posix
use distributed_system_manag.Base.{
  ℕ, zero, suc, ◌+◌, ◌-◌, min, Option, none, some, List, [], length, drop, ltb, ◌==◌, if◌then◌else◌,
  ℤ, pos, negsuc,
}
use distributed_system_manag.Node.{Prog}
use distributed_system_manag.Distribute.Local.{buffer_size}
use distributed_system_manag.Windows.System.{WindowsOs, pread_windows}

-- What `pread_windows` has put into the buffer where its result is above 0.
unfoldable pub bytes_read : Option (List ℕ) → List ℕ
bytes_read none = []
bytes_read (some bytes) = bytes

module _ {W : Type 0} (os : WindowsOs W) where
  -- The client's loop over a buffer: `none` once a `WriteFile` fails or writes nothing. Each round
  -- writes a byte at least, so as many rounds as there are bytes are enough.
  unfoldable pub write_from : ℕ → ℕ → List ℕ → Prog W (Unit {0})
  write_from zero h bytes w = (some tt, w)
  write_from (suc fuel) h bytes w =
      let (result, w') = os.write_file h bytes w in
      let written : ℕ = elim result [ none ↦ 0 | some n ↦ n ] in
      let rest = write_from fuel h (drop written bytes) w' in
      if ltb 0 (length bytes) then (if written == 0 then (none, w') else rest) else (some tt, w)

  unfoldable pub write_all : ℕ → List ℕ → Prog W (Unit {0})
  unfolding write_from
  write_all h bytes w = write_from (length bytes) h bytes w

  -- The server's only `WriteFile`, whose count of bytes is not looked at.
  unfoldable pub write_once : ℕ → List ℕ → Prog W (Unit {0})
  write_once h bytes w = (
    elim (os.write_file h bytes w).0 [ none ↦ none | some _ ↦ some tt ],
    (os.write_file h bytes w).1,
  )

  -- The loop over the part of the file, by the way a buffer is written to the program. Each round
  -- reads a byte at least, so `remaining` rounds are enough.
  module _ (write : ℕ → List ℕ → Prog W (Unit {0})) (file h : ℕ) where
    unfoldable pub feed_from : ℕ → ℕ → ℕ → Prog W (Unit {0})
    unfolding pread_windows bytes_read
    feed_from zero remaining offset w = (some tt, w)
    feed_from (suc fuel) remaining offset w =
        let (read, w1) = pread_windows os file (min buffer_size remaining) offset w in
        let bytes = bytes_read read in
        let (written, w2) = write h bytes w1 in
        let rest = feed_from fuel (remaining - length bytes) (offset + length bytes) w2 in
        if ltb 0 remaining
        then (if length bytes == 0
            then (some tt, w1)
            else elim written [ none ↦ (none, w2) | some _ ↦ rest ])
        else (some tt, w)

    -- A size below 0 is no round.
    unfoldable pub feed : ℤ → ℕ → Prog W (Unit {0})
    unfolding feed_from
    feed (pos remaining) offset w = feed_from remaining remaining offset w
    feed (negsuc n) offset w = (some tt, w)

  unfoldable pub feed_chunk : (file h : ℕ) → ℤ → ℕ → Prog W (Unit {0})
  unfolding feed write_all
  feed_chunk file h size offset w = feed write_all file h size offset w

  unfoldable pub feed_part : (file h : ℕ) → ℤ → ℕ → Prog W (Unit {0})
  unfolding feed write_once
  feed_part file h size offset w = feed write_once file h size offset w
