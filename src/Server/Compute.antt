-- ===== src/Server/Compute.antt =====
-- The server's part of a computation: `distributiveComputing`, `compileCode` and the loop of
-- `handle_distributive_systems`, of
-- `server commands/distributivecomputing/linuxdistributivecomputing.cpp`. What the code prints is
-- left out.
pub mod Parts
use distributed_system_manag.Base.{
  ℕ, zero, suc, ◌+◌, ◌-◌, min, Bool, true, false, Option, none, some, List, [], ◌∷◌, length, ltb,
  ◌==◌, if◌then◌else◌, codes, ℤ, pos, negsuc, sub_ℕ, to_u64,
}
use distributed_system_manag.Distribute.Local.{
  ComputeOs, Pipe, buffer_size, compile, write_from, start_child, collect_result,
}
use distributed_system_manag.Distribute.Run.{xor}

-- `pread` gives `none` for a negative result here: the loop ends on that only.
module _ {W : Type 0} (os : ComputeOs W) (pread : ℕ → ℕ → ℕ → W → Option (List ℕ) × W) where
  -- `false` where the process exits.
  unfoldable pub compile_code : (compiled : Bool) → W → Bool × W
  unfolding compile
  compile_code true w = (true, w)
  compile_code false w = compile os (codes "received_files/code/main.cpp") w

  -- The loop over a part of the file: `some none` after a `write` that failed, and `none` where it
  -- goes on after `fuel` rounds.
  unfoldable pub feed_part : ℕ → ℕ → ℕ → ℕ → ℕ → W → Option (Option (Unit {0})) × W
  unfolding write_from
  feed_part zero file fd remaining offset w = (none, w)
  feed_part (suc fuel) file fd remaining offset w =
      let (read, w1) = pread file (min buffer_size remaining) offset w in
      if ltb 0 remaining
      then (elim read [
        | none ↦ (some (some tt), w1)
        | some bytes ↦
            let (written, w2) = write_from os (length bytes) fd bytes w1 in
            let rest =
              feed_part fuel file fd (remaining - length bytes) (offset + length bytes) w2 in
            elim written [ none ↦ (some none, w2) | some _ ↦ rest ]
      ])
      else (some (some tt), w)

  unfoldable pub feed_signed : ℕ → ℕ → ℕ → ℤ → ℕ → W → Option (Option (Unit {0})) × W
  unfolding feed_part
  feed_signed fuel file fd (pos remaining) offset w = feed_part fuel file fd remaining offset w
  feed_signed fuel file fd (negsuc n) offset w = (some (some tt), w)

  -- By how the loop has ended.
  unfoldable pub part_result :
      (rounds file : ℕ) → Pipe → Pipe → Option (Option (Unit {0})) × W → Option ℤ × W
  unfolding collect_result
  part_result rounds file inpipe outpipe (none, w) = (none, w)
  part_result rounds file inpipe outpipe (some none, w) =
      (some (negsuc 0), os.close outpipe.read_end (os.close inpipe.write_end (os.close file w)))
  part_result rounds file inpipe outpipe (some (some _), w) =
      collect_result os rounds outpipe.read_end (os.close inpipe.write_end w)

  -- By the pipes, once the child runs.
  unfoldable pub compute_part :
      (rounds fuel offset : ℕ)
      → (remaining : ℤ) → (file : ℕ) → Option (Pipe × Pipe) × W
      → Option ℤ × W
  unfolding part_result feed_signed
  compute_part rounds fuel offset remaining file (none, w) = (some (negsuc 0), w)
  compute_part rounds fuel offset remaining file (some (inpipe, outpipe), w) =
      part_result rounds file inpipe outpipe (
        feed_signed fuel file inpipe.write_end remaining offset
          (os.close outpipe.write_end (os.close inpipe.read_end w)))

  -- `none`: it goes on after `fuel` rounds of the loop over the part, or `rounds` of that over the
  -- output.
  unfoldable pub distributive_computing :
      (rounds fuel offset : ℕ) → (remaining : ℤ) → (file : ℕ) → W → Option ℤ × W
  unfolding compute_part start_child
  distributive_computing rounds fuel offset remaining file w =
      compute_part rounds fuel offset remaining file (start_child os w)

-- The loop that computes over the bytes that have come since the last round. `compute offset
-- remaining` is the call of `distributiveComputing`, and `processed` are the values of
-- `processedBytes` in the rounds: another thread counts it up. `none`: the loop goes on.
module _ {W : Type 0} (compute : ℕ → ℤ → W → Option ℤ × W) (shared_file_size : ℕ) where
  unfoldable pub process : (processed : List ℕ) → (offset final_result : ℕ) → W → Option ℕ × W
  unfolding xor
  process [] offset final_result w =
      (if offset == shared_file_size then some final_result else none, w)
  process (p ∷ processed) offset final_result w =
      let (temp, w1) = compute offset (sub_ℕ p offset) w in
      if offset == shared_file_size then (some final_result, w) else (elim temp [
        | none ↦ (none, w1)
        | some value ↦ process processed p (xor 32 final_result (to_u64 value)) w1
      ])
