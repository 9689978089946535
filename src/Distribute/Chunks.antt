-- ===== src/Distribute/Chunks.antt =====
-- `getFileSize` and `divideFileIntoChunks`: the offset and the size that each node is given.
-- The numbers of the C++ code are 64-bit and signed. A file below 2^61 bytes overflows none of
-- them; only a chunk's size can be negative, so it is an integer here.
pub mod Weights
pub mod Lines
pub mod Overrun
pub mod Coverage
pub mod Tiling
use distributed_system_manag.Base.{
  ℕ, zero, suc, ◌+◌, ◌-◌, ◌*◌, ◌/◌, Bool, ◌||◌, true, false, Option, none, some, List, [], ◌∷◌, ltb,
  leb, ◌==◌, if◌then◌else◌, ℤ, pos, negsuc, sub_ℕ, pos_part,
}
use distributed_system_manag.Distribute.Align.{adjust_to_next_line}

-- `train_offset[i]` and `train_chunk_size[i]`.
pub record Chunk : Type 0 where
  pub offset : ℕ
  pub size : ℤ

-- `stat` gives the size, or fails.
unfoldable pub get_file_size : Option ℕ → ℤ
get_file_size (some st_size) = pos st_size
get_file_size none = negsuc 0

unfoldable pub weight : ℕ → ℕ
weight i = if i == 0 then 3 else 1

-- The loop that sums the weights: `rounds` rounds from index `i`.
unfoldable pub sum_weights : ℕ → ℕ → ℕ → ℕ
unfolding weight
sum_weights zero i total = total
sum_weights (suc rounds) i total = sum_weights rounds (suc i) (total + weight i)

unfoldable pub total_weight : ℕ → ℕ
unfolding sum_weights
total_weight n = sum_weights n 0 0

module _ (pread : ℕ → ℕ → List ℕ) (file_size total_connections : ℕ) where
  unfoldable pub ideal_chunk : ℕ → ℕ
  ideal_chunk i = file_size * weight i / total_weight total_connections

  -- `adjusted_end` of node `i`, which starts at `offset`.
  unfoldable pub adjusted_end : ℕ → ℕ → ℕ
  adjusted_end i offset =
      let tentative_end = offset + ideal_chunk i in
      let aligned = adjust_to_next_line pread tentative_end file_size in
      if i == total_connections - 1
      then file_size
      else (if leb aligned offset || ltb (tentative_end + ideal_chunk i) aligned
          then tentative_end
          else aligned)

  -- The loop over the nodes: `rounds` rounds from index `i`.
  unfoldable pub divide_from : ℕ → ℕ → ℕ → List Chunk
  divide_from zero i offset = []
  divide_from (suc rounds) i offset =
      record { offset = offset; size = sub_ℕ (adjusted_end i offset) offset }
      ∷ divide_from rounds (suc i) (adjusted_end i offset)

-- `none` is an early return, which leaves both arrays as `malloc` gave them.
unfoldable pub divide_file_into_chunks :
    (pread : ℕ → ℕ → List ℕ)
    → (opened : Bool) → (stat : Option ℕ) → (total_connections : ℕ) → Option (List Chunk)
unfolding get_file_size
divide_file_into_chunks pread false stat n = none
divide_file_into_chunks pread true stat n =
    let file_size = get_file_size stat in
    elim file_size [
      | pos zero ↦ none
      | pos (suc k) ↦ some (divide_from pread (suc k) n n 0 0)
      | negsuc k ↦ none
    ]
