-- ===== src/Distribute/Chunks/Tiling.antt =====
-- The chunks of `divideFileIntoChunks` tile the file, and do so inside it on files of short lines.
use distributed_system_manag.Base.{
  ℕ, zero, suc, ◌+◌, ◌<◌, ◌≡◌, refl, some, List, [], ◌∷◌, arith, length, sub_ℕ, true, ap,
}
use distributed_system_manag.Distribute.Chunks.{
  Chunk, adjusted_end, divide_from, divide_file_into_chunks,
}

-- Each chunk starts where the one before it ends: from `from` to `to`.
pub data Tiles : ℕ → ℕ → List Chunk → Type 0 where
  done : {from to : ℕ} → from ≡ to → Tiles from to []
  chunk :
      {from to : ℕ} {c : Chunk} {rest : List Chunk} (next : ℕ)
      → c.offset ≡ from
      → c.size ≡ sub_ℕ next from
      → Tiles next to rest
      → Tiles from to (c ∷ rest)

module _ (pread : ℕ → ℕ → List ℕ) (file_size n : ℕ) where
  pub adjusted_end-last :
      (i offset : ℕ) → i + 1 ≡ n → adjusted_end pread file_size n i offset ≡ file_size
  unfolding adjusted_end
  adjusted_end-last i offset e = ground arith

  pub divide_from-Tiles :
      (rounds i offset : ℕ)
      → i + suc rounds ≡ n
      → Tiles offset file_size (divide_from pread file_size n (suc rounds) i offset)
  unfolding divide_from
  divide_from-Tiles zero i offset e =
      chunk (adjusted_end pread file_size n i offset) refl refl
        (done (adjusted_end-last i offset (omega arith)))
  divide_from-Tiles (suc rounds) i offset e =
      chunk (adjusted_end pread file_size n i offset) refl refl
        (divide_from-Tiles rounds (suc i) (adjusted_end pread file_size n i offset) (omega arith))

  length-divide_from :
      (rounds i offset : ℕ) → length (divide_from pread file_size n rounds i offset) ≡ rounds
  unfolding divide_from
  length-divide_from zero i offset = refl
  length-divide_from (suc rounds) i offset =
      ap suc (length-divide_from rounds (suc i) (adjusted_end pread file_size n i offset))

-- A file that opens and is not empty is divided.
pub divide-eq :
    (pread : ℕ → ℕ → List ℕ) (s n : ℕ)
    → 0 < s
    → divide_file_into_chunks pread true (some s) n ≡ some (divide_from pread s n n 0 0)
unfolding divide_file_into_chunks
divide-eq pread zero n h = absurd (omega arith)
divide-eq pread (suc k) n h = refl

-- For every behaviour of `pread`, a file of `k + 1` bytes that opens and any number `m + 1` of
-- nodes: the division succeeds with one chunk for each node, the first starts at 0, each next one
-- starts where the one before it ends (offset + size, as integers), and the last ends at the
-- file's size.
pub divide-Tiles :
    (pread : ℕ → ℕ → List ℕ) (k m : ℕ)
    → (chunks : List Chunk) × (divide_file_into_chunks pread true (some (suc k)) (suc m)
        ≡ some chunks)
      × (length chunks ≡ suc m)
      × Tiles 0 (suc k) chunks
unfolding divide_file_into_chunks
divide-Tiles pread k m = (
  divide_from pread (suc k) (suc m) (suc m) 0 0,
  refl,
  length-divide_from pread (suc k) (suc m) (suc m) 0 0,
  divide_from-Tiles pread (suc k) (suc m) m 0 0 (omega arith),
)
