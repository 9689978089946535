-- ===== src/Distribute/Chunks/Coverage.antt =====
-- The nodes' parts, put together, are the file.
use native.Mathlib.Nat.{div-le_self}
use distributed_system_manag.Base.{
  ℕ, suc, ◌+◌, ◌*◌, ◌/◌, some, true, ◌<◌, ◌≡◌, refl, List, [], ◌∷◌, ◌++◌, arith, length, take, drop,
  pos, pos_part, sub_ℕ, All, ap, ◌∙◌, sym, take-append-drop, drop-drop,
}
use distributed_system_manag.Distribute.Align.Laws.{ReadsFile}
use distributed_system_manag.Distribute.Chunks.{Chunk, divide_from, divide_file_into_chunks}
use distributed_system_manag.Distribute.Chunks.Tiling.{
  Tiles, done, chunk, divide_from-Tiles, divide-eq,
}
use distributed_system_manag.Distribute.Chunks.Lines.{IsWhole, ShortLines, All-IsWhole}

-- The bytes of the file that a chunk names.
abbrev pub chunk_bytes : List ℕ → Chunk → List ℕ
chunk_bytes content c = take (pos_part c.size) (drop c.offset content)

abbrev pub all_bytes : List ℕ → List Chunk → List ℕ
all_bytes content [] = []
all_bytes content (c ∷ rest) = chunk_bytes content c ++ all_bytes content rest

drop-length : (xs : List ℕ) → drop (length xs) xs ≡ []
drop-length [] = refl
drop-length (x ∷ xs) = drop-length xs

size-eq : (next from k : ℕ) → sub_ℕ next from ≡ pos k → 0 < k → from + k ≡ next
size-eq next from k e h = ground arith

all_bytes-Tiles :
    (content : List ℕ) {from to : ℕ} {chunks : List Chunk}
    → Tiles from to chunks
    → to ≡ length content
    → All (IsWhole content) chunks
    → all_bytes content chunks ≡ drop from content
all_bytes-Tiles content (done e) whole p =
    sym (ap (λ n. drop n content) (e ∙ whole) ∙ drop-length content)
all_bytes-Tiles content (chunk {from} {c} {rest} next start size tiles) whole
      ((k, sized, big, _, _), p) =
    ap (λ t. take (pos_part t) (drop c.offset content) ++ all_bytes content rest) sized
    ∙ ap (λ o. take k (drop o content) ++ all_bytes content rest) start
    ∙ ap (◌++◌ (take k (drop from content))) (
        all_bytes-Tiles content tiles whole p
        ∙ ap (λ n. drop n content) (sym (size-eq next from k (sym size ∙ sized) big))
        ∙ sym (drop-drop from k content))
    ∙ take-append-drop k (drop from content)

-- Let the file's text have its next newline less than `longest` bytes (at most 16384) behind every
-- byte, let `pread` read that file, and let `m * longest` be below the file's size divided by
-- `m + 3`. Then among `m + 1` nodes the division succeeds; each chunk has a positive size, lies
-- inside the file and starts at the file's start or right behind a newline; and the bytes that the
-- chunks name, one chunk after another, are the file's.
pub divide-IsWhole :
    (pread : ℕ → ℕ → List ℕ) (content : List ℕ) (longest m : ℕ)
    → ReadsFile pread content
    → ShortLines longest content
    → m * longest < length content / (m + 3)
    → (chunks : List Chunk) × (divide_file_into_chunks pread true (some (length content)) (suc m)
        ≡ some chunks)
      × All (IsWhole content) chunks
      × (all_bytes content chunks ≡ content)
divide-IsWhole pread content longest m reads short room =
    (divide_from pread (length content) (suc m) (suc m) 0 0, divided, whole, tiled)
  where
    divided :
        divide_file_into_chunks pread true (some (length content)) (suc m)
        ≡ some (divide_from pread (length content) (suc m) (suc m) 0 0)
    divided =
        divide-eq pread (length content) (suc m)
          (omega (arith, div-le_self (length content) (m + 3)))

    whole : All (IsWhole content) (divide_from pread (length content) (suc m) (suc m) 0 0)
    whole = All-IsWhole m reads short m refl room

    tiled : all_bytes content (divide_from pread (length content) (suc m) (suc m) 0 0) ≡ content
    tiled =
        all_bytes-Tiles content
          (divide_from-Tiles pread (length content) (suc m) m 0 0 (omega arith)) refl whole
