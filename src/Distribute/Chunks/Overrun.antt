-- ===== src/Distribute/Chunks/Overrun.antt =====
-- Three nodes and a file whose one newline is its last byte: the safeguard for a node whose aligned
-- end does not lie behind its start moves the end past the end of the file.
use Prim.Native.Nat.add
use distributed_system_manag.Base.{
  ℕ, ◌+◌, ◌-◌, ◌*◌, ◌/◌, ◌≤◌, ◌<◌, ◌≡◌, some, List, [], ◌∷◌, arith, length, pos, negsuc, true, ap,
  ◌∙◌,
}
use distributed_system_manag.Distribute.Align.{find_newline, adjust_to_next_line, scan_limit}
use distributed_system_manag.Distribute.Align.Laws.{
  ReadsFile, adjust-eq, adjust-past_end, find_newline-drop_eq,
}
use distributed_system_manag.Distribute.Chunks.{
  weight, total_weight, ideal_chunk, adjusted_end, divide_from, divide_file_into_chunks,
}
use distributed_system_manag.Distribute.Chunks.Tiling.{adjusted_end-last, divide-eq}

module _ {pread : ℕ → ℕ → List ℕ} {content : List ℕ} (k : ℕ) (reads : ReadsFile pread content)
    (positive : 0 < k) (size : length content ≡ 5 * k)
    (one_line : find_newline content ≡ some (5 * k - 1)) (near : 2 * k ≤ scan_limit) where
  abbrev end_of : ℕ → ℕ → ℕ
  end_of i offset = adjusted_end pread (length content) 3 i offset

  aligned : adjust_to_next_line pread (3 * k) (length content) ≡ 5 * k
  aligned =
      adjust-eq reads (3 * k) (5 * k - 1 - 3 * k)
        (find_newline-drop_eq (3 * k) content (5 * k - 1) (omega arith) one_line) (omega arith)
      ∙ omega arith

  end_first : end_of 0 0 ≡ 5 * k
  unfolding adjusted_end ideal_chunk weight total_weight
  end_first = rw (ideal, add.zero (3 * k), aligned) (ground arith)
    where
      ideal : length content * 3 / 5 ≡ 3 * k
      ideal = omega arith

  end_second : end_of 1 (5 * k) ≡ 6 * k
  unfolding adjusted_end ideal_chunk weight total_weight
  end_second =
      ground (arith, size, adjust-past_end pread (5 * k + length content * 1 / 5) (length content))

  end_third : end_of 2 (6 * k) ≡ 5 * k
  end_third = adjusted_end-last pread (length content) 3 2 (6 * k) (omega arith) ∙ size

  overrun_chunks :
      divide_from pread (length content) 3 3 0 0
      ≡ record { offset = 0; size = pos (5 * k) }
        ∷ record { offset = 5 * k; size = pos k }
        ∷ record { offset = 6 * k; size = negsuc (k - 1) }
        ∷ []
  unfolding divide_from
  overrun_chunks = rw (end_first, end_second, end_third) (ground arith)

-- Let a file have `5 * k` bytes, `k` positive and at most 8192, and let its last byte be its only
-- newline. Divided among three nodes, the first node is given the whole file, the second `k` bytes
-- at the end of the file, where there are none, and the third the size -k at an offset of `6 * k`.
pub divide-overrun :
    (pread : ℕ → ℕ → List ℕ) (content : List ℕ) (k : ℕ)
    → ReadsFile pread content
    → 0 < k
    → length content ≡ 5 * k
    → find_newline content ≡ some (5 * k - 1)
    → 2 * k ≤ scan_limit
    → divide_file_into_chunks pread true (some (length content)) 3
      ≡ some (
          record { offset = 0; size = pos (5 * k) }
          ∷ record { offset = 5 * k; size = pos k }
          ∷ record { offset = 6 * k; size = negsuc (k - 1) }
          ∷ [])
divide-overrun pread content k reads positive size one_line near =
    divide-eq pread (length content) 3 (omega arith)
    ∙ ap some (overrun_chunks k reads positive size one_line near)
