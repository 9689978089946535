-- ===== src/Distribute/Chunks/Lines.antt =====
-- On a file of short lines no chunk cuts a line, leaves the file or is empty.
use native.Mathlib.Nat.{div-le_self}
use distributed_system_manag.Base.{
  ℕ, zero, suc, ◌+◌, ◌-◌, ◌*◌, ◌/◌, ◌≤◌, ◌<◌, ◌≡◌, refl, ◌⊎◌, inl, inr, some, List, [], ◌∷◌, arith,
  length, length-drop, drop, get_elem?, pos, sub_ℕ, ap, ◌∙◌, sym, All, get_elem?-drop, le→leb, leb,
  ◌==◌, le→ltb, false,
}
use distributed_system_manag.Distribute.Align.{find_newline, adjust_to_next_line, scan_limit}
use distributed_system_manag.Distribute.Align.Laws.{ReadsFile, adjust-eq, find_newline-lt}
use distributed_system_manag.Distribute.Chunks.{Chunk, ideal_chunk, adjusted_end, divide_from}
use distributed_system_manag.Distribute.Chunks.Tiling.{adjusted_end-last}
use distributed_system_manag.Distribute.Chunks.Weights.{
  shares-le, share-le-first, ideal_chunk-zero, ideal_chunk-suc,
}

-- Every byte of the text has a newline less than `longest` bytes behind it (or is one).
pub record ShortLines (longest : ℕ) (content : List ℕ) : Type 0 where
  pub limit : longest ≤ scan_limit
  pub newline :
      (p : ℕ)
      → p < length content
      → (d : ℕ) × (find_newline (drop p content) ≡ some d) × (d < longest)

-- The position is the first of a line.
abbrev pub LineStart : List ℕ → ℕ → Type 0
LineStart content p = (p ≡ 0) ⊎ (get_elem? content (p - 1) ≡ some 10)

-- A chunk holds at least a byte, lies inside the file and starts with a line.
abbrev pub IsWhole : List ℕ → Chunk → Type 0
IsWhole content c =
    (k : ℕ) × (c.size ≡ pos k)
    × (0 < k)
    × (c.offset + k ≤ length content)
    × LineStart content c.offset

find_newline-get_elem? : (s : List ℕ) (d : ℕ) → find_newline s ≡ some d → get_elem? s d ≡ some 10
unfolding find_newline
find_newline-get_elem? [] d e = cc
find_newline-get_elem? (c ∷ s) zero e = ground arith
find_newline-get_elem? (c ∷ s) (suc d) e = ground (arith, find_newline-get_elem? s d)

-- The end of a node that is not the last.
record Next (content : List ℕ) (longest offset ideal end : ℕ) : Type 0 where
  grows : offset < end
  near : end ≤ offset + ideal + longest
  inside : end ≤ length content
  line : LineStart content end

module _ {pread : ℕ → ℕ → List ℕ} {content : List ℕ} {longest : ℕ} (m : ℕ)
    (reads : ReadsFile pread content) (short : ShortLines longest content) where
  abbrev ideal : ℕ → ℕ
  ideal i = ideal_chunk pread (length content) (suc m) i

  adjusted_end-Next :
      (i offset : ℕ)
      → i < m
      → offset + ideal i < length content
      → longest ≤ ideal i
      → Next content longest offset (ideal i) (adjusted_end pread (length content) (suc m) i offset)
  unfolding adjusted_end
  adjusted_end-Next i offset lt inside fits =
      rw (not_last, aligned, le→leb_false, le→ltb _ _ low)
        (record {
          grows = omega (arith, d_lt);
          near = omega (arith, d_lt);
          inside = omega (arith, found_inside);
          line = inr (line_before ∙ found_newline);
        })
    where
      tentative : ℕ
      tentative = offset + ideal i

      d : ℕ
      d = (short.newline tentative inside).0

      found : find_newline (drop tentative content) ≡ some d
      found = (short.newline tentative inside).1

      d_lt : d < longest
      d_lt = (short.newline tentative inside).2

      not_last : (i == suc m - 1) ≡ false
      not_last = ground arith

      aligned : adjust_to_next_line pread tentative (length content) ≡ tentative + d + 1
      aligned = adjust-eq reads tentative d found (omega (arith, d_lt, short.limit))

      le→leb_false : leb (tentative + d + 1) offset ≡ false
      le→leb_false = ground arith

      low : tentative + d + 1 ≤ tentative + ideal i
      low = omega (arith, d_lt)

      found_inside : d < length content - tentative
      found_inside = omega (
        arith,
        find_newline-lt (drop tentative content) d found,
        length-drop {0} tentative content,
      )

      back : tentative + d + 1 - 1 ≡ tentative + d
      back = omega arith

      line_before : get_elem? content (tentative + d + 1 - 1) ≡ get_elem? (drop tentative content) d
      line_before = ap (get_elem? content) back ∙ sym (get_elem?-drop tentative d content)

      found_newline : get_elem? (drop tentative content) d ≡ some 10
      found_newline = find_newline-get_elem? (drop tentative content) d found

  sub_ℕ-pos : (a b : ℕ) → b ≤ a → sub_ℕ a b ≡ pos (a - b)
  sub_ℕ-pos a b h = rw (le→leb b a h)

  chunk-IsWhole :
      (offset end : ℕ)
      → offset < end
      → end ≤ length content
      → LineStart content offset
      → IsWhole content (record { offset = offset; size = sub_ℕ end offset })
  chunk-IsWhole offset end lt inside line =
      (end - offset, sub_ℕ-pos end offset (omega arith), omega arith, omega arith, line)

  abbrev chunks_from : ℕ → ℕ → ℕ → List Chunk
  chunks_from rounds i offset = divide_from pread (length content) (suc m) rounds i offset

  rest-IsWhole :
      (r i offset : ℕ)
      → m * longest < length content / (m + 3)
      → suc i + r ≡ m
      → offset + suc r * (length content / (m + 3)) ≤ length content + suc i * longest
      → LineStart content offset
      → All (IsWhole content) (chunks_from (suc r) (suc i) offset)
  unfolding divide_from
  rest-IsWhole zero i offset room e bound line = (
    rw (adjusted_end-last pread (length content) (suc m) (suc i) offset (omega arith)) (
        chunk-IsWhole offset (length content) (omega (arith, ap (λ (t : ℕ). t * longest) e))
          (omega arith) line),
    tt,
  )
  rest-IsWhole (suc r) i offset room e bound line = (
    chunk-IsWhole offset end next.grows next.inside line,
    rest-IsWhole r (suc i) end room (omega arith) (omega (arith, next.near, share)) next.line,
  )
    where
      end : ℕ
      end = adjusted_end pread (length content) (suc m) (suc i) offset

      share : ideal (suc i) ≡ length content / (m + 3)
      share = ideal_chunk-suc pread (length content) m i

      next : Next content longest offset (ideal (suc i)) end
      next =
          adjusted_end-Next (suc i) offset (omega arith)
            (omega (arith, share, ap (λ (t : ℕ). t * longest) e))
            (omega (arith, share, ap (λ (t : ℕ). t * longest) e))

  pub All-IsWhole :
      (n : ℕ)
      → n ≡ m
      → m * longest < length content / (m + 3)
      → All (IsWhole content) (chunks_from (suc n) 0 0)
  unfolding divide_from
  All-IsWhole zero e room = (
    rw (adjusted_end-last pread (length content) (suc m) 0 0 (omega arith)) (
        chunk-IsWhole 0 (length content) (omega (arith, div-le_self (length content) (m + 3)))
          (omega arith) (inl refl)),
    tt,
  )
  All-IsWhole (suc r) e room = (
    chunk-IsWhole 0 end next.grows next.inside (inl refl),
    rest-IsWhole r 0 end room (omega arith)
        (omega (
          arith,
          next.near,
          share,
          shares-le (length content) m,
          ap (λ (t : ℕ). t * (length content / (m + 3))) e,
        ))
        next.line,
  )
    where
      end : ℕ
      end = adjusted_end pread (length content) (suc m) 0 0

      share : ideal 0 ≡ length content * 3 / (m + 3)
      share = ideal_chunk-zero pread (length content) m

      next : Next content longest 0 (ideal 0) end
      next =
          adjusted_end-Next 0 0 (omega arith)
            (omega (
              arith,
              share,
              shares-le (length content) m,
              ap (λ (t : ℕ). t * (length content / (m + 3))) e,
            ))
            (omega (arith, share, share-le-first (length content) m, ap (λ (t : ℕ). t * longest) e))
