-- ===== src/Distribute/Align/Laws.antt =====
-- What `adjustToNextLine` returns, over a `pread` that reads the file.
use mathlib.Core.Option.{some-injective}
use distributed_system_manag.Base.{
  ℕ, zero, suc, ◌+◌, ◌-◌, ◌≤◌, ◌<◌, ◌≡◌, refl, none, some, List, [], ◌∷◌, arith, length, take, drop,
  length-drop, drop-drop, Option-cases, le→leb, lt→leb, inl, inr, ◌∙◌, ap, sym,
}
use distributed_system_manag.Distribute.Align.{
  find_newline, scan, adjust_to_next_line, scan_limit, read_size,
}

-- Documented behaviour of `pread` on a regular file: a read gives a prefix of what stands at the
-- position, and gives a byte at least before the end of the file.
pub record ReadsFile (pread : ℕ → ℕ → List ℕ) (content : List ℕ) : Type 0 where
  pub prefix : (n p : ℕ) → pread n p ≡ take (length (pread n p)) (drop p content)
  pub at_most : (n p : ℕ) → length (pread n p) ≤ n
  pub progress : (n p : ℕ) → 0 < n → p < length content → 0 < length (pread n p)

-- The fuel that `scan` starts with is enough: more of it gives the same result.
pub scan_fuel :
    (pread : ℕ → ℕ → List ℕ) (f g start p file_size : ℕ)
    → start ≤ p
    → scan_limit ≤ f + (p - start)
    → scan_limit ≤ g + (p - start)
    → scan pread f start p file_size ≡ scan pread g start p file_size
unfolding scan
scan_fuel pread zero zero start p file_size le hf hg = refl
scan_fuel pread zero (suc g) start p file_size le hf hg = ground arith
scan_fuel pread (suc f) zero start p file_size le hf hg = ground arith
scan_fuel pread (suc f) (suc g) start p file_size le hf hg =
    ground (arith, scan_fuel pread f g start (p + length (pread read_size p)) file_size)

pub find_newline-lt : (s : List ℕ) (d : ℕ) → find_newline s ≡ some d → d < length s
unfolding find_newline
find_newline-lt [] d e = cc
find_newline-lt (c ∷ s) zero e = omega arith
find_newline-lt (c ∷ s) (suc d) e = ground (arith, find_newline-lt s d)

-- A newline that a prefix of the text holds is the first of the text.
find_newline-take :
    (k : ℕ) (s : List ℕ) (d : ℕ) → find_newline (take k s) ≡ some d → find_newline s ≡ some d
unfolding find_newline
find_newline-take zero s d e = cc
find_newline-take (suc k) [] d e = e
find_newline-take (suc k) (c ∷ s) zero e = ground (arith, find_newline-take k s)
find_newline-take (suc k) (c ∷ s) (suc d) e = ground (arith, find_newline-take k s d)

-- Where a prefix holds none, the first newline stands behind it.
find_newline-drop :
    (k : ℕ) (s : List ℕ) (d : ℕ)
    → find_newline (take k s) ≡ none
    → find_newline s ≡ some d
    → (k ≤ d) × (find_newline (drop k s) ≡ some (d - k))
unfolding find_newline
find_newline-drop zero s d n e = (omega arith, ground (arith, e))
find_newline-drop (suc k) [] d n e = cc
find_newline-drop (suc k) (c ∷ s) zero n e = ground arith
find_newline-drop (suc k) (c ∷ s) (suc d) n e = ground (arith, find_newline-drop k s d)

-- The first newline, seen from a position before it.
pub find_newline-drop_eq :
    (k : ℕ) (s : List ℕ) (d : ℕ)
    → k ≤ d
    → find_newline s ≡ some d
    → find_newline (drop k s) ≡ some (d - k)
unfolding find_newline
find_newline-drop_eq zero s d le e = ground (arith, e)
find_newline-drop_eq (suc k) [] d le e = cc
find_newline-drop_eq (suc k) (c ∷ s) zero le e = absurd (omega arith)
find_newline-drop_eq (suc k) (c ∷ s) (suc d) le e = ground (arith, find_newline-drop_eq k s d)

find_newline-take-none :
    (k : ℕ) (s : List ℕ) → find_newline s ≡ none → find_newline (take k s) ≡ none
unfolding find_newline
find_newline-take-none zero s e = refl
find_newline-take-none (suc k) [] e = refl
find_newline-take-none (suc k) (c ∷ s) e = ground (arith, find_newline-take-none k s)

find_newline-drop-none :
    (k : ℕ) (s : List ℕ) → find_newline s ≡ none → find_newline (drop k s) ≡ none
unfolding find_newline
find_newline-drop-none zero s e = e
find_newline-drop-none (suc k) [] e = refl
find_newline-drop-none (suc k) (c ∷ s) e = ground (arith, find_newline-drop-none k s)

module _ {pread : ℕ → ℕ → List ℕ} {content : List ℕ} (reads : ReadsFile pread content) where
  scan_finds :
      (fuel start p d : ℕ)
      → start ≤ p
      → find_newline (drop p content) ≡ some d
      → p - start + d < scan_limit
      → scan_limit ≤ fuel + (p - start)
      → scan pread fuel start p (length content) ≡ p + d + 1
  unfolding scan
  scan_finds zero start p d le found near enough = absurd (omega arith)
  scan_finds (suc fuel) start p d le found near enough = elim (Option-cases (find_newline bytes)) [
    | inl none_read ↦ ground (
      arith,
      inside,
      read_some,
      none_read,
      later none_read,
      scan_finds fuel start (p + length bytes) (d - length bytes),
    )
    | inr (i, e) ↦ ground (arith, inside, read_some, e, same i e)
  ]
    where
      bytes : List ℕ
      bytes = pread read_size p

      inside : p < length content
      inside = omega (arith, find_newline-lt (drop p content) d found, length-drop {0} p content)

      read_some : 0 < length bytes
      read_some = reads.progress read_size p (omega arith) inside

      later :
          find_newline bytes ≡ none
          → (length bytes ≤ d)
            × (find_newline (drop (p + length bytes) content) ≡ some (d - length bytes))
      later e = rw (← drop-drop p (length bytes) content) (
          find_newline-drop (length bytes) (drop p content) d
            (ap find_newline (sym (reads.prefix read_size p)) ∙ e) found)

      same : (i : ℕ) → find_newline bytes ≡ some i → i ≡ d
      same i e = some-injective _ _ (
          sym (
            find_newline-take (length bytes) (drop p content) i
              (ap find_newline (sym (reads.prefix read_size p)) ∙ e))
          ∙ found)

  -- With the next newline less than 16384 bytes away, the position behind it.
  pub adjust-eq :
      (p d : ℕ)
      → find_newline (drop p content) ≡ some d
      → d < scan_limit
      → adjust_to_next_line pread p (length content) ≡ p + d + 1
  unfolding adjust_to_next_line
  adjust-eq p d found near = ground (
    arith,
    find_newline-lt (drop p content) d found,
    length-drop {0} p content,
    scan_finds scan_limit p p d,
  )

  -- Where no newline follows, the position itself.
  scan-none :
      (fuel start p : ℕ)
      → find_newline (drop p content) ≡ none
      → scan pread fuel start p (length content) ≡ start
  unfolding scan
  scan-none zero start p e = refl
  scan-none (suc fuel) start p e =
      ground (arith, no_newline, scan-none fuel start (p + length bytes) rest_none)
    where
      bytes : List ℕ
      bytes = pread read_size p

      no_newline : find_newline bytes ≡ none
      no_newline =
          ap find_newline (reads.prefix read_size p)
          ∙ find_newline-take-none (length bytes) (drop p content) e

      rest_none : find_newline (drop (p + length bytes) content) ≡ none
      rest_none =
          rw (← drop-drop p (length bytes) content)
            (find_newline-drop-none (length bytes) (drop p content) e)

  pub adjust-eq_none :
      (p : ℕ)
      → p < length content
      → find_newline (drop p content) ≡ none
      → adjust_to_next_line pread p (length content) ≡ p
  unfolding adjust_to_next_line
  adjust-eq_none p lt e = rw (lt→leb _ _ lt) (scan-none scan_limit p p e)

-- A position at or past the end gives the file's size.
pub adjust-past_end :
    (pread : ℕ → ℕ → List ℕ) (p file_size : ℕ)
    → file_size ≤ p
    → adjust_to_next_line pread p file_size ≡ file_size
unfolding adjust_to_next_line
adjust-past_end pread p file_size h = rw (le→leb _ _ h)
