-- ===== src/Windows/System/Handles.antt =====
-- Programs over the Windows calls, by the handles that they are given and close.
use distributed_system_manag.Base.{
  ℕ, suc, ◌+◌, ◌≡◌, Option, none, some, List, [], ◌∷◌, length, arith,
}
use distributed_system_manag.Node.{Prog, ◌>>=◌, return}
use distributed_system_manag.Windows.System.{
  WindowsOs, Overlapped, close_handles, closing, or_close_handles,
}

-- `opened w` counts the handles that the calls have given so far, and `closed w` the calls of
-- `CloseHandle`.
pub record Counts {W : Type 0} (os : WindowsOs W) (opened closed : W → ℕ) : Type 0 where
  pub pipe_opened :
      (w : W)
      → opened (os.create_pipe w).1
        ≡ opened w + (elim (os.create_pipe w).0 [ none ↦ 0 | some _ ↦ 2 ])
  pub pipe_closed : (w : W) → closed (os.create_pipe w).1 ≡ closed w
  pub process_opened :
      (c : List ℕ) (hs : Option (ℕ × ℕ)) (w : W)
      → opened (os.create_process c hs w).1
        ≡ opened w + (elim (os.create_process c hs w).0 [ none ↦ 0 | some _ ↦ 2 ])
  pub process_closed :
      (c : List ℕ) (hs : Option (ℕ × ℕ)) (w : W) → closed (os.create_process c hs w).1 ≡ closed w
  pub close_opened : (h : ℕ) (w : W) → opened (os.close_handle h w) ≡ opened w
  pub close_closed : (h : ℕ) (w : W) → closed (os.close_handle h w) ≡ suc (closed w)
  pub inherit_same : (h : ℕ) (w : W) → opened (os.set_handle_information h w) ≡ opened w
  pub inherit_closed : (h : ℕ) (w : W) → closed (os.set_handle_information h w) ≡ closed w
  pub wait_opened : (h : ℕ) (w : W) → opened (os.wait_for_single_object h w) ≡ opened w
  pub wait_closed : (h : ℕ) (w : W) → closed (os.wait_for_single_object h w) ≡ closed w
  pub exit_opened : (h : ℕ) (w : W) → opened (os.get_exit_code_process h w).1 ≡ opened w
  pub exit_closed : (h : ℕ) (w : W) → closed (os.get_exit_code_process h w).1 ≡ closed w
  pub read_opened :
      (h n : ℕ) (o : Option Overlapped) (w : W) → opened (os.read_file h n o w).1 ≡ opened w
  pub read_closed :
      (h n : ℕ) (o : Option Overlapped) (w : W) → closed (os.read_file h n o w).1 ≡ closed w
  pub write_opened : (h : ℕ) (bs : List ℕ) (w : W) → opened (os.write_file h bs w).1 ≡ opened w
  pub write_closed : (h : ℕ) (bs : List ℕ) (w : W) → closed (os.write_file h bs w).1 ≡ closed w

module _ {W : Type 0} (os : WindowsOs W) (opened closed : W → ℕ) (counts : Counts os opened closed)
    (start : W) where
  -- Since `start`, `k` handles more have been given than closed.
  unfoldable pub Holds : ℕ → W → Type 0
  Holds k w = opened w + closed start ≡ opened start + closed w + k

  pub close-Holds : (k h : ℕ) (w : W) → Holds (suc k) w → Holds k (os.close_handle h w)
  unfolding Holds
  close-Holds k h w held = omega (arith, held, counts.close_opened h w, counts.close_closed h w)

  pub read-Holds :
      (k h n : ℕ) (o : Option Overlapped) (w : W) → Holds k w → Holds k (os.read_file h n o w).1
  unfolding Holds
  read-Holds k h n o w held =
      omega (arith, held, counts.read_opened h n o w, counts.read_closed h n o w)

  pub write-Holds : (k h : ℕ) (bs : List ℕ) (w : W) → Holds k w → Holds k (os.write_file h bs w).1
  unfolding Holds
  write-Holds k h bs w held =
      omega (arith, held, counts.write_opened h bs w, counts.write_closed h bs w)

  -- After a program: `j` handles are held where it goes on, and `i` where it returns early.
  unfoldable pub After : {A : Type 0} → (i j : ℕ) → Option A × W → Type 0
  After i j (none, w) = Holds i w
  After i j (some a, w) = Holds j w

  -- A program that starts with `k` handles held.
  unfoldable pub Keeps : {A : Type 0} → (k i j : ℕ) → Prog W A → Type 0
  Keeps k i j m = (w : W) → Holds k w → After i j (m w)

  pub then-Keeps :
      {A B : Type 0} (k i j l : ℕ) (m : Prog W A) (f : A → Prog W B)
      → Keeps k i j m
      → ((a : A) → Keeps j i l (f a))
      → Keeps k i l (m >>= f)
  unfolding Keeps After
  then-Keeps {A} {B} k i j l m f first next w held = go (m w) (first w held)
    where
      go :
          (r : Option A × W)
          → After {A = A} i j r
          → After {A = B} i l (elim r.0 [ none ↦ (none, r.1) | some a ↦ f a r.1 ])
      go (none, w') h = h
      go (some a, w') h = next a w' h

  pub close_handles-Holds :
      (hs : List ℕ) (k : ℕ) (w : W) → Holds (length hs + k) w → Holds k (close_handles os hs w)
  unfolding close_handles Holds
  close_handles-Holds [] k w held = omega (arith, held)
  close_handles-Holds (h ∷ hs) k w held =
      close_handles-Holds hs k (os.close_handle h w)
        (omega (arith, held, counts.close_opened h w, counts.close_closed h w))

  pub closing-Keeps : (hs : List ℕ) (k i : ℕ) → Keeps (length hs + k) i k (closing os hs)
  unfolding Keeps After
  closing-Keeps hs k i w held = close_handles-Holds hs k w held

  pub return-Keeps : {A : Type 0} (a : A) (k i : ℕ) → Keeps k i k (return a)
  unfolding Keeps After
  return-Keeps a k i w held = held

  pub or_close_handles-Keeps :
      {A : Type 0} (hs : List ℕ) (k i j : ℕ) (m : Prog W A)
      → Keeps k (length hs + i) j m
      → Keeps k i j (or_close_handles os hs m)
  unfolding Keeps After
  or_close_handles-Keeps {A} hs k i j m keeps w held = go (m w) (keeps w held)
    where
      go :
          (r : Option A × W)
          → After {A = A} (length hs + i) j r
          → After {A = A} i j
              (elim r.0 [ none ↦ (none, close_handles os hs r.1) | some a ↦ (some a, r.1) ])
      go (none, w') h = close_handles-Holds hs i w' h
      go (some a, w') h = h
