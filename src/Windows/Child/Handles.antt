-- ===== src/Windows/Child/Handles.antt =====
-- The handles that the server's `distributiveComputing` leaves open.
use distributed_system_manag.Base.{
  ℕ, zero, suc, ◌+◌, ◌-◌, min, ◌≡◌, ◌≢◌, refl, Option, none, some, List, [], ◌∷◌, length, arith, ℤ,
  pos, negsuc,
}
use distributed_system_manag.Distribute.Local.{Pipe, buffer_size}
use distributed_system_manag.Windows.System.{WindowsOs, Process, pread_windows}
use distributed_system_manag.Windows.System.Handles.{
  Counts, Holds, After, Keeps, read-Holds, write-Holds, then-Keeps, closing-Keeps, return-Keeps,
  or_close_handles-Keeps,
}
use distributed_system_manag.Windows.Feed.{write_once, bytes_read, feed_from, feed, feed_part}
use distributed_system_manag.Windows.Child.{
  Child, keep_handle, binary_path, start_server_child, create_child_process, read_output, end_child,
  collect, feed_server_child, distributive_computing,
}

module _ {W : Type 0} (os : WindowsOs W) (opened closed : W → ℕ) (counts : Counts os opened closed)
    (start : W) where
  read_output-Holds :
      (k rounds h : ℕ) (w : W)
      → Holds os opened closed counts start k w
      → Holds os opened closed counts start k (read_output os rounds h w).1
  unfolding read_output
  read_output-Holds k zero h w held = held
  read_output-Holds k (suc rounds) h w held =
      let held1 = read-Holds os opened closed counts start k h 256 none w held in
      let rest = read_output-Holds k rounds h (os.read_file h 256 none w).1 held1 in
      ground (arith, held1, rest)

  keep_handle-Keeps : (h k i : ℕ) → Keeps os opened closed counts start k i k (keep_handle os h)
  unfolding Keeps After Holds
  keep_handle-Keeps h k i w held =
      omega (arith, held, counts.inherit_same h w, counts.inherit_closed h w)

  create_process-Keeps :
      (path : List ℕ) (i o k : ℕ)
      → Keeps os opened closed counts start k k (k + 2) (create_child_process os path i o)
  unfolding Keeps After Holds create_child_process
  create_process-Keeps path i o k w held =
      go (os.create_process path (some (i, o)) w) (counts.process_opened path (some (i, o)) w)
        (counts.process_closed path (some (i, o)) w)
    where
      go :
          (r : Option Process × W)
          → opened r.1 ≡ opened w + (elim r.0 [ none ↦ 0 | some _ ↦ 2 ])
          → closed r.1 ≡ closed w
          → After os opened closed counts start k (k + 2) r
      go (none, w') o c = omega (arith, held)
      go (some p, w') o c = omega (arith, held)

  module _ (pipes : (w : W) → (os.create_pipe w).0 ≢ none)
      (writes : (h : ℕ) (bytes : List ℕ) (w : W) → (os.write_file h bytes w).0 ≢ none) where
    create_pipe-Keeps : (k i : ℕ) → Keeps os opened closed counts start k i (k + 2) os.create_pipe
    unfolding Keeps After Holds
    create_pipe-Keeps k i w held =
        go (os.create_pipe w) (pipes w) (counts.pipe_opened w) (counts.pipe_closed w)
      where
        go :
            (r : Option Pipe × W)
            → r.0 ≢ none
            → opened r.1 ≡ opened w + (elim r.0 [ none ↦ 0 | some _ ↦ 2 ])
            → closed r.1 ≡ closed w
            → After os opened closed counts start i (k + 2) r
        go (none, w') n o c = absurd (n refl)
        go (some p, w') n o c = omega (arith, held)

    start_server_child-Keeps : Keeps os opened closed counts start 0 0 4 (start_server_child os)
    unfolding start_server_child
    start_server_child-Keeps =
        then-Keeps os opened closed counts start 0 0 2 4 _ _ (create_pipe-Keeps 0 0) (λ stdout.
          then-Keeps os opened closed counts start 2 0 4 4 _ _ (create_pipe-Keeps 2 0) (λ stdin.
            then-Keeps os opened closed counts start 4 0 4 4 _ _
              (keep_handle-Keeps stdout.read_end 4 0)
              (λ _.
                then-Keeps os opened closed counts start 4 0 4 4 _ _
                  (keep_handle-Keeps stdin.write_end 4 0)
                  (λ _.
                    then-Keeps os opened closed counts start 4 0 6 4 _ _
                      (or_close_handles-Keeps os opened closed counts start
                        (stdout.read_end ∷ stdout.write_end ∷ stdin.read_end ∷ stdin.write_end ∷ [])
                        4 0 6 _
                        (create_process-Keeps binary_path stdin.read_end stdout.write_end 4))
                      (λ process.
                        then-Keeps os opened closed counts start 6 0 4 4 _ _
                          (closing-Keeps os opened closed counts start
                            (stdout.write_end ∷ stdin.read_end ∷ []) 4 0)
                          (λ _.
                            return-Keeps os opened closed counts start
                              (record {
                                process = process;
                                input = stdin.write_end;
                                output = stdout.read_end;
                              })
                              4 0))))))

    feed_from-Keeps :
        (k i file h fuel remaining offset : ℕ)
        → Keeps os opened closed counts start k i k
            (feed_from os (write_once os) file h fuel remaining offset)
    unfolding feed_from write_once pread_windows Keeps After
    feed_from-Keeps k i file h zero remaining offset w held = held
    feed_from-Keeps k i file h (suc fuel) remaining offset w held =
        let read = pread_windows os file (min buffer_size remaining) offset w in
        let bytes = bytes_read read.0 in
        let held1 = read-Holds os opened closed counts start k file _ _ w held in
        let held2 = write-Holds os opened closed counts start k h bytes read.1 held1 in
        let succeeds = writes h bytes read.1 in
        let rest =
          feed_from-Keeps k i file h fuel (remaining - length bytes) (offset + length bytes)
            (write_once os h bytes read.1).1 held2 in
        ground (arith, held, held1, held2, succeeds, rest)

    feed_part-Keeps :
        (k i file h : ℕ) (remaining : ℤ) (offset : ℕ)
        → Keeps os opened closed counts start k i k (feed_part os file h remaining offset)
    unfolding feed_part feed Keeps
    feed_part-Keeps k i file h (pos n) offset w held = feed_from-Keeps k i file h n n offset w held
    feed_part-Keeps k i file h (negsuc n) offset w held =
        return-Keeps os opened closed counts start tt k i w held

    feed_server_child-Keeps :
        (offset : ℕ) (remaining : ℤ) (file : ℕ)
        → Keeps os opened closed counts start 0 0 3 (feed_server_child os offset remaining file)
    unfolding feed_server_child
    feed_server_child-Keeps offset remaining file =
        then-Keeps os opened closed counts start 0 0 4 3 _ _ start_server_child-Keeps (λ child.
          then-Keeps os opened closed counts start 4 0 4 3 _ _
            (or_close_handles-Keeps os opened closed counts start (child.input ∷ child.output ∷ [])
              4 0 4 _ (feed_part-Keeps 4 2 file child.input remaining offset))
            (λ _.
              then-Keeps os opened closed counts start 4 0 3 3 _ _
                (closing-Keeps os opened closed counts start (child.input ∷ []) 3 0)
                (λ _. return-Keeps os opened closed counts start child 3 0)))

  end_child-Holds :
      (child : Child) (r : Option (List ℕ) × W) (value : ℤ)
      → Holds os opened closed counts start 3 r.1
      → (end_child os child r).0 ≡ some value
      → Holds os opened closed counts start 0 (end_child os child r).1
  unfolding end_child Holds
  end_child-Holds child (none, w) value held e = cc e
  end_child-Holds child (some output, w) value held e =
      let p = child.process in
      let w1 = os.close_handle child.output w in
      let w2 = os.wait_for_single_object p.h_process w1 in
      let w3 = (os.get_exit_code_process p.h_process w2).1 in
      let w4 = os.close_handle p.h_process w3 in
      omega (
        arith,
        held,
        counts.close_opened child.output w,
        counts.close_closed child.output w,
        counts.wait_opened p.h_process w1,
        counts.wait_closed p.h_process w1,
        counts.exit_opened p.h_process w2,
        counts.exit_closed p.h_process w2,
        counts.close_opened p.h_process w3,
        counts.close_closed p.h_process w3,
        counts.close_opened p.h_thread w4,
        counts.close_closed p.h_thread w4,
      )

  collect-Holds :
      (rounds : ℕ) (r : Option Child × W) (value : ℤ)
      → After os opened closed counts start 0 3 r
      → (collect os rounds r).0 ≡ some value
      → Holds os opened closed counts start 0 (collect os rounds r).1
  unfolding collect After
  collect-Holds rounds (none, w) value held e = held
  collect-Holds rounds (some child, w) value held e =
      end_child-Holds child (read_output os rounds child.output w) value
        (read_output-Holds 3 rounds child.output w held) e

-- Where no `CreatePipe` and no `WriteFile` fails, the server's `distributiveComputing` on Windows
-- has closed as many handles as it was given once it returns: also where the child does not start,
-- where a read fails, and where the child fails or prints no number.
pub distributive_computing-Counts :
    {W : Type 0} (os : WindowsOs W) (opened closed : W → ℕ)
    → Counts os opened closed
    → ((w : W) → (os.create_pipe w).0 ≢ none)
    → ((h : ℕ) (bytes : List ℕ) (w : W) → (os.write_file h bytes w).0 ≢ none)
    → (rounds offset : ℕ) (remaining : ℤ) (file : ℕ) (w : W) (value : ℤ)
    → (distributive_computing os rounds offset remaining file w).0 ≡ some value
    → opened (distributive_computing os rounds offset remaining file w).1 + closed w
      ≡ opened w + closed (distributive_computing os rounds offset remaining file w).1
unfolding distributive_computing Keeps Holds
distributive_computing-Counts os opened closed counts pipes writes rounds offset remaining file w
      value e =
    let fed =
      feed_server_child-Keeps os opened closed counts w pipes writes offset remaining file w
        (omega arith) in
    let held =
      collect-Holds os opened closed counts w rounds (feed_server_child os offset remaining file w)
        value fed e in
    omega (arith, held)
