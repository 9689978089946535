-- ===== src/Distribute/Local.antt =====
-- `distributiveComputingLocal` of
-- `Clients Commands/distributedcomputing/linuxdistributivecomputing.cpp`: the chunk goes through
-- a pipe to the compiled program, whose output is the result. What the code prints is left out.
pub mod Feed
use distributed_system_manag.Base.{
  ℕ, zero, suc, ◌+◌, ◌-◌, min, Bool, true, false, not, ◌&&◌, Option, none, some, List, [], ◌∷◌,
  ◌++◌, length, drop, ltb, leb, ◌==◌, if◌then◌else◌, codes, ℤ, pos, negsuc,
}
use distributed_system_manag.Node.{Prog, ◌>>=◌, ◌>>◌, guard, return}
use distributed_system_manag.Distribute.Parse.{parse_long_long}

pub record Pipe : Type 0 where
  pub read_end : ℕ
  pub write_end : ℕ

-- How a child ended: `waitpid` failed, `WIFEXITED` does not hold, or it gave an exit status.
pub data Ended : Type 0 where
  wait_failed killed : Ended
  exited : ℕ → Ended

-- The system's calls. `spawn arguments input output` is `fork` with the child's `exec` of a
-- program, its standard input and output connected to two pipes where they are given; `false`:
-- `fork` failed. Of the child, `dup2`, `access` and `exec` tell whether they succeed, and `exec`
-- returns only if it does not. `read` and `pread` give `[]`, and `write` 0, for a result of 0 or less.
pub record ComputeOs (W : Type 0) : Type 0 where
  pub pipe : W → Option Pipe × W
  pub spawn : List (List ℕ) → Option (Pipe × Pipe) → W → Bool × W
  pub dup2 : ℕ → ℕ → W → Bool × W
  pub access : List ℕ → W → Bool × W
  pub exec : List ℕ → W → Bool × W
  pub wait_child : W → Ended × W
  pub open_input : List ℕ → W → Option ℕ × W
  pub pread : ℕ → ℕ → ℕ → W → List ℕ × W
  pub write : ℕ → List ℕ → W → ℕ × W
  pub read : ℕ → ℕ → W → List ℕ × W
  pub close : ℕ → W → W

abbrev pub binary_path : List ℕ
binary_path = codes "/tmp/local_exec"

-- `BUF_SIZE`
abbrev pub buffer_size : ℕ
buffer_size = 65536

pub record Args : Type 0 where
  pub code_path : List ℕ
  pub train_file_path : List ℕ
  pub train_offset : ℕ
  pub train_chunk_size : ℤ

module _ {W : Type 0} (os : ComputeOs W) where
  -- The body of `call_once`: `false` where the process exits.
  unfoldable pub compile : List ℕ → W → Bool × W
  compile code_path w =
      let (spawned, w1) =
        os.spawn (codes "g++" ∷ code_path ∷ codes "-O2" ∷ codes "-o" ∷ binary_path ∷ []) none w in
      let (ended, w2) = os.wait_child w1 in
      if spawned
      then (elim ended [ wait_failed ↦ false | killed ↦ false | exited status ↦ status == 0 ], w2)
      else (false, w1)

  -- The loop over a buffer: `none` once a `write` fails. Each round writes a byte at least, so as
  -- many rounds as there are bytes are enough.
  unfoldable pub write_from : ℕ → ℕ → List ℕ → Prog W (Unit {0})
  write_from zero fd bytes w = (some tt, w)
  write_from (suc fuel) fd bytes w =
      let (written, w') = os.write fd bytes w in
      let rest = write_from fuel fd (drop written bytes) w' in
      if ltb 0 (length bytes) then (if written == 0 then (none, w') else rest) else (some tt, w)

  -- The loop over the chunk: it ends early where `pread` gives nothing. Each round reads a byte at
  -- least, so `remaining` rounds are enough.
  unfoldable pub feed_from : ℕ → ℕ → ℕ → ℕ → ℕ → Prog W (Unit {0})
  unfolding write_from
  feed_from zero file fd remaining offset w = (some tt, w)
  feed_from (suc fuel) file fd remaining offset w =
      let (bytes, w1) = os.pread file (min buffer_size remaining) offset w in
      let (written, w2) = write_from (length bytes) fd bytes w1 in
      let rest = feed_from fuel file fd (remaining - length bytes) (offset + length bytes) w2 in
      if ltb 0 remaining
      then (if length bytes == 0
          then (some tt, w1)
          else elim written [ none ↦ (none, w2) | some _ ↦ rest ])
      else (some tt, w)

  -- A size below 0 is no round.
  unfoldable pub feed : ℕ → ℕ → ℤ → ℕ → Prog W (Unit {0})
  unfolding feed_from
  feed file fd (pos remaining) offset w = feed_from remaining file fd remaining offset w
  feed file fd (negsuc n) offset w = (some tt, w)

  abbrev closing : ℕ → Prog W (Unit {0})
  closing fd w = (some tt, os.close fd w)

  -- A `write` that fails closes the descriptors.
  unfoldable pub or_close_all : List ℕ → Prog W (Unit {0}) → Prog W (Unit {0})
  or_close_all fds m w = elim (m w).0 [
    | none ↦ (none, close_all fds (m w).1)
    | some t ↦ (some t, (m w).1)
  ]
    where
      close_all : List ℕ → W → W
      close_all [] w = w
      close_all (fd ∷ fds) w = close_all fds (os.close fd w)

  unfoldable pub spawn_program : Pipe → Pipe → Prog W Bool
  spawn_program inpipe outpipe w = (
    some (os.spawn (binary_path ∷ []) (some (inpipe, outpipe)) w).0,
    (os.spawn (binary_path ∷ []) (some (inpipe, outpipe)) w).1,
  )

  -- What the forked child does: `none` for `_exit(1)`, and `some tt` once the program runs.
  unfoldable pub run_child : Pipe → Pipe → Prog W (Unit {0})
  run_child inpipe outpipe = do
    succeeding (os.dup2 inpipe.read_end 0)
    succeeding (os.dup2 outpipe.write_end 1)
    closing inpipe.read_end
    closing inpipe.write_end
    closing outpipe.read_end
    closing outpipe.write_end
    succeeding (os.access binary_path)
    succeeding (os.exec binary_path)
    where
      succeeding : (W → Bool × W) → Prog W (Unit {0})
      succeeding call w = guard (call w).0 (call w).1

  -- The two pipes and the child; `none`: the result is -1.
  unfoldable pub start_child : Prog W (Pipe × Pipe)
  unfolding spawn_program
  start_child = do
    inpipe ← os.pipe
    outpipe ← os.pipe
    spawned ← spawn_program inpipe outpipe
    guard spawned
    return (inpipe, outpipe)

  -- Up to the end of the child's input: the descriptor that its output is read from.
  unfoldable pub feed_child : Args → Pipe × Pipe → Prog W ℕ
  unfolding feed or_close_all
  feed_child args (inpipe, outpipe) = do
    closing inpipe.read_end
    closing outpipe.write_end
    file ← os.open_input args.train_file_path
    or_close_all (file ∷ inpipe.write_end ∷ outpipe.read_end ∷ [])
        (feed file inpipe.write_end args.train_chunk_size args.train_offset)
    closing file
    closing inpipe.write_end
    return outpipe.read_end

  unfoldable pub start_program : Args → Prog W ℕ
  unfolding start_child feed_child
  start_program args = do pipes ← start_child; feed_child args pipes

  -- The loop that reads the output, which lasts as long as the program writes: `none` after
  -- `rounds` rounds.
  unfoldable pub read_output : (rounds : ℕ) → ℕ → W → Option (List ℕ) × W
  read_output zero fd w = (none, w)
  read_output (suc rounds) fd w =
      let (bytes, w1) = os.read fd 256 w in
      let (rest, w2) = read_output rounds fd w1 in
      if length bytes == 0
      then (some [], w1)
      else (elim rest [ none ↦ none | some more ↦ some (bytes ++ more) ], w2)

  -- -1 where the program was killed or has not printed a number. Where `waitpid` fails, its
  -- status is what the memory held; this takes it for an exit.
  unfoldable pub result_of : Ended → List ℕ → ℤ
  unfolding parse_long_long
  result_of wait_failed output = elim (parse_long_long output) [ none ↦ negsuc 0 | some n ↦ n ]
  result_of killed output = negsuc 0
  result_of (exited _) output = elim (parse_long_long output) [ none ↦ negsuc 0 | some n ↦ n ]

  -- From the end of the program's input on.
  unfoldable pub collect_result : (rounds : ℕ) → ℕ → W → Option ℤ × W
  unfolding read_output result_of
  collect_result rounds fd w =
      let (output, w1) = read_output rounds fd w in
      let (ended, w2) = os.wait_child (os.close fd w1) in
      elim output [ none ↦ (none, w1) | some text ↦ (some (result_of ended text), w2) ]

  -- By the descriptor that the output is read from.
  unfoldable pub result_from : (rounds : ℕ) → Option ℕ × W → Option ℤ × W
  unfolding collect_result
  result_from rounds (none, w) = (some (negsuc 0), w)
  result_from rounds (some fd, w) = collect_result rounds fd w

  -- `distributiveComputingLocal`, by whether the code has been compiled before. `exits`: the
  -- process ends. The result is `none` where `rounds` do not reach the output's end.
  pub data Outcome : Type 0 where
    exits : W → Outcome
    returns : Option ℤ × W → Outcome

  unfoldable pub distributive_computing_local :
      (rounds : ℕ) → (compiled : Bool) → Args → W → Outcome
  unfolding compile start_program result_from
  distributive_computing_local rounds true args w =
      returns (result_from rounds (start_program args w))
  distributive_computing_local rounds false args w =
      let (compiles, w') = compile args.code_path w in
      if compiles then returns (result_from rounds (start_program args w')) else exits w'
