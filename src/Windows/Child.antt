-- ===== src/Windows/Child.antt =====
-- The program that computes, as a child process on Windows: `distributiveComputing` and
-- `compileCode` of the server, `compileBinary`, `createChildProcess` and
-- `distributiveComputingLocal` of the client. What the code prints is left out.
pub mod Handles
use distributed_system_manag.Base.{
  ℕ, zero, suc, Bool, true, false, Option, none, some, List, [], ◌∷◌, ◌++◌, length, ◌==◌,
  if◌then◌else◌, codes, ℤ, pos, negsuc,
}
use distributed_system_manag.Node.{Prog, ◌>>=◌, ◌>>◌, return}
use distributed_system_manag.Distribute.Local.{Args, Pipe}
use distributed_system_manag.Distribute.Parse.{parse_long_long}
use distributed_system_manag.Windows.System.{WindowsOs, Process, closing, or_close_handles}
use distributed_system_manag.Windows.Feed.{feed_chunk, feed_part}

abbrev pub binary_path : List ℕ
binary_path = codes "C:\\Temp\\local_exec.exe"

-- A child that runs, with the ends of the pipes that its parent keeps.
pub record Child : Type 0 where
  pub process : Process
  pub input : ℕ
  pub output : ℕ

module _ {W : Type 0} (os : WindowsOs W) where
  -- Whether `g++` has run and ended with 0: `compileBinary`, and the body of `compileCode`.
  unfoldable pub compile_binary : List ℕ → W → Bool × W
  compile_binary command w =
      let (started, w1) = os.create_process command none w in
      elim started [
        | none ↦ (false, w1)
        | some p ↦
            let (exit_code, w2) =
              os.get_exit_code_process p.h_process (os.wait_for_single_object p.h_process w1) in
            (exit_code == 0, os.close_handle p.h_thread (os.close_handle p.h_process w2))
      ]

  unfoldable pub compile_command : List ℕ → List ℕ
  compile_command code_path = codes "g++ " ++ code_path ++ codes " -O2 -o " ++ binary_path

  -- `false` where the process exits.
  unfoldable pub compile_code : (compiled : Bool) → W → Bool × W
  unfolding compile_binary compile_command
  compile_code true w = (true, w)
  compile_code false w = compile_binary (compile_command (codes "received_files\\code\\main.cpp")) w

  abbrev pub keep_handle : ℕ → Prog W (Unit {0})
  keep_handle h w = (some tt, os.set_handle_information h w)

  unfoldable pub create_child_process : List ℕ → (stdin_read stdout_write : ℕ) → Prog W Process
  create_child_process path stdin_read stdout_write =
      os.create_process path (some (stdin_read, stdout_write))

  -- The server's pipes and child. A second pipe that fails leaves the first open.
  unfoldable pub start_server_child : Prog W Child
  unfolding create_child_process
  start_server_child = do
    stdout ← os.create_pipe
    stdin ← os.create_pipe
    keep_handle stdout.read_end
    keep_handle stdin.write_end
    process ←
        or_close_handles os
          (stdout.read_end ∷ stdout.write_end ∷ stdin.read_end ∷ stdin.write_end ∷ [])
          (create_child_process binary_path stdin.read_end stdout.write_end)
    closing os (stdout.write_end ∷ stdin.read_end ∷ [])
    return (record { process = process; input = stdin.write_end; output = stdout.read_end })

  -- The client's. A child that does not start leaves both pipes open.
  unfoldable pub start_client_child : Prog W Child
  unfolding create_child_process
  start_client_child = do
    stdin ← os.create_pipe
    stdout ← or_close_handles os (stdin.read_end ∷ stdin.write_end ∷ []) os.create_pipe
    keep_handle stdin.write_end
    keep_handle stdout.read_end
    process ← create_child_process binary_path stdin.read_end stdout.write_end
    closing os (stdin.read_end ∷ stdout.write_end ∷ [])
    return (record { process = process; input = stdin.write_end; output = stdout.read_end })

  -- The loop that reads the output, which lasts as long as the program writes: `none` after
  -- `rounds` rounds.
  unfoldable pub read_output : (rounds : ℕ) → ℕ → W → Option (List ℕ) × W
  read_output zero h w = (none, w)
  read_output (suc rounds) h w =
      let (read, w1) = os.read_file h 256 none w in
      let bytes : List ℕ = elim read [ none ↦ [] | some bytes ↦ bytes ] in
      let (rest, w2) = read_output rounds h w1 in
      if length bytes == 0
      then (some [], w1)
      else (elim rest [ none ↦ none | some more ↦ some (bytes ++ more) ], w2)

  -- -1 where the program has ended with another code than 0, or has not printed a number.
  unfoldable pub result_of : (exit_code : ℕ) → List ℕ → ℤ
  unfolding parse_long_long
  result_of exit_code output =
      if exit_code == 0
      then (elim (parse_long_long output) [ none ↦ negsuc 0 | some n ↦ n ])
      else negsuc 0

  -- From the end of the child's output on.
  unfoldable pub end_child : Child → Option (List ℕ) × W → Option ℤ × W
  unfolding result_of
  end_child child (none, w) = (none, w)
  end_child child (some output, w) =
      let p = child.process in
      let (exit_code, w1) =
        os.get_exit_code_process p.h_process
          (os.wait_for_single_object p.h_process (os.close_handle child.output w)) in
      (
        some (result_of exit_code output),
        os.close_handle p.h_thread (os.close_handle p.h_process w1),
      )

  -- By the child once its input has ended; a failure before that has the result -1.
  unfoldable pub collect : (rounds : ℕ) → Option Child × W → Option ℤ × W
  unfolding read_output end_child
  collect rounds (none, w) = (some (negsuc 0), w)
  collect rounds (some child, w) = end_child child (read_output rounds child.output w)

  -- The server's child, given its part of the file.
  unfoldable pub feed_server_child : (offset : ℕ) → (remaining : ℤ) → (file : ℕ) → Prog W Child
  unfolding start_server_child feed_part
  feed_server_child offset remaining file = do
    child ← start_server_child
    or_close_handles os (child.input ∷ child.output ∷ [])
        (feed_part os file child.input remaining offset)
    closing os (child.input ∷ [])
    return child

  -- `none`: it goes on after `rounds` rounds of the loop over the output.
  unfoldable pub distributive_computing :
      (rounds offset : ℕ) → (remaining : ℤ) → (file : ℕ) → W → Option ℤ × W
  unfolding feed_server_child collect
  distributive_computing rounds offset remaining file w =
      collect rounds (feed_server_child offset remaining file w)

  -- The client's child, given its chunk. A failure closes nothing.
  unfoldable pub feed_client_child : Args → Prog W Child
  unfolding start_client_child feed_chunk
  feed_client_child args = do
    child ← start_client_child
    file ← os.create_file args.train_file_path
    feed_chunk os file child.input args.train_chunk_size args.train_offset
    closing os (file ∷ child.input ∷ [])
    return child

  -- `distributiveComputingLocal`, by whether the code has been compiled before. `exits`: the
  -- process ends.
  pub data Outcome : Type 0 where
    exits : W → Outcome
    returns : Option ℤ × W → Outcome

  unfoldable pub distributive_computing_local :
      (rounds : ℕ) → (compiled : Bool) → Args → W → Outcome
  unfolding compile_binary compile_command feed_client_child collect
  distributive_computing_local rounds true args w =
      returns (collect rounds (feed_client_child args w))
  distributive_computing_local rounds false args w =
      let (compiles, w') = compile_binary (compile_command args.code_path) w in
      if compiles then returns (collect rounds (feed_client_child args w')) else exits w'
