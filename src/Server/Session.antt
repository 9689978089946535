-- ===== src/Server/Session.antt =====
-- `handle_distributive_systems` of
-- `server commands/distributivecomputing/linuxdistributivecomputing.cpp`, in the parts between which
-- it waits for a signal. What it prints is left out.
pub mod Signals
use distributed_system_manag.Base.{
  ℕ, ◌-◌, ◌^◌, Bool, true, false, Option, none, some, List, codes, ℤ,
}
use distributed_system_manag.ThreadSafety.{SharedData, wait}
use distributed_system_manag.Status.{open_sharefile_connection}
use distributed_system_manag.Node.{ServerOs, Node, outside}
use distributed_system_manag.Distribute.Local.{ComputeOs}
use distributed_system_manag.Distribute.Parse.Print.{to_string}
use distributed_system_manag.Distribute.Run.{to_int}
use distributed_system_manag.Server.Handlers.{send_status, delete_socket}
use distributed_system_manag.Server.Compute.{compile_code, distributive_computing, process}

-- `-1`, which a failed `open` leaves as the descriptor, as the bits of an `int`.
abbrev pub no_file : ℕ
no_file = 2 ^ 32 - 1

module _ {W : Type 0} (os : ServerOs W) (compute_os : ComputeOs W)
    (pread : ℕ → ℕ → ℕ → W → Option (List ℕ) × W) (sock : ℕ) where
  -- Up to the first `wait`.
  unfoldable pub open_session : Node W → Node W
  unfolding send_status
  open_session n =
      send_status os sock open_sharefile_connection (record n { open_receive_file_connection = 1 })

  -- By the first signal: `none` while the thread sleeps, and `false` where the process exits.
  unfoldable pub after_code :
      (compiled : Bool) → Node W → Option SharedData → Option (Bool × Node W)
  unfolding compile_code
  after_code compiled n none = none
  after_code compiled n (some mesh_info_1) =
      let (compiles, w) = compile_code compute_os pread compiled n.world in
      some (compiles, record n { world = w; mesh_info_1 = mesh_info_1 })

  unfoldable pub await_code : (compiled : Bool) → Node W → Option (Bool × Node W)
  unfolding after_code wait
  await_code compiled n = after_code compiled n (wait n.mesh_info_1)

  -- From the result on.
  unfoldable pub reply_result : (file bits : ℕ) → Node W → Node W
  unfolding to_string to_int delete_socket
  reply_result file bits n =
      let replied = outside (λ w. (os.send (to_string (to_int bits)) w).1) n in
      delete_socket os sock
        (outside (compute_os.close file) (record replied { open_receive_file_connection = 0 }))

  -- By the loop's end; `none`: it goes on.
  unfoldable pub finish_session : (file : ℕ) → Node W → Option ℕ × W → Option (Node W)
  unfolding reply_result
  finish_session file n (none, w) = none
  finish_session file n (some bits, w) = some (reply_result file bits (record n { world = w }))

  -- By the second signal, with the values that `processedBytes` takes in the rounds of the loop.
  unfoldable pub after_train :
      (rounds fuel : ℕ) (processed : List ℕ) → Node W → Option SharedData → Option (Node W)
  unfolding finish_session process distributive_computing
  after_train rounds fuel processed n none = none
  after_train rounds fuel processed n (some mesh_info_2) =
      let (opened, w) = compute_os.open_input (codes "received_files/train/test.txt") n.world in
      let file : ℕ = elim opened [ none ↦ no_file | some fd ↦ fd ] in
      finish_session file (record n { mesh_info_2 = mesh_info_2 })
        (process
          (λ offset remaining.
            distributive_computing compute_os pread rounds fuel offset remaining file)
          n.shared_file_size processed 0 0 w)

  unfoldable pub await_train : (rounds fuel : ℕ) (processed : List ℕ) → Node W → Option (Node W)
  unfolding after_train wait
  await_train rounds fuel processed n = after_train rounds fuel processed n (wait n.mesh_info_2)
