-- ===== src/Windows/Session.antt =====
-- `handle_distributive_systems` of
-- `server commands/distributivecomputing/windowsdistributivecomputing.cpp`, in the parts between
-- which it waits for a signal. What it prints is left out.
pub mod Flag
use distributed_system_manag.Base.{
  ℕ, Bool, ◌≡◌, refl, sym, ap, ◌∙◌, Option, none, some, List, codes, ℤ, if◌then◌else◌, arith,
}
use distributed_system_manag.ThreadSafety.{SharedData, wait}
use distributed_system_manag.Status.{open_sharefile_connection}
use distributed_system_manag.Node.{ServerOs, Node, outside}
use distributed_system_manag.Distribute.Parse.Print.{to_string}
use distributed_system_manag.Distribute.Run.{to_int}
use distributed_system_manag.Server.Handlers.{send_status, delete_socket}
use distributed_system_manag.Server.Compute.{process}
use distributed_system_manag.Windows.System.{WindowsOs}
use distributed_system_manag.Windows.Child.{compile_code, distributive_computing}

module _ {W : Type 0} (os : ServerOs W) (windows : WindowsOs W) (sock : ℕ) where
  -- Up to the first `wait`.
  unfoldable pub open_session : Node W → Node W
  unfolding send_status
  open_session n =
      send_status os sock open_sharefile_connection (record n { open_receive_file_connection = 1 })

  -- By the first signal: `none` while the thread sleeps, and `false` where the process exits.
  unfoldable pub after_code :
      (compiled : Bool) → Node W → Option SharedData → Option (Bool × Node W)
  unfolding compile_code
  after_code compiled n none = none
  after_code compiled n (some mesh_info_1) =
      let (compiles, w) = compile_code windows compiled n.world in
      some (compiles, record n { world = w; mesh_info_1 = mesh_info_1 })

  unfoldable pub await_code : (compiled : Bool) → Node W → Option (Bool × Node W)
  unfolding after_code wait
  await_code compiled n = after_code compiled n (wait n.mesh_info_1)

  -- From the result on.
  unfoldable pub reply_result : (file bits : ℕ) → Node W → Node W
  unfolding to_string to_int delete_socket
  reply_result file bits n =
      let replied = outside (λ w. (os.send (to_string (to_int bits)) w).1) n in
      delete_socket os sock
        (outside (windows.close_handle file) (record replied { open_receive_file_connection = 0 }))

  -- By the loop's end; `none`: it goes on.
  unfoldable pub finish_session : (file : ℕ) → Node W → Option ℕ × W → Option (Node W)
  unfolding reply_result
  finish_session file n (none, w) = none
  finish_session file n (some bits, w) = some (reply_result file bits (record n { world = w }))

  -- By the file, which is opened. A file that does not open ends the handler at once.
  unfoldable pub session_on :
      (rounds : ℕ) (processed : List ℕ) → Node W → Option ℕ × W → Option (Node W)
  unfolding finish_session process distributive_computing
  session_on rounds processed n (none, w) = some (record n { world = w })
  session_on rounds processed n (some file, w) = finish_session file n (
      process (λ offset remaining. distributive_computing windows rounds offset remaining file)
        n.shared_file_size processed 0 0 w)

  -- By the second signal, with the values that `processedBytes` takes in the rounds of the loop.
  unfoldable pub after_train :
      (rounds : ℕ) (processed : List ℕ) → Node W → Option SharedData → Option (Node W)
  unfolding session_on
  after_train rounds processed n none = none
  after_train rounds processed n (some mesh_info_2) =
      session_on rounds processed (record n { mesh_info_2 = mesh_info_2 })
        (windows.create_file (codes "received_files\\train\\test.txt") n.world)

  unfoldable pub await_train : (rounds : ℕ) (processed : List ℕ) → Node W → Option (Node W)
  unfolding after_train wait
  await_train rounds processed n = after_train rounds processed n (wait n.mesh_info_2)
