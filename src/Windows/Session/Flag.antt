-- ===== src/Windows/Session/Flag.antt =====
-- The flag that lets files in, when a session on Windows ends.
use mathlib.Core.Option.{some-injective}
use distributed_system_manag.Base.{ℕ, ◌≡◌, sym, ap, Option, none, some, List, codes}
use distributed_system_manag.ThreadSafety.{SharedData, wait}
use distributed_system_manag.Node.{ServerOs, Node}
use distributed_system_manag.Windows.System.{WindowsOs}
use distributed_system_manag.Windows.Session.{await_train, after_train, session_on, finish_session}

module _ {W : Type 0} (os : ServerOs W) (windows : WindowsOs W) (sock : ℕ) where
  finish_session-flag :
      (file : ℕ) (n n' : Node W) (r : Option ℕ × W)
      → finish_session os windows sock file n r ≡ some n'
      → n'.open_receive_file_connection ≡ 0
  unfolding finish_session
  finish_session-flag file n n' (none, w) e = cc e
  finish_session-flag file n n' (some bits, w) e =
      ap (λ (m : Node W). m.open_receive_file_connection) (sym (some-injective _ _ e))

  session_on-flag :
      (rounds : ℕ) (processed : List ℕ) (n n' : Node W) (r : Option ℕ × W)
      → session_on os windows sock rounds processed n r ≡ some n'
      → n'.open_receive_file_connection
        ≡ (elim r.0 [ none ↦ n.open_receive_file_connection | some _ ↦ 0 ])
  unfolding session_on
  session_on-flag rounds processed n n' (none, w) e =
      ap (λ (m : Node W). m.open_receive_file_connection) (sym (some-injective _ _ e))
  session_on-flag rounds processed n n' (some file, w) e = finish_session-flag file n n' _ e

  -- When a session of the server's handler on Windows ends, the flag that lets files in is 0 where
  -- the training file has been opened; where it does not open, the flag is as before.
  pub await_train-flag :
      (rounds : ℕ) (processed : List ℕ) (n n' : Node W)
      → await_train os windows sock rounds processed n ≡ some n'
      → n'.open_receive_file_connection
        ≡ (elim (windows.create_file (codes "received_files\\train\\test.txt") n.world).0 [
          | none ↦ n.open_receive_file_connection
          | some _ ↦ 0
        ])
  unfolding await_train
  await_train-flag rounds processed n n' e = go (wait n.mesh_info_2) e
    where
      go :
          (signal : Option SharedData)
          → after_train os windows sock rounds processed n signal ≡ some n'
          → n'.open_receive_file_connection
            ≡ (elim (windows.create_file (codes "received_files\\train\\test.txt") n.world).0 [
              | none ↦ n.open_receive_file_connection
              | some _ ↦ 0
            ])
      go none e = cc e
      go (some mesh_info_2) e =
          session_on-flag rounds processed (record n { mesh_info_2 = mesh_info_2 }) n'
            (windows.create_file (codes "received_files\\train\\test.txt") n.world) e
