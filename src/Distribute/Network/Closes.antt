-- ===== src/Distribute/Network/Closes.antt =====
-- The descriptor of the connection over which a node is asked.
use distributed_system_manag.Base.{ℕ, ◌+◌, ◌≡◌, ◌⊎◌, none, List, All, str_eq, codes}
use distributed_system_manag.Status.{status_message, open_sharefile_connection}
use distributed_system_manag.Node.{Prog, ◌>>=◌, ◌>>◌, guard}
use distributed_system_manag.ShareFile.Send.{ClientOs}
use distributed_system_manag.Distribute.Local.{Args}
use distributed_system_manag.Distribute.Network.{
  SendFileArgs, send_file_thread, send_command, receive_text, send_files, threads_of, files_of,
}

module _ {W : Type 0} (os file_os : ClientOs W) (together : List (W → W) → W → W)
    (close : W → W) where
  -- `count w` is how often the descriptor has been closed. No call but `close` closes it, nor do the
  -- threads that send the files, which have connections of their own.
  pub record Counts (count : W → ℕ) : Type 0 where
    pub close_one : (w : W) → count (close w) ≡ count w + 1
    pub connect_same : (ip : List ℕ) (w : W) → count (os.connect ip w).1 ≡ count w
    pub send_same : (bytes : List ℕ) (w : W) → count (os.send bytes w).1 ≡ count w
    pub receive_same : (n : ℕ) (w : W) → count (os.receive n w).1 ≡ count w
    pub thread_same :
        (fargs : SendFileArgs) (w : W)
        → count (send_file_thread os file_os together close fargs w) ≡ count w
    pub together_same :
        (threads : List (W → W)) (w : W)
        → All (λ (t : W → W). (w' : W) → count (t w') ≡ count w') threads
        → count (together threads w) ≡ count w

  module _ (count : W → ℕ) (counts : Counts count) where
    -- The descriptor is closed at most once, and only where the program returns early.
    abbrev IsOpen : {A : Type 0} → Prog W A → Type 0
    IsOpen m =
        (w : W) → (count (m w).1 ≡ count w) ⊎ ((count (m w).1 ≡ count w + 1) × ((m w).0 ≡ none))

    -- What follows the node's first text, by steps.
    abbrev send_all : List ℕ → Args → Prog W (List ℕ)
    send_all ip args =
        send_files os file_os together close
          (threads_of os file_os together close (files_of ip args))
        >> receive_text os file_os together close

    abbrev on_reply : List ℕ → Args → List ℕ → Prog W (List ℕ)
    on_reply ip args reply =
        guard (str_eq reply (status_message open_sharefile_connection)) >> send_all ip args

    abbrev command_node : List ℕ → Args → Prog W (List ℕ)
    command_node ip args =
        send_command os file_os together close (codes "distributiveComputing")
        >> (receive_text os file_os together close >>= on_reply ip args)
