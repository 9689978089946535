-- ===== src/Server/Listener.antt =====
-- `server_listener_thread_tcp` with `server_dispatch_table`.
use distributed_system_manag.Base.{
  ℕ, Bool, Option, none, some, List, [], ◌∷◌, ◌==◌, if◌then◌else◌, length, codes, str_eq,
}
use distributed_system_manag.Node.{ServerOs}

-- The handlers of the table.
pub data ServerCommand : Type 0 where
  status connect share_file receive_file close_receive_file distributive_computing : ServerCommand

abbrev pub server_dispatch_table : List (List ℕ × ServerCommand)
server_dispatch_table =
    (codes "status", ServerCommand.status)
    ∷ (codes "connect", ServerCommand.connect)
    ∷ (codes "shareFile", ServerCommand.share_file)
    ∷ (codes "receiveFile", ServerCommand.receive_file)
    ∷ (codes "closeReceiveFile", ServerCommand.close_receive_file)
    ∷ (codes "distributiveComputing", ServerCommand.distributive_computing)
    ∷ []

-- `buffer[strcspn(buffer, "\r\n")] = 0`, as the C string that is left.
unfoldable pub command_text : List ℕ → List ℕ
command_text [] = []
command_text (c ∷ s) =
    if c == 0 then [] else (if c == 10 then [] else (if c == 13 then [] else c ∷ command_text s))

-- The loop over the table.
unfoldable pub find_command : List ℕ → List (List ℕ × ServerCommand) → Option ServerCommand
find_command text [] = none
find_command text ((name, handler) ∷ table) =
    if str_eq text name then some handler else find_command text table

-- What becomes of a connection: a handler's thread owns it, or it is deleted.
pub data Served : Type 0 where
  started : ServerCommand → Served
  thread_failed unknown_command nothing_read : Served

module _ {W : Type 0} (os : ServerOs W) where
  -- One round of the listener on an accepted connection with the descriptor `sock`: what it
  -- receives at most fills the buffer but one byte. `thread_starts` tells whether the creation of a
  -- thread succeeds. Where no thread owns the socket it is deleted, which closes it.
  unfoldable pub serve_connection : (thread_starts : Bool) → (sock : ℕ) → W → Served × W
  unfolding command_text
  serve_connection thread_starts sock w =
      let (bytes, w') = os.receive 255 w in
      if length bytes == 0
      then (nothing_read, os.close sock w')
      else elim (find_command (command_text bytes) server_dispatch_table) [
        | some handler ↦
            if thread_starts then (started handler, w') else (thread_failed, os.close sock w')
        | none ↦ (unknown_command, os.close sock (os.send (codes "Unknown Command\n") w').1)
      ]
