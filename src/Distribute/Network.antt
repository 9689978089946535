-- ===== src/Distribute/Network.antt =====
-- `send_file_thread` and `distributiveComputingOverNetwork` of
-- `Clients Commands/distributedcomputing/linuxdistributivecomputing.cpp`. What the code prints is
-- left out.
pub mod Closes
use distributed_system_manag.Base.{
  ℕ, Bool, true, false, Option, none, some, List, [], ◌∷◌, length, ◌==◌, if◌then◌else◌, codes,
  c_str, str_eq, ℤ, pos, negsuc,
}
use distributed_system_manag.Status.{status_message, open_sharefile_connection}
use distributed_system_manag.Node.{Prog, ◌>>=◌, ◌>>◌, guard}
use distributed_system_manag.ShareFile.Send.{ClientOs, send_file}
use distributed_system_manag.Distribute.Parse.{parse_int}
use distributed_system_manag.Distribute.Local.{Args}

pub record SendFileArgs : Type 0 where
  pub file_path : List ℕ
  pub ip : List ℕ
  pub tag : List ℕ
  pub iscmd_send_file : Bool
  pub offset : ℕ
  pub chunk_size : ℤ
  pub use_chunk : Bool

abbrev pub reducer_path : List ℕ
reducer_path = codes "/home/vitthal/dsm/experimental/main.cpp"

-- The files that a node is sent: the code, the reducer and its part of the training file.
unfoldable pub files_of : List ℕ → Args → List SendFileArgs
files_of ip args =
    record {
      file_path = args.code_path;
      ip = ip;
      tag = codes "code";
      iscmd_send_file = false;
      offset = 0;
      chunk_size = pos 0;
      use_chunk = false;
    }
    ∷ record {
      file_path = reducer_path;
      ip = ip;
      tag = codes "reducer";
      iscmd_send_file = false;
      offset = 0;
      chunk_size = pos 0;
      use_chunk = false;
    }
    ∷ record {
      file_path = args.train_file_path;
      ip = ip;
      tag = codes "train";
      iscmd_send_file = false;
      offset = args.train_offset;
      chunk_size = args.train_chunk_size;
      use_chunk = true;
    }
    ∷ []

-- -1 after an early return; `none` where `std::stoi` throws.
unfoldable pub network_result : Option (List ℕ) → Option ℤ
unfolding parse_int
network_result none = some (negsuc 0)
network_result (some res) = parse_int res

-- `os` is the connection that takes the command, `file_os` one of those that take the files.
-- `together` runs threads, started in this order, to their ends. `close` closes the descriptor of the
-- connection that takes the command.
module _ {W : Type 0} (os file_os : ClientOs W) (together : List (W → W) → W → W)
    (close : W → W) where
  -- A failure is printed only. Without a chunk, the defaults of `send_file` are used.
  unfoldable pub send_file_thread : SendFileArgs → W → W
  send_file_thread fargs w =
      if fargs.use_chunk
      then (send_file file_os fargs.file_path fargs.ip fargs.tag fargs.iscmd_send_file fargs.offset
          fargs.chunk_size w).1
      else (send_file file_os fargs.file_path fargs.ip fargs.tag fargs.iscmd_send_file 0 (negsuc 0)
          w).1

  -- `connect_socket`, whose failure is an early return.
  unfoldable pub connect_node : List ℕ → Prog W (Unit {0})
  connect_node ip w = guard (os.connect ip w).0 (os.connect ip w).1

  -- A `sendData` whose result is not looked at.
  unfoldable pub send_command : List ℕ → Prog W (Unit {0})
  send_command command w = (some tt, (os.send command w).1)

  -- At most 255 bytes as a C string; nothing is an early return, which closes the socket.
  unfoldable pub receive_text : Prog W (List ℕ)
  unfolding c_str
  receive_text w =
      let (bytes, w') = os.receive 255 w in
      if length bytes == 0 then (none, close w') else (some (c_str bytes), w')

  unfoldable pub send_files : List (W → W) → Prog W (Unit {0})
  send_files threads w = (some tt, together threads w)

  -- `t1`, `t2` and `t3`.
  unfoldable pub threads_of : List SendFileArgs → List (W → W)
  threads_of [] = []
  threads_of (fargs ∷ rest) = send_file_thread fargs ∷ threads_of rest

  -- Up to the text of the node's result.
  unfoldable pub ask_node : List ℕ → Args → Prog W (List ℕ)
  unfolding connect_node send_command receive_text send_files files_of threads_of
  ask_node ip args = do
    connect_node ip
    send_command (codes "distributiveComputing")
    reply ← receive_text
    guard (str_eq reply (status_message open_sharefile_connection))
    send_files (threads_of (files_of ip args))
    receive_text

  -- Every return, and the exception of `std::stoi`, comes to the socket's destructor, which closes it.
  unfoldable pub distributive_computing_over_network : List ℕ → Args → W → Option ℤ × W
  unfolding ask_node network_result
  distributive_computing_over_network ip args w =
      (network_result (ask_node ip args w).0, close (ask_node ip args w).1)
