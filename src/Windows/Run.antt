-- ===== src/Windows/Run.antt =====
-- `distributiveComputing` and `handle_distributive_systems` of
-- `Clients Commands/distributedcomputing/windowsdistributivecomputing.cpp`: a node's part over the
-- network, and who computes what. What the code prints is left out.
pub mod Linux
pub mod Session
use distributed_system_manag.Base.{
  ℕ, Bool, true, false, Option, none, some, List, [], ◌∷◌, length, ltb, if◌then◌else◌, codes,
  str_eq, ℤ, pos, negsuc,
}
use distributed_system_manag.Status.{status_message, open_sharefile_connection}
use distributed_system_manag.Node.{Prog, ◌>>=◌, ◌>>◌, guard}
use distributed_system_manag.ShareFile.Send.{ClientOs}
use distributed_system_manag.Discovery.{Found, entries}
use distributed_system_manag.Distribute.Parse.{parse_long_long}
use distributed_system_manag.Distribute.Local.{Args}
use distributed_system_manag.Distribute.Network.{
  SendFileArgs, send_file_thread, connect_node, send_command, receive_text, send_files,
}
use distributed_system_manag.Distribute.Chunks.{Chunk}
use distributed_system_manag.Distribute.Run.{Job, start_jobs}
use distributed_system_manag.Windows.System.{WindowsOs}
use distributed_system_manag.Windows.Divide.{divide_file_into_chunks}

-- `reducerPath`
abbrev pub reducer_path : List ℕ
reducer_path = codes "C:\\dsm\\experimental\\main.cpp"

-- A file that is sent whole. Its offset and size are not used.
unfoldable pub whole_file : (path ip tag : List ℕ) → SendFileArgs
whole_file path ip tag = record {
  file_path = path;
  ip = ip;
  tag = tag;
  iscmd_send_file = false;
  offset = 0;
  chunk_size = pos 0;
  use_chunk = false;
}

-- `code_args`, `reducer_args` and `train_args`.
unfoldable pub files_of : List ℕ → Args → List SendFileArgs
unfolding whole_file
files_of ip args =
    whole_file args.code_path ip (codes "code")
    ∷ whole_file reducer_path ip (codes "reducer")
    ∷ record {
      file_path = args.train_file_path;
      ip = ip;
      tag = codes "train";
      iscmd_send_file = false;
      offset = args.train_offset;
      chunk_size = args.train_chunk_size;
      use_chunk = true;
    }
    ∷ []

-- -1 after an early return; `none` where `std::stoll` throws.
unfoldable pub network_result : Option (List ℕ) → Option ℤ
unfolding parse_long_long
network_result none = some (negsuc 0)
network_result (some res) = parse_long_long res

-- `os`, `file_os`, `together` and `close` are as for the Linux client.
module _ {W : Type 0} (os file_os : ClientOs W) (together : List (W → W) → W → W)
    (close : W → W) where
  unfoldable pub threads_of : List SendFileArgs → List (W → W)
  unfolding send_file_thread
  threads_of [] = []
  threads_of (fargs ∷ rest) = send_file_thread os file_os together close fargs ∷ threads_of rest

  -- Up to the text of the node's result.
  unfoldable pub ask_node : List ℕ → Args → Prog W (List ℕ)
  unfolding connect_node send_command receive_text send_files files_of threads_of
  ask_node ip args = do
    connect_node os file_os together close ip
    send_command os file_os together close (codes "distributiveComputing")
    reply ← receive_text os file_os together close
    guard (str_eq reply (status_message open_sharefile_connection))
    send_files os file_os together close (threads_of (files_of ip args))
    receive_text os file_os together close

  -- Every return, and the exception of `std::stoll`, comes to the socket's destructor.
  unfoldable pub distributive_computing : List ℕ → Args → W → Option ℤ × W
  unfolding ask_node network_result
  distributive_computing ip args w =
      (network_result (ask_node ip args w).0, close (ask_node ip args w).1)

-- The length of `futures`.
abbrev pub max_futures : ℕ
max_futures = 64

-- By the division of the file among the servers. `none`: it has returned early, or the loop leaves
-- the array of futures.
unfoldable pub start_nodes :
    (code_path train_file_path : List ℕ) → List (List ℕ) → Option (List Chunk) → Option (List Job)
unfolding start_jobs
start_nodes code train ips none = none
start_nodes code train ips (some chunks) =
    if ltb max_futures (length ips) then none else some (start_jobs code train 0 ips chunks)

-- From the list of servers to the jobs. `none`, besides: the loop over the list leaves its array.
unfoldable pub plan_jobs :
    {W : Type 0}
    → WindowsOs W
    → (code_path train_file_path : List ℕ) → Found
    → W
    → Option (List Job) × W
unfolding entries divide_file_into_chunks start_nodes
plan_jobs os code train f w = elim (entries f.ip_list) [
  | none ↦ (none, w)
  | some ips ↦
      let (chunks, w') = divide_file_into_chunks os train (length ips) w in
      (start_nodes code train ips chunks, w')
]
