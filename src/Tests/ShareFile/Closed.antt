-- ===== src/Tests/ShareFile/Closed.antt =====
-- The connection's descriptor at a transfer that the user accepts.
use distributed_system_manag.Base.{
  ℕ, suc, ◌≡◌, ◌≢◌, refl, none, some, Option, [], ◌∷◌, codes, ◌==◌, if◌then◌else◌, arith,
}
use distributed_system_manag.Node.{ServerOs, Node}
use distributed_system_manag.Server.Handlers.{handle_share_file_server, ask_user}
use distributed_system_manag.Server.Handlers.Flag.{share_file, serve}
use distributed_system_manag.Server.Handlers.Closing.{CountsCloses}
use distributed_system_manag.Server.Handlers.Closing.Served.{serve-closes}
use distributed_system_manag.ShareFile.Receive.{recv_all, recv_from}
use distributed_system_manag.Sockets.Descriptors.{closes}
use distributed_system_manag.Tests.Systems.{ServerWorld, server}
use distributed_system_manag.Tests.ShareFile.{carried, node_of}

-- The server, with the number of times that descriptor 7 has been closed.
abbrev counting : ServerOs (ℕ × ServerWorld)
counting = record {
  send = λ bs (k, w). let (sent, w') = server.send bs w in (sent, (k, w'));
  receive = λ n (k, w). let (bytes, w') = server.receive n w in (bytes, (k, w'));
  mkdir = λ path (k, w). (k, server.mkdir path w);
  open_output = λ path (k, w). let (fd, w') = server.open_output path w in (fd, (k, w'));
  write = λ fd bs (k, w). let (written, w') = server.write fd bs w in (written, (k, w'));
  close = λ fd (k, w). (if fd == 7 then suc k else k, w);
}

abbrev closed : ℕ × ServerWorld → ℕ
closed (k, w) = k

other_fd : (fd k : ℕ) → fd ≢ 7 → (if fd == 7 then suc k else k) ≡ k
other_fd fd k other = ground arith

counting-CountsCloses : CountsCloses counting 7 closed
counting-CountsCloses = record {
  close_sock = λ (k, w). refl;
  close_other = λ fd (k, w) other. other_fd fd k other;
  send_same = λ bs (k, w). refl;
  receive_same = λ n (k, w). refl;
  mkdir_same = λ path (k, w). refl;
  open_same = λ path (k, w). refl;
  open_apart = λ path (k, w) e. cc e;
  write_same = λ fd bs (k, w). refl;
}

-- The sender asks first.
abbrev requested : Node (ℕ × ServerWorld)
requested = record {
  world = (3, (node_of 1 (1 ∷ carried)).world);
  open_receive_file_connection = 1;
  shared_file_size = 0;
  processed_bytes = 0;
  shared_outpath = [];
  mesh_info_1 = record { flag = 0 };
  mesh_info_2 = record { flag = 0 };
}

abbrev reached : Option (Node (ℕ × ServerWorld)) → Node (ℕ × ServerWorld)
reached none = requested
reached (some n) = n

abbrev ended : Node (ℕ × ServerWorld)
ended = reached (handle_share_file_server counting 7 (codes "a" ∷ []) requested)

requested-ended : serve counting 7 (share_file (codes "a" ∷ [])) requested ≡ some ended
unfolding serve handle_share_file_server recv_all recv_from ask_user
requested-ended = refl

serve-closes_example : closed ended.world ≡ 4
unfolding closes
serve-closes_example =
    serve-closes counting 7 closed counting-CountsCloses (share_file (codes "a" ∷ [])) requested
      ended requested-ended
