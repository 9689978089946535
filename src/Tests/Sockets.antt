-- ===== src/Tests/Sockets.antt =====
-- A network small enough to compute with, and the theorems on sockets at inputs.
use distributed_system_manag.Base.{
  ℕ, ◌+◌, ◌≡◌, refl, inl, some, List, [], ◌∷◌, ◌++◌, length, take, drop, codes, true, ℤ, pos,
  negsuc,
}
use distributed_system_manag.Distribute.Run.{final_result}
use distributed_system_manag.Distribute.Run.Reply.{network_result-to_string}
use distributed_system_manag.Distribute.Parse.Print.{to_string}
use distributed_system_manag.Distribute.Network.{network_result}
use distributed_system_manag.Base.{c_str}
use distributed_system_manag.Sockets.{SocketOs, tcp, connect_socket}
use distributed_system_manag.Sockets.Windows.{FileOs}
use distributed_system_manag.ClientCommands.Talk.{invalid_free, handle_status, send_to_server}
use distributed_system_manag.ClientCommands.Talk.Replies.{
  Closes, send_to_server-closed, handle_status-unanswered,
}

-- A file's position, and the bytes that a connection has carried.
record Carried : Type 0 where
  place : ℕ
  carried : List ℕ

abbrev content : List ℕ
content = codes "abcdef"

abbrev files : FileOs Carried
files = record {
  lseek = λ fd p w. record w { place = p };
  read = λ fd n w. (
    take n (drop w.place content),
    record w { place = w.place + length (take n (drop w.place content)) },
  );
  send = λ bytes w. (some (length bytes), record w { carried = w.carried ++ bytes });
}

abbrev nothing : Carried
nothing = record { place = 0; carried = [] }

-- The world is the descriptors closed; nobody answers.
abbrev alone : SocketOs (List ℤ)
alone = record {
  socket = λ t w. (pos 5, w);
  accept = λ fd w. ((negsuc 0, record { sin_addr = 0; sin_port = 0 }), w);
  set_reuse_address = λ fd w. (pos 0, w);
  bind = λ fd a w. (pos 0, w);
  listen = λ fd n w. (pos 0, w);
  inet_pton = λ text. some 1;
  inet_ntop = λ a. [];
  connect = λ fd a w. (negsuc 0, w);
  getsockname = λ fd w. (pos 0, w);
  send = λ fd bytes w. (pos (length bytes), w);
  recv = λ fd n w. ((pos 0, []), w);
  sendfile = λ fd file offset count w. ((pos 0, offset), w);
  close = λ fd w. fd ∷ w;
}

alone-Closes : Closes alone (λ w. w)
alone-Closes = record {
  close_closed = λ fd w. refl;
  socket_closed = λ t w. refl;
  connect_closed = λ fd a w. refl;
  getsockname_closed = λ fd w. refl;
  send_closed = λ fd bytes w. refl;
  recv_closed = λ fd n w. refl;
}

send_to_server-closed_example :
    (send_to_server alone true (codes "status") (codes "127.0.0.1") []).1 ≡ pos 5 ∷ []
send_to_server-closed_example =
    send_to_server-closed alone (λ w. w) alone-Closes true (codes "status") (codes "127.0.0.1") []

handle_status-unanswered_example :
    (handle_status alone true []).0 ≡ (some (codes "Connection error"), invalid_free)
unfolding tcp connect_socket
handle_status-unanswered_example = handle_status-unanswered alone true [] (inl refl)

network_result-to_string_example :
    network_result (some (c_str (to_string (final_result (negsuc 41 ∷ [])))))
    ≡ some (final_result (negsuc 41 ∷ []))
network_result-to_string_example = network_result-to_string (negsuc 41 ∷ [])
