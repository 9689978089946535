-- ===== src/Server/Handlers/Closing/Served.antt =====
-- The descriptor of a connection, once its request has been served.
use mathlib.Core.Option.{some-injective}
use distributed_system_manag.Base.{
  ℕ, ◌+◌, ◌≡◌, sym, ap, Bool, true, false, ◌||◌, Option, none, some, List, [], ◌∷◌, ◌==◌,
  if◌then◌else◌, arith,
}
use distributed_system_manag.Status.{
  Status, status_message, success, reject_connection, receiver_no_open_connection,
  open_sharefile_connection,
}
use distributed_system_manag.Node.{ServerOs, Node, outside}
use distributed_system_manag.ShareFile.Receive.{recv_all, receive_file}
use distributed_system_manag.Server.Listener.{ServerCommand}
use distributed_system_manag.Sockets.Descriptors.{closes}
use distributed_system_manag.Server.Handlers.{
  ask_user, send_status, delete_socket, delete_twice, handle_status_check, handle_connect_server,
  handle_receive_file_server, handle_close_receive_file_server, answer_sender, share_file_from,
  share_file_received, handle_share_file_server,
}
use distributed_system_manag.Server.Handlers.Flag.{
  Request, ask_status, ask_connect, open_receive, close_receive, share_file, serve,
}
use distributed_system_manag.Server.Handlers.Closing.{CountsCloses, KeepsOpen}
use distributed_system_manag.Server.Handlers.Closing.ReceiveFile.{
  recv_all-KeepsOpen, receive_file-KeepsOpen,
}

abbrev pub command_of : Request → ServerCommand
command_of ask_status = ServerCommand.status
command_of ask_connect = ServerCommand.connect
command_of open_receive = ServerCommand.receive_file
command_of close_receive = ServerCommand.close_receive_file
command_of (share_file lines) = ServerCommand.share_file

module _ {W : Type 0} (os : ServerOs W) (sock : ℕ) (count : W → ℕ)
    (counts : CountsCloses os sock count) where
  sent : (s : Status) (n : Node W) → count (send_status os sock s n).world ≡ count n.world
  unfolding send_status
  sent s n = counts.send_same (status_message s) n.world

  deleted : (n : Node W) → count (delete_socket os sock n).world ≡ count n.world + 1
  unfolding delete_socket
  deleted n = omega (arith, counts.close_sock n.world)

  twice : (n : Node W) → count (delete_twice os sock n).world ≡ count n.world + 2
  unfolding delete_twice
  twice n = omega (arith, deleted n, deleted (delete_socket os sock n))

  received : (n : Node W) → count (receive_file os n).1.world ≡ count n.world
  unfolding KeepsOpen
  received n = receive_file-KeepsOpen os sock count counts n

  byte_read : (n : Node W) → count (recv_all os 1 n).1.world ≡ count n.world
  unfolding KeepsOpen
  byte_read n = recv_all-KeepsOpen os sock count counts 1 n

  answered :
      (choice : ℕ) (n : Node W) → count (answer_sender os sock choice n).world ≡ count n.world + 1
  unfolding answer_sender delete_socket
  answered choice n = go (choice == b'a' || choice == b'A')
    where
      go :
          (agrees : Bool)
          → count (
              os.close sock
                (if agrees
                  then (receive_file os (send_status os sock success n)).1
                  else send_status os sock reject_connection n).world)
            ≡ count n.world + 1
      go true = omega (
        arith,
        counts.close_sock (receive_file os (send_status os sock success n)).1.world,
        received (send_status os sock success n),
        sent success n,
      )
      go false = omega (
        arith,
        counts.close_sock (send_status os sock reject_connection n).world,
        sent reject_connection n,
      )

  world_of : {n n' : Node W} → some n ≡ some n' → count n'.world ≡ count n.world
  world_of {n} {n'} e = ap (λ (m : Node W). count m.world) (sym (some-injective _ _ e))

  from-closes :
      (lines : List (List ℕ)) (b : ℕ) (n n' : Node W)
      → share_file_from os sock lines b n ≡ some n'
      → count n'.world ≡ count n.world + 1
  unfolding share_file_from
  from-closes lines b n n' e = go (b == 0) (ask_user lines) e
    where
      go :
          (unasked : Bool) (answer : Option ℕ)
          → (if unasked then some (delete_socket os sock (receive_file os n).1) else elim answer [
            | none ↦ none
            | some choice ↦ some (answer_sender os sock choice n)
          ])
            ≡ some n'
          → count n'.world ≡ count n.world + 1
      go true answer e = omega (arith, world_of e, deleted (receive_file os n).1, received n)
      go false none e = cc e
      go false (some choice) e = omega (arith, world_of e, answered choice n)

  byte-closes :
      (lines : List (List ℕ)) (r : Option (List ℕ) × Node W) (n' : Node W)
      → share_file_received os sock lines r ≡ some n'
      → count n'.world ≡ count r.1.world + 1
  unfolding share_file_received
  byte-closes lines (none, n) n' e = omega (arith, world_of e, deleted n)
  byte-closes lines (some [], n) n' e = omega (arith, world_of e, deleted n)
  byte-closes lines (some (b ∷ _), n) n' e = from-closes lines b n n' e

  share-closes :
      (lines : List (List ℕ)) (n n' : Node W)
      → handle_share_file_server os sock lines n ≡ some n'
      → count n'.world ≡ count n.world + 1
  unfolding handle_share_file_server
  share-closes lines n n' e = go (n.open_receive_file_connection == 0) e
    where
      answer : Node W
      answer = send_status os sock success n

      go :
          (refused : Bool)
          → (if refused
              then some (delete_socket os sock (send_status os sock receiver_no_open_connection n))
              else share_file_received os sock lines (recv_all os 1 answer))
            ≡ some n'
          → count n'.world ≡ count n.world + 1
      go true e = omega (
        arith,
        world_of e,
        deleted (send_status os sock receiver_no_open_connection n),
        sent receiver_no_open_connection n,
      )
      go false e =
          omega
            (arith, byte-closes lines (recv_all os 1 answer) n' e, byte_read answer, sent success n)

  -- Let `count` be how often `close` has been called on the connection's descriptor, and let an opened
  -- file never get that descriptor. Once the handler of a request of `Request` has served it to its
  -- end, it has closed that descriptor exactly as often as `closes` says, whatever was received.
  pub serve-closes :
      (r : Request) (n n' : Node W)
      → serve os sock r n ≡ some n'
      → count n'.world ≡ count n.world + closes (command_of r)
  unfolding serve closes handle_status_check handle_connect_server handle_receive_file_server
      handle_close_receive_file_server
  serve-closes ask_status n n' e = go (n.open_receive_file_connection == 0) e
    where
      go :
          (is_closed : Bool)
          → some (
              delete_twice os sock (
                if is_closed
                then send_status os sock success n
                else send_status os sock open_sharefile_connection n))
            ≡ some n'
          → count n'.world ≡ count n.world + 2
      go true e = omega (arith, world_of e, twice (send_status os sock success n), sent success n)
      go false e = omega (
        arith,
        world_of e,
        twice (send_status os sock open_sharefile_connection n),
        sent open_sharefile_connection n,
      )
  serve-closes ask_connect n n' e = omega (
    arith,
    world_of e,
    twice (outside (λ w. (os.send (b'1' ∷ []) w).1) n),
    counts.send_same (b'1' ∷ []) n.world,
  )
  serve-closes open_receive n n' e =
      let opened = record n { open_receive_file_connection = 1 } in
      omega (
        arith,
        world_of e,
        twice (send_status os sock open_sharefile_connection opened),
        sent open_sharefile_connection opened,
      )
  serve-closes close_receive n n' e =
      let closed = record n { open_receive_file_connection = 0 } in
      omega (arith, world_of e, twice (send_status os sock success closed), sent success closed)
  serve-closes (share_file lines) n n' e = share-closes lines n n' e
