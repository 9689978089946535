-- ===== src/Start.antt =====
-- The start of the program: main.cpp and src/connection.cpp.
pub mod Laws
use distributed_system_manag.Base.{
  ℕ, Bool, true, false, Option, none, some, List, [], ◌∷◌, if◌then◌else◌, ℤ, pos, negsuc,
}
use distributed_system_manag.Sockets.{SocketOs, Socket, tcp, setup_socket, fails}

-- `std::thread` in their order, the listener with its `server_args`.
pub data Thread : Type 0 where
  server_udp_thread ui_thread : Thread
  server_thread : (server_fd : ℤ) → Thread

-- What becomes of the process: it ends with a code, or its threads run and are waited for.
pub data Started : Type 0 where
  ends : (code : ℕ) → Started
  runs : List Thread → Started

-- `if (server_fd < 0)`, which `setupSocket` also gives by -1.
abbrev pub usable : Option ℤ → Option ℤ
usable none = none
usable (some fd) = if fails fd then none else some fd

module _ {W : Type 0} (os : SocketOs W) where
  -- By the descriptor that `setupSocket` gives. `exit` runs no destructor.
  unfoldable pub start_threads : Option ℤ → W → Started × W
  start_threads none w = (ends 1, w)
  start_threads (some server_fd) w =
      (runs (server_udp_thread ∷ server_thread server_fd ∷ ui_thread ∷ []), w)

  unfoldable pub connection : W → Started × W
  unfolding start_threads
  connection w =
      let (socket, w1) = tcp os w in
      let (server_fd, w2) = setup_socket os socket w1 in start_threads (usable server_fd) w2

  -- `main` on Windows, by the result of `WSAStartup`; on Linux `main` only calls `connection`.
  unfoldable pub main : (wsa_started : Bool) → W → Started × W
  main wsa_started w = if wsa_started then connection w else (ends 1, w)
