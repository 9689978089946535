-- ===== src/Sockets.antt =====
-- The class `Socket` with `TCP` and `UDP`: headers/sockets.hpp and src/Sockets/linuxSockets.cpp.
-- What `perror` prints is left out, and so is the text of the own address in `connect_socket`.
pub mod Windows
pub mod Descriptors
use distributed_system_manag.Base.{
  ℕ, Bool, true, false, not, Option, none, some, List, [], ◌∷◌, if◌then◌else◌, ℤ, pos, negsuc,
  ltb_ℤ, eqb_ℤ, leb,
}
use distributed_system_manag.Node.{Prog, ◌>>=◌, ◌>>◌, guard, return}

-- `SOCK_STREAM` and `SOCK_DGRAM`.
pub data SocketType : Type 0 where
  stream datagram : SocketType

-- A `sockaddr_in`, whose family is `AF_INET`.
pub record Address : Type 0 where
  pub sin_addr : ℕ
  pub sin_port : ℕ

-- The system's calls. A result below 0 is a failure. `inet_pton` and `inet_ntop` are the address of
-- a text and its text. `accept` and `getsockname` give an address beside their result, `recv` the
-- bytes, and `sendfile` moves the offset, which it gives back.
pub record SocketOs (W : Type 0) : Type 0 where
  pub socket : SocketType → W → ℤ × W
  pub accept : ℤ → W → (ℤ × Address) × W
  pub set_reuse_address : ℤ → W → ℤ × W
  pub bind : ℤ → Address → W → ℤ × W
  pub listen : ℤ → ℕ → W → ℤ × W
  pub inet_pton : List ℕ → Option ℕ
  pub inet_ntop : ℕ → List ℕ
  pub connect : ℤ → Address → W → ℤ × W
  pub getsockname : ℤ → W → ℤ × W
  pub send : ℤ → List ℕ → W → ℤ × W
  pub recv : ℤ → ℕ → W → (ℤ × List ℕ) × W
  pub sendfile : ℤ → ℤ → ℕ → ℕ → W → (ℤ × ℕ) × W
  pub close : ℤ → W → W

pub record Socket : Type 0 where
  pub sockfd : ℤ

-- What the calls change: the system, and the global `client_ip`.
pub record Net (W : Type 0) : Type 0 where
  pub world : W
  pub client_ip : List ℕ

-- `PORT`
abbrev pub port : ℕ
port = 8080

-- `INADDR_ANY`
abbrev pub inaddr_any : ℕ
inaddr_any = 0

-- `Socket()`
unfoldable pub new_socket : Socket
new_socket = record { sockfd = negsuc 0 }

-- `Socket(fd)`
unfoldable pub socket_of : ℤ → Socket
socket_of fd = record { sockfd = fd }

abbrev pub fails : ℤ → Bool
fails result = ltb_ℤ result (pos 0)

module _ {W : Type 0} (os : SocketOs W) where
  -- A call whose failure is an early return.
  abbrev pub call : (W → ℤ × W) → Prog W (Unit {0})
  call c w = guard (not (fails (c w).0)) (c w).1

  unfoldable pub tcp : W → Socket × W
  unfolding socket_of
  tcp w = let (fd, w') = os.socket stream w in (socket_of fd, w')

  unfoldable pub udp : W → Socket × W
  unfolding socket_of
  udp w = let (fd, w') = os.socket datagram w in (socket_of fd, w')

  unfoldable pub set_ip_from_sockaddr : Address → Net W → Net W
  set_ip_from_sockaddr address n = record n { client_ip = os.inet_ntop address.sin_addr }

  -- The result beside the socket, which takes the connection's descriptor.
  unfoldable pub accept_connection : (server_fd : ℤ) → Net W → (ℤ × Socket) × Net W
  unfolding socket_of set_ip_from_sockaddr
  accept_connection server_fd n =
      let ((fd, address), w) = os.accept server_fd n.world in
      let accepted = record n { world = w } in
      if fails fd
      then ((negsuc 0, socket_of fd), accepted)
      else ((pos 1, socket_of fd), set_ip_from_sockaddr address accepted)

  -- `none`: the result is -1.
  unfoldable pub setup_socket : Socket → Prog W ℤ
  setup_socket s = do
    call (os.set_reuse_address s.sockfd)
    call (os.bind s.sockfd (record { sin_addr = inaddr_any; sin_port = port }))
    call (os.listen s.sockfd 10)
    return s.sockfd

  -- By the address that the text stands for. `none`: the result is `false`.
  unfoldable pub connect_address : Socket → Option ℕ → Prog W (Unit {0})
  connect_address s none w = (none, w)
  connect_address s (some ip) w =
      (call (os.connect s.sockfd (record { sin_addr = ip; sin_port = port }))
          >> call (os.getsockname s.sockfd))
        w

  unfoldable pub connect_socket : Socket → List ℕ → Prog W (Unit {0})
  unfolding connect_address
  connect_socket s ip = connect_address s (os.inet_pton ip)

  unfoldable pub send_data : Socket → List ℕ → W → ℤ × W
  send_data s bytes w = os.send s.sockfd bytes w

  unfoldable pub receive : Socket → ℕ → W → (ℤ × List ℕ) × W
  receive s len w = os.recv s.sockfd len w

  unfoldable pub send_file : Socket → (filefd : ℤ) → (offset chunk : ℕ) → W → (ℤ × ℕ) × W
  send_file s filefd offset chunk w = os.sendfile s.sockfd filefd offset chunk w

  -- `close` and `~Socket`.
  unfoldable pub close : Socket → W → W
  close s w = os.close s.sockfd w
