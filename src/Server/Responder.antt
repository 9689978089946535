-- ===== src/Server/Responder.antt =====
-- `udp_discovery_responder` of src/udpServer.cpp: the set-up of its socket, and its rounds.
pub mod Answers
use distributed_system_manag.Base.{
  ℕ, zero, suc, Bool, true, false, Option, none, some, List, [], ◌∷◌, ◌==◌, if◌then◌else◌, length,
  codes, c_str, str_eq, ℤ,
}
use distributed_system_manag.Sockets.{SocketType, datagram, Address, inaddr_any, fails}

-- The system's calls. `recvfrom` gives a datagram, cut to the length, with its sender's address, or
-- fails. The result of `sendto` is not looked at.
pub record ResponderOs (W : Type 0) : Type 0 where
  pub socket : SocketType → W → ℤ × W
  pub bind : ℤ → Address → W → ℤ × W
  pub recvfrom : ℤ → ℕ → W → Option (List ℕ × Address) × W
  pub sendto : ℤ → List ℕ → Address → W → W

module _ {W : Type 0} (os : ResponderOs W) (sock : ℤ) where
  -- By what `recvfrom` gives. An empty datagram is no more than a failure.
  unfoldable pub respond_to : Option (List ℕ × Address) → W → W
  respond_to none w = w
  respond_to (some (bytes, cli_addr)) w =
      if length bytes == 0
      then w
      else (if str_eq (c_str bytes) (codes "status")
          then os.sendto sock (b'1' ∷ []) cli_addr w
          else w)

  unfoldable pub respond : W → W
  unfolding respond_to
  respond w = let (received, w') = os.recvfrom sock 255 w in respond_to received w'

  -- The first rounds of the loop, which does not end.
  unfoldable pub respond_rounds : ℕ → W → W
  unfolding respond
  respond_rounds zero w = w
  respond_rounds (suc rounds) w = respond_rounds rounds (respond w)

module _ {W : Type 0} (os : ResponderOs W) where
  -- The socket, if the loop begins. Where `bind` fails the thread ends, and its socket stays open.
  unfoldable pub open_responder : W → Option ℤ × W
  open_responder w =
      let (sock, w1) = os.socket datagram w in
      let (bound, w2) = os.bind sock (record { sin_addr = inaddr_any; sin_port = 8080 }) w1 in
      if fails bound then (none, w2) else (some sock, w2)

  unfoldable pub udp_discovery_responder : (rounds : ℕ) → W → W
  unfolding open_responder respond_rounds
  udp_discovery_responder rounds w =
      let (opened, w') = open_responder w in
      elim opened [ none ↦ w' | some sock ↦ respond_rounds os sock rounds w' ]
