-- ===== src/ClientCommands/Talk/Replies.antt =====
-- What the client does with its socket and with the reply.
use distributed_system_manag.Base.{
  ℕ, ◌≡◌, refl, ap, ◌∙◌, ◌⊎◌, inl, inr, Bool, true, false, Option, none, some, List, ◌∷◌, codes, ℤ,
  pos, ltb_ℤ,
}
use distributed_system_manag.Node.{Prog, guard, ◌>>◌}
use distributed_system_manag.Status.{connection_error}
use distributed_system_manag.Sockets.{
  SocketOs, Socket, Address, SocketType, stream, tcp, connect_socket, connect_address, send_data,
  receive, close, socket_of, call, port,
}
use distributed_system_manag.ClientCommands.Talk.{
  literal, invalid_free, reply_of, exchange, connected, send_to_server, ask_status, handle_status,
  self_ip, text_of, free,
}

-- `closed w` are the descriptors that `close` has been called on, the last one first.
pub record Closes {W : Type 0} (os : SocketOs W) (closed : W → List ℤ) : Type 0 where
  pub close_closed : (fd : ℤ) (w : W) → closed (os.close fd w) ≡ fd ∷ closed w
  pub socket_closed : (t : SocketType) (w : W) → closed (os.socket t w).1 ≡ closed w
  pub connect_closed : (fd : ℤ) (a : Address) (w : W) → closed (os.connect fd a w).1 ≡ closed w
  pub getsockname_closed : (fd : ℤ) (w : W) → closed (os.getsockname fd w).1 ≡ closed w
  pub send_closed : (fd : ℤ) (bytes : List ℕ) (w : W) → closed (os.send fd bytes w).1 ≡ closed w
  pub recv_closed : (fd : ℤ) (n : ℕ) (w : W) → closed (os.recv fd n w).1 ≡ closed w

module _ {W : Type 0} (os : SocketOs W) (closed : W → List ℤ) (closes : Closes os closed) where
  guard-closed :
      (b : Bool) (w : W) (k : Prog W (Unit {0})) (before : List ℤ)
      → closed w ≡ before
      → closed (k w).1 ≡ before
      → closed ((guard b >> k) w).1 ≡ before
  guard-closed true w k before e e' = e'
  guard-closed false w k before e e' = e

  call-closed : (b : Bool) (w : W) → closed (guard b w).1 ≡ closed w
  call-closed true w = refl
  call-closed false w = refl

  connect_address-closed :
      (s : Socket) (ip : Option ℕ) (w : W) → closed (connect_address os s ip w).1 ≡ closed w
  unfolding connect_address
  connect_address-closed s none w = refl
  connect_address-closed s (some ip) w =
      let to : Address = record { sin_addr = ip; sin_port = port } in
      let w1 = (os.connect s.sockfd to w).1 in
      let e = closes.connect_closed s.sockfd to w in
      guard-closed _ w1 (call os (os.getsockname s.sockfd)) (closed w) e
        (call-closed _ (os.getsockname s.sockfd w1).1 ∙ closes.getsockname_closed s.sockfd w1 ∙ e)

  connect_socket-closed :
      (s : Socket) (ip : List ℕ) (w : W) → closed (connect_socket os s ip w).1 ≡ closed w
  unfolding connect_socket
  connect_socket-closed s ip w = connect_address-closed s (os.inet_pton ip) w

  connected-closed :
      (allocates : Bool) (s : Socket) (command : List ℕ) (r : Option (Unit {0}) × W)
      → closed (connected os allocates s command r).1 ≡ s.sockfd ∷ closed r.1
  unfolding connected exchange send_data receive close
  connected-closed allocates s command (none, w) = closes.close_closed s.sockfd w
  connected-closed allocates s command (some _, w) =
      closes.close_closed s.sockfd _
      ∙ ap (◌∷◌ s.sockfd) (
          closes.recv_closed s.sockfd 8191 (os.send s.sockfd command w).1
          ∙ closes.send_closed s.sockfd command w)

  -- On every path `sendToServer` closes the socket that it has opened, once, and no other.
  pub send_to_server-closed :
      (allocates : Bool) (command ip : List ℕ) (w : W)
      → closed (send_to_server os allocates command ip w).1 ≡ (os.socket stream w).0 ∷ closed w
  unfolding send_to_server tcp socket_of
  send_to_server-closed allocates command ip w =
      let s = socket_of (os.socket stream w).0 in
      let w' = (os.socket stream w).1 in
      connected-closed allocates s command (connect_socket os s ip w')
      ∙ ap (◌∷◌ s.sockfd) (connect_socket-closed s ip w' ∙ closes.socket_closed stream w)

reply_of-nothing :
    (allocates : Bool) (r : ℤ × List ℕ)
    → ltb_ℤ (pos 0) r.0 ≡ false
    → reply_of allocates r ≡ literal connection_error
unfolding reply_of
reply_of-nothing allocates (valread, bytes) e = rw e refl

connected-unanswered :
    {W : Type 0} (os : SocketOs W) (allocates : Bool) (s : Socket) (command : List ℕ)
    (r : Option (Unit {0}) × W)
    → (r.0 ≡ none) ⊎ (ltb_ℤ (pos 0) (receive os s 8191 (send_data os s command r.1).1).0.0 ≡ false)
    → (connected os allocates s command r).0 ≡ literal connection_error
unfolding connected exchange
connected-unanswered os allocates s command (none, w) h = refl
connected-unanswered os allocates s command (some _, w) (inl e) = cc e
connected-unanswered os allocates s command (some _, w) (inr e) =
    reply_of-nothing allocates (receive os s 8191 (send_data os s command w).1).0 e

-- Where the server cannot be reached, or gives no byte, `handleStatus` prints "Connection error" and
-- passes a constant to `free`.
pub handle_status-unanswered :
    {W : Type 0} (os : SocketOs W) (allocates : Bool) (w : W)
    → ((connect_socket os (tcp os w).0 self_ip (tcp os w).1).0 ≡ none)
      ⊎ (ltb_ℤ
            (pos 0)
            (receive os
              (tcp os w).0
              8191
              (send_data os
                (tcp os w).0
                (codes "status")
                (connect_socket os (tcp os w).0 self_ip (tcp os w).1).1).1).0.0
          ≡ false)
    → (handle_status os allocates w).0 ≡ (some (codes "Connection error"), invalid_free)
unfolding handle_status ask_status send_to_server text_of free
handle_status-unanswered os allocates w h =
    let (s, w') = tcp os w in
    let e =
      connected-unanswered os allocates s (codes "status") (connect_socket os s self_ip w') h in
    ap (λ reply. (text_of reply, free reply)) e
