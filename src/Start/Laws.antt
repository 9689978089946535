-- ===== src/Start/Laws.antt =====
-- The socket that the listener is given.
use distributed_system_manag.Base.{◌≡◌, false, [], ◌∷◌, ◌⊎◌, ℤ, arith, Bool-cases, inl, inr}
use distributed_system_manag.Sockets.{
  SocketOs, Address, stream, tcp, setup_socket, fails, inaddr_any, port,
}
use distributed_system_manag.Start.{
  ends, runs, server_thread, server_udp_thread, ui_thread, connection,
}

-- No call on the listener's socket fails, each in the state that the one before it leaves.
pub record Listens {W : Type 0} (os : SocketOs W) (fd : ℤ) (w : W) : Type 0 where
  pub opened : fails fd ≡ false
  pub reused : fails (os.set_reuse_address fd w).0 ≡ false
  pub bound :
      fails
        (os.bind fd
          (record { sin_addr = inaddr_any; sin_port = port })
          (os.set_reuse_address fd w).1).0
      ≡ false
  pub listened :
      fails
        (os.listen fd 10
          (os.bind fd
            (record { sin_addr = inaddr_any; sin_port = port })
            (os.set_reuse_address fd w).1).1).0
      ≡ false

-- The three threads start where the TCP socket can be opened, set up, bound to port 8080 of all
-- addresses and set to listen, with its descriptor for the listener; where one of these calls fails
-- no thread starts and the process ends with the code 1.
connection-Listens :
    {W : Type 0} (os : SocketOs W) (w : W)
    → let (fd, w1) = os.socket stream w in
      (Listens os fd w1
        × ((connection os w).0 ≡ runs (server_udp_thread ∷ server_thread fd ∷ ui_thread ∷ [])))
      ⊎ ((¬ Listens os fd w1) × ((connection os w).0 ≡ ends 1))
unfolding connection tcp setup_socket
connection-Listens os w =
    let (fd, w1) = os.socket stream w in
    let address : Address = record { sin_addr = inaddr_any; sin_port = port } in
    let reused = os.set_reuse_address fd w1 in
    let bound = os.bind fd address reused.1 in
    let listened = os.listen fd 10 bound.1 in
    elim (Bool-cases (fails reused.0)) [
      | inl e0 ↦ inr ((λ l. cc (e0, l.reused)), ground (arith, e0))
      | inr e0 ↦ elim (Bool-cases (fails bound.0)) [
        | inl e1 ↦ inr ((λ l. cc (e1, l.bound)), ground (arith, e0, e1))
        | inr e1 ↦ elim (Bool-cases (fails listened.0)) [
          | inl e2 ↦ inr ((λ l. cc (e2, l.listened)), ground (arith, e0, e1, e2))
          | inr e2 ↦ elim (Bool-cases (fails fd)) [
            | inl e3 ↦ inr ((λ l. cc (e3, l.opened)), ground (arith, e0, e1, e2, e3))
            | inr e3 ↦ inl (
              record { opened = e3; reused = e0; bound = e1; listened = e2 },
              ground (arith, e0, e1, e2, e3),
            )
          ]
        ]
      ]
    ]
