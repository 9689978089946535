-- ===== src/Tests/Datagrams.antt =====
-- The theorems on the responder and the search's socket at inputs.
use distributed_system_manag.Base.{
  ℕ, suc, ◌+◌, ◌≡◌, refl, true, some, none, List, [], ◌∷◌, ◌++◌, codes, take, pos, zero,
}
use distributed_system_manag.Discovery.{DiscoveryOs, send_request}
use distributed_system_manag.Discovery.Closes.{Counts, send_request-Counts}
use distributed_system_manag.Server.Responder.{ResponderOs, udp_discovery_responder}
use distributed_system_manag.Server.Responder.Answers.{
  Delivers, answers, udp_discovery_responder-Answers,
}
use distributed_system_manag.Sockets.{Address}

-- The datagrams that have come, and those that were sent.
record Datagrams : Type 0 where
  come : List (List ℕ × Address)
  sent : List (List ℕ × Address)

abbrev responder : ResponderOs Datagrams
responder = record {
  socket = λ t w. (pos 3, w);
  bind = λ fd a w. (pos 0, w);
  recvfrom = λ fd len w. elim w.come [
    | [] ↦ (none, w)
    | d ∷ rest ↦ (some (take len d.0, d.1), record w { come = rest })
  ];
  sendto = λ fd bytes a w. record w { sent = w.sent ++ ((bytes, a) ∷ []) };
}

responder-Delivers : Delivers responder (λ w. w.come) (λ w. w.sent)
responder-Delivers = record {
  bound = λ fd a w. refl;
  bind_come = λ fd a w. refl;
  bind_sent = λ fd a w. refl;
  socket_come = λ w. refl;
  socket_sent = λ w. refl;
  received = λ fd len w bytes from rest e. received_from w.come w.sent len bytes from rest e;
  send_come = λ fd bytes a w. refl;
  send_sent = λ fd bytes a w. refl;
}
  where
    received_from :
        (come sent : List (List ℕ × Address)) (len : ℕ) (bytes : List ℕ) (from : Address)
        (rest : List (List ℕ × Address))
        → come ≡ (bytes, from) ∷ rest
        → let r = responder.recvfrom (pos 3) len (record { come = come; sent = sent }) in
          (r.0 ≡ some (take len bytes, from)) × (r.1.come ≡ rest) × (r.1.sent ≡ sent)
    received_from come sent len bytes from rest e = rw e (refl, refl, refl)

abbrev machine : ℕ → Address
machine ip = record { sin_addr = ip; sin_port = 5000 }

abbrev requests : Datagrams
requests = record {
  come =
      (codes "status", machine 7) ∷ (codes "other", machine 8) ∷ (codes "status", machine 9) ∷ [];
  sent = [];
}

udp_discovery_responder-Answers_example :
    (udp_discovery_responder responder 3 requests).sent ≡ answers requests.come
udp_discovery_responder-Answers_example =
    udp_discovery_responder-Answers responder (λ w. w.come) (λ w. w.sent) requests
      responder-Delivers

-- The world is how often the socket was closed; one server answers.
abbrev counted : DiscoveryOs (ℕ × ℕ)
counted = record {
  set_broadcast = λ w. (true, w);
  set_timeout = λ w. (true, w);
  send_to = λ bytes w. (true, w);
  malloc = λ w. (true, w);
  receive_from =
      λ w. elim w.1 [ zero ↦ (none, w) | suc k ↦ (some (codes "1", codes "10.0.0.7"), (w.0, k)) ];
  close = λ w. (w.0 + 1, w.1);
}

counted-Counts : Counts counted (λ w. w.0)
counted-Counts = record {
  close_one = λ w. refl;
  broadcast_same = λ w. refl;
  timeout_same = λ w. refl;
  send_same = λ bytes w. refl;
  malloc_same = λ w. refl;
  receive_same = λ w. received w.0 w.1;
}
  where
    received : (closed left : ℕ) → (counted.receive_from (closed, left)).1.0 ≡ closed
    received closed zero = refl
    received closed (suc k) = refl

send_request-Counts_example : (send_request counted (0, 1)).1.0 ≡ 2
send_request-Counts_example = send_request-Counts counted (λ w. w.0) (0, 1) counted-Counts
