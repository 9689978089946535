-- ===== src/Server/Responder/Answers.antt =====
-- Whom the responder answers.
use distributed_system_manag.Base.{
  ℕ, suc, ◌≡◌, refl, sym, ap, ◌∙◌, Bool, true, false, Option, none, some, List, [], ◌∷◌, ◌++◌,
  append_assoc, append-nil, ◌==◌, if◌then◌else◌, length, take, codes, c_str, str_eq, ℤ, arith,
}
use distributed_system_manag.Sockets.{Address, inaddr_any, datagram, fails}
use distributed_system_manag.Server.Responder.{
  ResponderOs, respond_to, respond, respond_rounds, open_responder, udp_discovery_responder,
}

-- What a system does on which no call fails: a datagram that has come is received, in order, and one
-- that is sent is sent.
pub record Delivers {W : Type 0} (os : ResponderOs W) (come : W → List (List ℕ × Address))
    (sent : W → List (List ℕ × Address)) : Type 0 where
  pub bound : (sock : ℤ) (a : Address) (w : W) → fails (os.bind sock a w).0 ≡ false
  pub bind_come : (sock : ℤ) (a : Address) (w : W) → come (os.bind sock a w).1 ≡ come w
  pub bind_sent : (sock : ℤ) (a : Address) (w : W) → sent (os.bind sock a w).1 ≡ sent w
  pub socket_come : (w : W) → come (os.socket datagram w).1 ≡ come w
  pub socket_sent : (w : W) → sent (os.socket datagram w).1 ≡ sent w
  pub received :
      (sock : ℤ) (len : ℕ) (w : W) (bytes : List ℕ) (from : Address)
      (rest : List (List ℕ × Address))
      → come w ≡ (bytes, from) ∷ rest
      → ((os.recvfrom sock len w).0 ≡ some (take len bytes, from))
        × (come (os.recvfrom sock len w).1 ≡ rest)
        × (sent (os.recvfrom sock len w).1 ≡ sent w)
  pub send_come :
      (sock : ℤ) (bytes : List ℕ) (a : Address) (w : W) → come (os.sendto sock bytes a w) ≡ come w
  pub send_sent :
      (sock : ℤ) (bytes : List ℕ) (a : Address) (w : W)
      → sent (os.sendto sock bytes a w) ≡ sent w ++ ((bytes, a) ∷ [])

-- One answer for each request, to the address from which it came.
abbrev pub asks : List ℕ → Bool
asks bytes = str_eq (c_str (take 255 bytes)) (codes "status")

abbrev pub answers : List (List ℕ × Address) → List (List ℕ × Address)
answers [] = []
answers ((bytes, from) ∷ datagrams) =
    if asks bytes then (b'1' ∷ [], from) ∷ answers datagrams else answers datagrams

module _ {W : Type 0} (os : ResponderOs W) (come sent : W → List (List ℕ × Address))
    (delivers : Delivers os come sent) (sock : ℤ) where
  respond_to-sent :
      (bytes : List ℕ) (from : Address) (w : W)
      → (sent (respond_to os sock (some (bytes, from)) w)
          ≡ sent w
            ++ (if str_eq (c_str bytes) (codes "status") then (b'1' ∷ [], from) ∷ [] else []))
        × (come (respond_to os sock (some (bytes, from)) w) ≡ come w)
  unfolding respond_to str_eq c_str
  respond_to-sent [] from w = (sym (append-nil (sent w)), refl)
  respond_to-sent (c ∷ bytes) from w =
      rw (is_longer (length bytes)) (go (str_eq (c_str (c ∷ bytes)) (codes "status")))
    where
      is_longer : (k : ℕ) → (suc k == 0) ≡ false
      is_longer k = ground arith

      go :
          (ask : Bool)
          → (sent (if ask then os.sendto sock (b'1' ∷ []) from w else w)
              ≡ sent w ++ (if ask then (b'1' ∷ [], from) ∷ [] else []))
            × (come (if ask then os.sendto sock (b'1' ∷ []) from w else w) ≡ come w)
      go true =
          (delivers.send_sent sock (b'1' ∷ []) from w, delivers.send_come sock (b'1' ∷ []) from w)
      go false = (sym (append-nil (sent w)), refl)

  respond-sent :
      (bytes : List ℕ) (from : Address) (datagrams : List (List ℕ × Address)) (w : W)
      → come w ≡ (bytes, from) ∷ datagrams
      → (sent (respond os sock w) ≡ sent w ++ (if asks bytes then (b'1' ∷ [], from) ∷ [] else []))
        × (come (respond os sock w) ≡ datagrams)
  unfolding respond
  respond-sent bytes from datagrams w e =
      let (got, left, same) = delivers.received sock 255 w bytes from datagrams e in
      let w' = (os.recvfrom sock 255 w).1 in
      let (answered, kept) = respond_to-sent (take 255 bytes) from w' in
      (
        ap (λ r. sent (respond_to os sock r w')) got
            ∙ answered
            ∙ ap (λ l. l ++ (if asks bytes then (b'1' ∷ [], from) ∷ [] else [])) same,
        ap (λ r. come (respond_to os sock r w')) got ∙ kept ∙ left,
      )

  respond_rounds-sent :
      (datagrams : List (List ℕ × Address)) (w : W)
      → come w ≡ datagrams
      → sent (respond_rounds os sock (length datagrams) w) ≡ sent w ++ answers datagrams
  unfolding respond_rounds
  respond_rounds-sent [] w e = sym (append-nil (sent w))
  respond_rounds-sent ((bytes, from) ∷ datagrams) w e =
      let (answered, left) = respond-sent bytes from datagrams w e in
      respond_rounds-sent datagrams (respond os sock w) left
      ∙ ap (λ l. l ++ answers datagrams) answered
      ∙ append_assoc (sent w) _ (answers datagrams)
      ∙ ap (λ l. sent w ++ l) (go (asks bytes))
    where
      go :
          (ask : Bool)
          → (if ask then (b'1' ∷ [], from) ∷ [] else []) ++ answers datagrams
            ≡ (if ask then (b'1' ∷ [], from) ∷ answers datagrams else answers datagrams)
      go true = refl
      go false = refl

-- Where nothing of the system fails: in as many rounds as datagrams have come, the responder sends one
-- datagram "1" for each that asks for the status, to the address from which it came and in that
-- order, and no other.
pub udp_discovery_responder-Answers :
    {W : Type 0} (os : ResponderOs W) (come sent : W → List (List ℕ × Address)) (w : W)
    → Delivers os come sent
    → sent (udp_discovery_responder os (length (come w)) w) ≡ sent w ++ answers (come w)
unfolding udp_discovery_responder
udp_discovery_responder-Answers {W} os come sent w delivers =
    let (sock, w1) = os.socket datagram w in
    let address : Address = record { sin_addr = inaddr_any; sin_port = 8080 } in
    let w2 = (os.bind sock address w1).1 in
    let opened : open_responder os w ≡ (some sock, w2) =
      ap (λ b. if b then (none, w2) else (some sock, w2)) (delivers.bound sock address w1) in
    ap
      (λ (o : Option ℤ × W). sent (elim o.0 as (λ x. W) [
        | none ↦ o.1
        | some sock ↦ respond_rounds os sock (length (come w)) o.1
      ]))
      opened
    ∙ respond_rounds-sent os come sent delivers sock (come w) w2
        (delivers.bind_come sock address w1 ∙ delivers.socket_come w)
    ∙ ap (λ l. l ++ answers (come w)) (delivers.bind_sent sock address w1 ∙ delivers.socket_sent w)
