-- ===== src/Discovery/Closes.antt =====
-- The descriptor of the socket that `sendRequest` makes.
use distributed_system_manag.Base.{
  ℕ, zero, suc, ◌+◌, ◌≡◌, ◌∙◌, Bool, true, false, Option, none, some, List, codes, arith,
  if◌then◌else◌,
}
use distributed_system_manag.Discovery.{
  DiscoveryOs, Found, max_ips, collect, no_servers, leave_list, receive_answers, await_answers,
  send_request, add_server,
}

-- `count w` is how often the socket's descriptor has been closed.
pub record Counts {W : Type 0} (os : DiscoveryOs W) (count : W → ℕ) : Type 0 where
  pub close_one : (w : W) → count (os.close w) ≡ count w + 1
  pub broadcast_same : (w : W) → count (os.set_broadcast w).1 ≡ count w
  pub timeout_same : (w : W) → count (os.set_timeout w).1 ≡ count w
  pub send_same : (bytes : List ℕ) (w : W) → count (os.send_to bytes w).1 ≡ count w
  pub malloc_same : (w : W) → count (os.malloc w).1 ≡ count w
  pub receive_same : (w : W) → count (os.receive_from w).1 ≡ count w

module _ {W : Type 0} (os : DiscoveryOs W) (count : W → ℕ) (counts : Counts os count) where
  collect-count : (room : ℕ) (f : Found) (w : W) → count (collect os room f w).1 ≡ count w
  unfolding collect
  collect-count zero f w = counts.receive_same w
  collect-count (suc room) f w =
      let w1 = (os.receive_from w).1 in
      let w2 = (os.malloc w1).1 in
      let w3 = (os.malloc w2).1 in
      go (os.receive_from w).0 (os.malloc w1).0 (os.malloc w2).0 (counts.receive_same w)
        (counts.malloc_same w1 ∙ counts.receive_same w)
        (counts.malloc_same w2 ∙ counts.malloc_same w1 ∙ counts.receive_same w)
        (λ g. collect-count room g w3)
    where
      go :
          {w1 w2 w3 : W} (answer : Option (List ℕ × List ℕ)) (status_memory ip_memory : Bool)
          → count w1 ≡ count w
          → count w2 ≡ count w
          → count w3 ≡ count w
          → ((g : Found) → count (collect os room g w3).1 ≡ count w3)
          → count
              (elim answer as (λ x. Found × W) [
                | none ↦ (f, w1)
                | some a ↦
                    let rest = collect os room (add_server a f) w3 in
                    if status_memory then (if ip_memory then rest else (f, w3)) else (f, w2)
              ]).1
            ≡ count w
      go none status_memory ip_memory e1 e2 e3 rest = e1
      go (some a) true true e1 e2 e3 rest = rest (add_server a f) ∙ e3
      go (some a) true false e1 e2 e3 rest = e3
      go (some a) false ip_memory e1 e2 e3 rest = e2

  leave_list-count :
      (list_memory status_memory : Bool) (w : W) (c : Found × W)
      → count c.1 ≡ count w
      → count (leave_list os list_memory status_memory w c).1 ≡ count w + 1
  unfolding leave_list
  leave_list-count true true w (f, w') same = counts.close_one w' ∙ omega (arith, same)
  leave_list-count true false w c same = counts.close_one w
  leave_list-count false status_memory w c same = counts.close_one w

  await_answers-count :
      (broadcast sent : Bool × W)
      → count sent.1 ≡ count broadcast.1
      → count (await_answers os broadcast sent).1 ≡ count broadcast.1 + 1
  unfolding await_answers receive_answers
  await_answers-count (false, w1) sent same = counts.close_one w1
  await_answers-count (true, w1) (false, w2) same = counts.close_one w2 ∙ omega (arith, same)
  await_answers-count (true, w1) (true, w2) same =
      let w3 = (os.malloc w2).1 in
      let w4 = (os.malloc w3).1 in
      leave_list-count (os.malloc w2).0 (os.malloc w3).0 w4 (collect os max_ips (no_servers os) w4)
        (collect-count max_ips (no_servers os) w4)
      ∙ omega (arith, counts.malloc_same w2, counts.malloc_same w3, same)

-- On every path `sendRequest` closes the descriptor of its socket twice: itself, and once more by the
-- socket's destructor.
pub send_request-Counts :
    {W : Type 0} (os : DiscoveryOs W) (count : W → ℕ) (w : W)
    → Counts os count
    → count (send_request os w).1 ≡ count w + 2
unfolding send_request
send_request-Counts os count w counts =
    let broadcast = os.set_broadcast w in
    let timeout = (os.set_timeout broadcast.1).1 in
    let sent = os.send_to (codes "status") timeout in
    counts.close_one (await_answers os broadcast sent).1
    ∙ omega (
      arith,
      await_answers-count os count counts broadcast sent
          (counts.send_same (codes "status") timeout ∙ counts.timeout_same broadcast.1),
      counts.broadcast_same w,
    )
