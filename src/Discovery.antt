-- ===== src/Discovery.antt =====
-- The search for servers: `Clients Commands/list connections.cpp`, and `findTotalConnections` of
-- `Clients Commands/distributedcomputing/linuxdistributivecomputing.cpp`.
pub mod Laws
pub mod Lists
pub mod Closes
use distributed_system_manag.Base.{
  ℕ, zero, suc, Bool, true, false, Option, none, some, List, [], ◌∷◌, ltb, leb, if◌then◌else◌,
  length, replicate, set, codes, take, c_str, map,
}
use mathlib.Core.Option

-- The system's calls. `receive_from` gives a datagram of at most 8191 bytes with the text of its
-- sender's address, and `none` once the timeout of a second has passed or on a failure. `malloc`
-- tells whether there is memory.
pub record DiscoveryOs (W : Type 0) : Type 0 where
  pub set_broadcast : W → Bool × W
  pub set_timeout : W → Bool × W
  pub send_to : List ℕ → W → Bool × W
  pub malloc : W → Bool × W
  pub receive_from : W → Option (List ℕ × List ℕ) × W
  pub close : W → W

abbrev pub max_ips : ℕ
max_ips = 300

-- An entry of `ip_list` or `ip_status`: what `malloc` left there, `NULL`, or a string.
pub data Slot : Type 0 where
  unset null : Slot
  text : List ℕ → Slot

pub record Found : Type 0 where
  pub ip_list : List Slot
  pub ip_status : List Slot
  pub count : ℕ

unfoldable pub add_server : List ℕ × List ℕ → Found → Found
unfolding c_str
add_server (status, ip) f = record {
  ip_list = set f.ip_list f.count (text (take 15 ip));
  ip_status = set f.ip_status f.count (text (c_str status));
  count = suc f.count;
}

-- "NULL terminate safely".
unfoldable pub terminate : Found → Found
terminate f =
    if ltb f.count max_ips
    then record f { ip_list = set f.ip_list f.count null; ip_status = set f.ip_status f.count null }
    else f

module _ {W : Type 0} (os : DiscoveryOs W) where
  -- The loop, with `room` entries free: at none, one more answer ends it.
  unfoldable pub collect : (room : ℕ) → Found → W → Found × W
  unfolding add_server
  collect zero f w = (f, (os.receive_from w).1)
  collect (suc room) f w =
      let (answer, w1) = os.receive_from w in
      let (status_memory, w2) = os.malloc w1 in
      let (ip_memory, w3) = os.malloc w2 in
      elim answer [
        | none ↦ (f, w1)
        | some a ↦
            let rest = collect room (add_server a f) w3 in
            if status_memory then (if ip_memory then rest else (f, w3)) else (f, w2)
      ]

  abbrev pub no_servers : Found
  no_servers = record {
    ip_list = replicate max_ips unset;
    ip_status = replicate max_ips unset;
    count = 0;
  }

  -- By whether there is memory for the two arrays. The loop's result is looked at where there is.
  unfoldable pub leave_list : Bool → Bool → W → Found × W → Option Found × W
  unfolding terminate
  leave_list true true w (f, w') = (some (terminate f), os.close w')
  leave_list true false w c = (none, os.close w)
  leave_list false status_memory w c = (none, os.close w)

  -- From the two arrays' allocation on.
  unfoldable pub receive_answers : W → Option Found × W
  unfolding collect leave_list
  receive_answers w =
      let (list_memory, w1) = os.malloc w in
      let (status_memory, w2) = os.malloc w1 in
      leave_list list_memory status_memory w2 (collect max_ips no_servers w2)

  -- By the results of `setsockopt` and `sendto`, with the state after each.
  unfoldable pub await_answers : Bool × W → Bool × W → Option Found × W
  unfolding receive_answers
  await_answers (false, w1) _ = (none, os.close w1)
  await_answers (true, w1) (false, w2) = (none, os.close w2)
  await_answers (true, w1) (true, w2) = receive_answers w2

  -- `sendRequest`; `none` where it returns without a list. The result of the timeout's `setsockopt`
  -- is printed only. At each return the socket's destructor closes it once more.
  unfoldable pub send_request : W → Option Found × W
  unfolding await_answers
  send_request w =
      let broadcast = os.set_broadcast w in
      let (found, w') =
        await_answers broadcast (os.send_to (codes "status") (os.set_timeout broadcast.1).1) in
      (found, os.close w')

-- The loops `while (ip_list[i] != NULL)`: the strings before the first `NULL`. `none`: the loop
-- reads an entry that nothing has written, or one outside the array.
unfoldable pub entries : List Slot → Option (List (List ℕ))
entries [] = none
entries (unset ∷ slots) = none
entries (null ∷ slots) = some []
entries (text ip ∷ slots) = Option.map (◌∷◌ ip) (entries slots)

unfoldable pub find_total_connections : List Slot → Option ℕ
unfolding entries
find_total_connections slots = Option.map length (entries slots)

-- What `handle_list_connections` prints below its heading; `none` also where there is no list.
unfoldable pub handle_list_connections : Option Found → Option (List (List ℕ))
unfolding entries
handle_list_connections none = none
handle_list_connections (some f) = entries f.ip_list
