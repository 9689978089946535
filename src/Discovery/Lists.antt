-- ===== src/Discovery/Lists.antt =====
-- The search and the list command on the client's memory: `Clients Commands/list connections.cpp`
-- with its pointers.
pub mod Collected
pub mod Filled
pub mod Left
pub mod Released
pub mod Dangling
use distributed_system_manag.Base.{
  ℕ, zero, suc, Bool, true, false, Option, none, some, List, [], ◌∷◌, ltb, if◌then◌else◌, ◌||◌,
  replicate, take, c_str, codes,
}
use mathlib.Core.Option
use distributed_system_manag.Discovery.{DiscoveryOs, max_ips}
use distributed_system_manag.Memory
use distributed_system_manag.Memory.{
  Pointer, unset, null, is_null, Block, pointers, string, Memory, alloc, Cmd, ◌>>=◌, ◌>>◌, return,
}

-- The globals of the client, its memory and the world.
pub record Client (W : Type 0) : Type 0 where
  pub world : W
  pub memory : Memory
  pub ip_list : Pointer
  pub ip_status : Pointer
  pub train_offset : Pointer
  pub train_chunk_size : Pointer

module _ {W : Type 0} where
  -- A use of the memory by the name that it has in the module `Memory`.
  abbrev pub reading : {A : Type 0} → (Client W → Option A) → Cmd (Client W) A
  reading f s = Option.map (λ a. (a, s)) (f s)

  abbrev pub writing : (Client W → Option Memory) → Cmd (Client W) (Unit {0})
  writing f s = Option.map (λ m. (tt, record s { memory = m })) (f s)

  abbrev pub free : Pointer → Cmd (Client W) (Unit {0})
  free p = writing (λ s. Memory.free p s.memory)

  -- `ip_status[count] = receivedStatus; ip_list[count] = ip;`, and the rounds that follow.
  unfoldable pub keep_pointers : ℕ → Pointer → Pointer → Cmd (Client W) ℕ → Cmd (Client W) ℕ
  keep_pointers count received_status ip rest = do
    writing (λ s. Memory.store s.ip_status count received_status s.memory)
    writing (λ s. Memory.store s.ip_list count ip s.memory)
    rest

module _ {W : Type 0} (os : DiscoveryOs W) where
  unfoldable pub malloc : Block → Cmd (Client W) Pointer
  malloc b s =
      let (has, w) = os.malloc s.world in
      if has
      then some (Pointer.at s.memory.next, record s { world = w; memory = alloc b s.memory })
      else some (null, record s { world = w })

  abbrev pub close : Cmd (Client W) (Unit {0})
  close s = some (tt, record s { world = os.close s.world })

  -- By the second `malloc`'s result.
  unfoldable pub keep_ip : ℕ → Pointer → Cmd (Client W) ℕ → Pointer → Cmd (Client W) ℕ
  unfolding keep_pointers
  keep_ip count received_status rest ip =
      if is_null ip
      then free received_status >> return count
      else keep_pointers count received_status ip rest

  -- By the first `malloc`'s result.
  unfoldable pub keep_status : ℕ → List ℕ → Cmd (Client W) ℕ → Pointer → Cmd (Client W) ℕ
  unfolding malloc keep_ip
  keep_status count ip rest received_status =
      if is_null received_status
      then return count
      else malloc (string (take 15 ip)) >>= keep_ip count received_status rest

  unfoldable pub keep_answer : ℕ → Cmd (Client W) ℕ → Option (List ℕ × List ℕ) → Cmd (Client W) ℕ
  unfolding malloc keep_status c_str
  keep_answer count rest none = return count
  keep_answer count rest (some (status, ip)) =
      malloc (string (c_str status)) >>= keep_status count ip rest

  abbrev pub receive_from : Cmd (Client W) (Option (List ℕ × List ℕ))
  receive_from s =
      let (answer, w) = os.receive_from s.world in some (answer, record s { world = w })

  -- The loop, with `room` entries free; the result is `count`.
  unfoldable pub collect : (room count : ℕ) → Cmd (Client W) ℕ
  unfolding keep_answer
  collect zero count = receive_from >>= λ _. return count
  collect (suc room) count = receive_from >>= keep_answer count (collect room (suc count))

  -- "NULL terminate safely".
  unfoldable pub terminate : ℕ → Cmd (Client W) (Unit {0})
  terminate count =
      if ltb count max_ips
      then (do
        writing (λ s. Memory.store s.ip_list count null s.memory)
        writing (λ s. Memory.store s.ip_status count null s.memory))
      else return tt

  -- By the globals, once both arrays have been asked for.
  unfoldable pub fill_lists : Cmd (Client W) (Unit {0})
  fill_lists s =
      (if is_null s.ip_list || is_null s.ip_status
          then close >> free s.ip_list >> free s.ip_status
          else (collect max_ips 0 >>= λ count. close >> terminate count))
        s

  unfoldable pub receive_answers : Cmd (Client W) (Unit {0})
  receive_answers = do
    list ← malloc (pointers (replicate max_ips unset))
    (λ s. some (tt, record s { ip_list = list }))
    status ← malloc (pointers (replicate max_ips unset))
    (λ s. some (tt, record s { ip_status = status }))
    fill_lists

  -- By the results of `setsockopt` and `sendto`.
  unfoldable pub await_answers : Cmd (Client W) (Unit {0})
  await_answers s =
      let (broadcast, w1) = os.set_broadcast s.world in
      let (sent, w2) = os.send_to (codes "status") (os.set_timeout w1).1 in
      if broadcast
      then (if sent then receive_answers else close) (record s { world = w2 })
      else close (record s { world = w1 })

  -- `sendRequest`, with the destructor of the socket.
  unfoldable pub send_request : Cmd (Client W) (Unit {0})
  send_request = await_answers >> close

module _ {W : Type 0} where
  -- The loop of `handle_list_connections` from index `i`, with `room` entries of the array from
  -- there on, and what it prints.
  unfoldable pub print_from : (room i : ℕ) → Cmd (Client W) (List (List ℕ))
  print_from zero i = λ s. none
  print_from (suc room) i = reading (λ s. Memory.load s.ip_list i s.memory) >>= λ ip.
      let rest = (do
        line ← reading (λ s. Memory.load_text ip s.memory)
        free ip
        status ← reading (λ s. Memory.load s.ip_status i s.memory)
        free status
        lines ← print_from room (suc i)
        return (line ∷ lines)) in
      if is_null ip then return [] else rest

-- `handle_list_connections`: what is printed below its heading, and `none` where there is no list.
unfoldable pub handle_list_connections :
    {W : Type 0} → DiscoveryOs W → Cmd (Client W) (Option (List (List ℕ)))
handle_list_connections os = send_request os >> λ s.
    (if is_null s.ip_list then return none else (do
      lines ← print_from max_ips 0
      free s.ip_list
      free s.ip_status
      return (some lines)))
      s
