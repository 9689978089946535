-- ===== src/Distribute/Run/Session.antt =====
-- `handle_distributive_systems` of
-- `Clients Commands/distributedcomputing/linuxdistributivecomputing.cpp` on the client's memory, with
-- `findTotalConnections` and `freeMemory`. What is read and printed is left out; the timer too.
pub mod Reads
pub mod Started
pub mod Freed
pub mod Divided
pub mod Released
pub mod Fault
use distributed_system_manag.Base.{
  ℕ, zero, suc, Bool, Option, none, some, List, [], ◌∷◌, map, ◌==◌, if◌then◌else◌, ℤ, pos, pos_part,
}
use distributed_system_manag.Discovery.{DiscoveryOs, max_ips}
use distributed_system_manag.Discovery.Lists.{Client, reading, writing, free, malloc, send_request}
use distributed_system_manag.Distribute.Chunks.{Chunk}
use distributed_system_manag.Distribute.Local.{Args}
use distributed_system_manag.Distribute.Run.{Job, local, network, args_of, final_result}
use distributed_system_manag.Memory
use distributed_system_manag.Memory.{
  Pointer, is_null, Block, numbers, arguments, Cmd, ◌>>=◌, ◌>>◌, return,
}

module _ {W : Type 0} where
  -- The loop of `findTotalConnections` from index `i`, with `room` entries of the array from there on.
  unfoldable pub count_from : (room i : ℕ) → Cmd (Client W) ℕ
  count_from zero i = λ s. none
  count_from (suc room) i = reading (λ s. Memory.load s.ip_list i s.memory) >>= λ ip.
      let rest = count_from room (suc i) in if is_null ip then return i else rest

  unfoldable pub find_total_connections : Cmd (Client W) ℕ
  find_total_connections = count_from max_ips 0

  -- The loop of `freeMemory`.
  unfoldable pub free_from : (room i : ℕ) → Cmd (Client W) (Unit {0})
  free_from zero i = λ s. none
  free_from (suc room) i = reading (λ s. Memory.load s.ip_list i s.memory) >>= λ ip.
      let rest = (do
        free ip
        status ← reading (λ s. Memory.load s.ip_status i s.memory)
        free status
        free_from room (suc i)) in
      if is_null ip then return tt else rest

  unfoldable pub free_memory : Cmd (Client W) (Unit {0})
  free_memory = free_from max_ips 0 >> λ s.
      (free s.ip_list >> free s.ip_status >> free s.train_offset >> free s.train_chunk_size) s

  -- What `divideFileIntoChunks` does to the two arrays; `none` where it returns early.
  unfoldable pub write_chunks : Option (List Chunk) → Cmd (Client W) (Unit {0})
  write_chunks none = return tt
  write_chunks (some chunks) =
      writing (λ s. Memory.store_numbers s.train_offset (map (λ c. pos c.offset) chunks) s.memory)
      >> writing (λ s. Memory.store_numbers s.train_chunk_size (map (λ c. c.size) chunks) s.memory)

  -- What is put into `dis_args`, and who computes it. An offset is not negative.
  unfoldable pub read_job : List ℕ → List ℕ → ℕ → Cmd (Client W) Job
  unfolding args_of
  read_job code train i = do
    p ← reading (λ s. Memory.load s.ip_list i s.memory)
    ip ← reading (λ s. Memory.load_text p s.memory)
    offset ← reading (λ s. Memory.load_number s.train_offset i s.memory)
    size ← reading (λ s. Memory.load_number s.train_chunk_size i s.memory)
    let c : Chunk = record { offset = pos_part offset; size = size }
    return (if i == 0 then local (args_of code train c) else network ip (args_of code train c))

module _ {W : Type 0} (os : DiscoveryOs W) where
  -- The loop that starts the nodes' work: `rounds` rounds from index `i`. The result of `malloc` is
  -- not looked at.
  unfoldable pub start_from : List ℕ → List ℕ → (rounds i : ℕ) → Cmd (Client W) (List Job)
  start_from code train zero i = return []
  start_from code train (suc rounds) i = malloc os arguments >>= λ dis_args.
      let rest = (do
        job ← read_job code train i
        jobs ← start_from code train rounds (suc i)
        return (job ∷ jobs)) in
      if is_null dis_args then (λ s. none) else rest

  -- `divide` is `divideFileIntoChunks` on the training file. `compute` gives the results that the nodes' threads return for the
  -- jobs, in their order.
  unfoldable pub handle_distributive_systems :
      (divide : ℕ → Option (List Chunk))
      → (compute : List Job → W → List ℤ × W) → (code train : List ℕ) → Cmd (Client W) ℤ
  handle_distributive_systems divide compute code train = do
    send_request os
    total_connections ← find_total_connections
    offsets ← malloc os (numbers none)
    (λ s. some (tt, record s { train_offset = offsets }))
    sizes ← malloc os (numbers none)
    (λ s. some (tt, record s { train_chunk_size = sizes }))
    write_chunks (divide total_connections)
    jobs ← start_from code train total_connections 0
    results ← (λ s. let (values, w) = compute jobs s.world in some (values, record s { world = w }))
    free_memory
    return (final_result results)
