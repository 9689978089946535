-- ===== src/Windows/Run/Session.antt =====
-- `handle_distributive_systems` of
-- `Clients Commands/distributedcomputing/windowsdistributivecomputing.cpp` on the client's memory, with
-- `findTotalConnections` and `freeMemory`. What is read and printed is left out; the timer too.
pub mod Linux
use distributed_system_manag.Base.{ℕ, Option, List, length, ltb, if◌then◌else◌, none, some, ℤ}
use distributed_system_manag.Discovery.{DiscoveryOs}
use distributed_system_manag.Discovery.Lists.{Client, malloc, send_request}
use distributed_system_manag.Distribute.Chunks.{Chunk}
use distributed_system_manag.Distribute.Run.{Job, final_result}
use distributed_system_manag.Distribute.Run.Session
use distributed_system_manag.Distribute.Run.Session.{write_chunks, start_from}
use distributed_system_manag.Memory.{numbers, Cmd, ◌>>=◌, ◌>>◌, return}
use distributed_system_manag.Windows.Run.{max_futures}

-- The loops over the lists are the Linux client's.
unfoldable pub find_total_connections : {W : Type 0} → Cmd (Client W) ℕ
find_total_connections = Session.find_total_connections

unfoldable pub free_memory : {W : Type 0} → Cmd (Client W) (Unit {0})
free_memory = Session.free_memory

module _ {W : Type 0} (os : DiscoveryOs W) where
  -- The loop that starts the nodes' work. It writes a future for each node: behind the last entry of
  -- `futures` it writes memory that is not its own.
  unfoldable pub start_futures :
      List ℕ → List ℕ → (total_connections : ℕ) → Cmd (Client W) (List Job)
  start_futures code train total_connections =
      if ltb max_futures total_connections
      then (λ s. none)
      else start_from os code train total_connections 0

  -- `divide` and `compute` are as for the Linux client.
  unfoldable pub handle_distributive_systems :
      (divide : ℕ → Option (List Chunk))
      → (compute : List Job → W → List ℤ × W) → (code train : List ℕ) → Cmd (Client W) ℤ
  unfolding find_total_connections free_memory start_futures
  handle_distributive_systems divide compute code train = do
    send_request os
    total_connections ← find_total_connections
    offsets ← malloc os (numbers none)
    (λ s. some (tt, record s { train_offset = offsets }))
    sizes ← malloc os (numbers none)
    (λ s. some (tt, record s { train_chunk_size = sizes }))
    write_chunks (divide total_connections)
    jobs ← start_futures code train total_connections
    results ← (λ s. let (values, w) = compute jobs s.world in some (values, record s { world = w }))
    free_memory
    return (final_result results)
