-- ===== src/Windows/Run/Session/Linux.antt =====
-- The whole run of the Windows client beside that of the Linux client.
use distributed_system_manag.Base.{ℕ, Option, none, some, List, ℤ}
use distributed_system_manag.Discovery.{DiscoveryOs}
use distributed_system_manag.Discovery.Lists.{Client, malloc}
use distributed_system_manag.Distribute.Chunks
use distributed_system_manag.Distribute.Chunks.{Chunk}
use distributed_system_manag.Distribute.Run.{Job, final_result}
use distributed_system_manag.Distribute.Run.Session
use distributed_system_manag.Distribute.Run.Session.{write_chunks, free_memory}
use distributed_system_manag.Memory.{numbers, Cmd, ◌>>=◌, ◌>>◌, return}

module _ {W : Type 0} (os : DiscoveryOs W) (compute : List Job → W → List ℤ × W)
    (code train : List ℕ) where
  -- What both clients do once the servers are counted, by the chunks and by how the work is started.
  abbrev after_count : Option (List Chunk) → Cmd (Client W) (List Job) → Cmd (Client W) ℤ
  after_count chunks start = do
    offsets ← malloc os (numbers none)
    (λ s. some (tt, record s { train_offset = offsets }))
    sizes ← malloc os (numbers none)
    (λ s. some (tt, record s { train_chunk_size = sizes }))
    write_chunks chunks
    jobs ← start
    results ← (λ s. let (values, w) = compute jobs s.world in some (values, record s { world = w }))
    free_memory
    return (final_result results)
