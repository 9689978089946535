-- ===== src/Distribute/Run/Session/Divided.antt =====
-- A run between the search and the start of the jobs.
use distributed_system_manag.Base.{
  ℕ, suc, ◌+◌, ◌*◌, ◌≤◌, ◌≡◌, ◌≢◌, refl, true, Option, none, some, List, [], map, length, arith,
}
use distributed_system_manag.Discovery.{DiscoveryOs}
use distributed_system_manag.Discovery.Lists.{Client}
use distributed_system_manag.Discovery.Lists.Left.{Listing}
use distributed_system_manag.Discovery.Lists.Released.{Rest-start, with_blocks}
use distributed_system_manag.Distribute.Chunks.{Chunk}
use distributed_system_manag.Distribute.Run.Session.{write_chunks}
use distributed_system_manag.Distribute.Run.Session.Reads.{Rest-same}
use distributed_system_manag.Distribute.Run.Session.Started.{offset_of, size_of, Loaded}
use distributed_system_manag.Memory.{Pointer, Block, numbers, alloc, update}
use distributed_system_manag.Memory.Laws.{store_numbers-some}

-- From the two arrays of integers on.
module _ {W : Type 0} (os : DiscoveryOs W) (always : (w : W) → (os.malloc w).0 ≡ true) (base : ℕ)
    (before : ℕ → Option Block) (answers : List (List ℕ × List ℕ)) (s : Client W)
    (listing : Listing base answers before s)
    (grown : suc (suc base) + 2 * length answers ≤ s.memory.next) (chunks : List Chunk)
    (same_length : length answers ≡ length chunks) where
  abbrev pub o : ℕ
  o = s.memory.next

  abbrev pub given_offsets : Client W
  given_offsets = record s {
    world = (os.malloc s.world).1;
    memory = alloc (numbers none) s.memory;
    train_offset = Pointer.at o;
  }

  abbrev pub given_sizes : Client W
  given_sizes = record s {
    world = (os.malloc (os.malloc s.world).1).1;
    memory = alloc (numbers none) (alloc (numbers none) s.memory);
    train_offset = Pointer.at o;
    train_chunk_size = Pointer.at (suc o);
  }

  abbrev pub divided : Client W
  divided =
      with_blocks
        (update (update given_sizes.memory.block o (some (numbers (some (map offset_of chunks)))))
          (suc o) (some (numbers (some (map size_of chunks)))))
        given_sizes

  pub divided-other : (a : ℕ) → a ≢ o → a ≢ suc o → divided.memory.block a ≡ s.memory.block a
  unfolding alloc
  divided-other a h h' = ground arith

  pub write_chunks-eq : write_chunks (some chunks) given_sizes ≡ some (tt, divided)
  unfolding write_chunks alloc
  write_chunks-eq =
      let m = given_sizes.memory in
      let offsets = store_numbers-some o m none (map offset_of chunks) (ground arith) in
      let m' = record m {
        block = update m.block o (some (numbers (some (map offset_of chunks))));
      } in
      let sizes = store_numbers-some (suc o) m' none (map size_of chunks) (ground arith) in
      ground (arith, offsets, sizes)

  pub divided-Loaded :
      Loaded base (suc base) (suc (suc base)) o (suc o) answers chunks listing.left 0 divided
  unfolding alloc
  divided-Loaded = record {
    rest =
        Rest-same base (suc base) (suc (suc base)) answers listing.left 0 s divided
          (Rest-start base before answers s listing) refl refl
          (λ a h. divided-other a (omega (arith, h, grown)) (omega (arith, h, grown)));
    offsets = [];
    sizes = [];
    length_offsets = refl;
    length_sizes = refl;
    offset_at = refl;
    size_at = refl;
    offset_block = (ground arith);
    size_block = (ground arith);
    list_old = omega (arith, grown);
    offset_old = omega arith;
    size_old = omega arith;
  }
