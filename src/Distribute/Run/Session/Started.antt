-- ===== src/Distribute/Run/Session/Started.antt =====
-- The loop of a run that starts the nodes' work.
use distributed_system_manag.Base.{
  ℕ, zero, suc, ◌+◌, ◌*◌, ◌<◌, ◌≤◌, ◌≡◌, refl, sym, ap, ◌∙◌, true, some, List, [], ◌∷◌, ◌++◌, map,
  length, length-append, append_assoc, replicate, arith, ℤ, pos, if◌then◌else◌, ◌==◌, Bool-cases,
  inl, inr, ltb, ltb→lt,
}
use distributed_system_manag.Discovery.{DiscoveryOs}
use distributed_system_manag.Discovery.Lists.{Client, malloc}
use distributed_system_manag.Discovery.Lists.Collected.{addresses, malloc-has}
use distributed_system_manag.Discovery.Lists.Left.{ip_of}
use distributed_system_manag.Discovery.Lists.Released.{Rest}
use distributed_system_manag.Distribute.Chunks.{Chunk}
use distributed_system_manag.Distribute.Run.{start_jobs, Job, args_of, local, network}
use distributed_system_manag.Distribute.Run.Session.{read_job, start_from}
use distributed_system_manag.Distribute.Run.Session.Reads.{Rest-same, Rest-step}
use distributed_system_manag.Memory.{Pointer, unset, null, numbers, arguments, alloc, return}
use distributed_system_manag.Memory.Laws.{
  >>=-some, load-entry, load_text-string, load_number-entry, update_ne,
}

abbrev pub offset_of : Chunk → ℤ
offset_of c = pos c.offset

abbrev pub size_of : Chunk → ℤ
size_of c = c.size

-- Before a round: the list and both arrays of integers from `i` on.
pub record Loaded {W : Type 0} (l t b o z : ℕ) (answers : List (List ℕ × List ℕ))
    (chunks : List Chunk) (left i : ℕ) (s : Client W) : Type 0 where
  pub rest : Rest l t b answers left i s
  pub offsets : List ℤ
  pub sizes : List ℤ
  pub length_offsets : length offsets ≡ i
  pub length_sizes : length sizes ≡ i
  pub offset_at : s.train_offset ≡ Pointer.at o
  pub size_at : s.train_chunk_size ≡ Pointer.at z
  pub offset_block : s.memory.block o ≡ some (numbers (some (offsets ++ map offset_of chunks)))
  pub size_block : s.memory.block z ≡ some (numbers (some (sizes ++ map size_of chunks)))
  pub list_old : b + 2 * length answers ≤ s.memory.next
  pub offset_old : o < s.memory.next
  pub size_old : z < s.memory.next

module _ {W : Type 0} (os : DiscoveryOs W) where
  abbrev pub with_arguments : Client W → Client W
  with_arguments s = record s { world = (os.malloc s.world).1; memory = alloc arguments s.memory }

  -- The state once `rounds` structures of arguments have been allocated.
  pub started : ℕ → Client W → Client W
  started zero s = s
  started (suc rounds) s = started rounds (with_arguments s)

  pub started-old :
      (rounds : ℕ) (s : Client W) (a : ℕ)
      → a < s.memory.next
      → (started rounds s).memory.block a ≡ s.memory.block a
  unfolding started alloc
  started-old zero s a h = refl
  started-old (suc rounds) s a h =
      started-old rounds (with_arguments s) a (omega (arith, h))
      ∙ update_ne s.memory.block s.memory.next a (some arguments) (omega (arith, h))

  pub started-new :
      (rounds : ℕ) (s : Client W) (a : ℕ)
      → s.memory.next ≤ a
      → a < s.memory.next + rounds
      → (started rounds s).memory.block a ≡ some arguments
  unfolding started alloc
  started-new zero s a h h' = absurd (omega (arith, h, h'))
  started-new (suc rounds) s a h h' = elim (Bool-cases (ltb a (suc s.memory.next))) [
    | inl first ↦
        started-old rounds (with_arguments s) a (ltb→lt _ _ first) ∙ ground (arith, first, h)
    | inr later ↦
        started-new rounds (with_arguments s) a (ground (arith, later)) (omega (arith, h'))
  ]

  pub started-above :
      (rounds : ℕ) (s : Client W) (a : ℕ)
      → s.memory.next + rounds ≤ a
      → (started rounds s).memory.block a ≡ s.memory.block a
  unfolding started alloc
  started-above zero s a h = refl
  started-above (suc rounds) s a h =
      started-above rounds (with_arguments s) a (omega (arith, h))
      ∙ update_ne s.memory.block s.memory.next a (some arguments) (omega (arith, h))

  pub started-next :
      (rounds : ℕ) (s : Client W) → (started rounds s).memory.next ≡ s.memory.next + rounds
  unfolding started alloc
  started-next zero s = omega arith
  started-next (suc rounds) s = started-next rounds (with_arguments s) ∙ omega arith

  -- The globals stay.
  pub started-list : (rounds : ℕ) (s : Client W) → (started rounds s).ip_list ≡ s.ip_list
  unfolding started
  started-list zero s = refl
  started-list (suc rounds) s = started-list rounds (with_arguments s)

  pub started-status : (rounds : ℕ) (s : Client W) → (started rounds s).ip_status ≡ s.ip_status
  unfolding started
  started-status zero s = refl
  started-status (suc rounds) s = started-status rounds (with_arguments s)

  pub started-offset :
      (rounds : ℕ) (s : Client W) → (started rounds s).train_offset ≡ s.train_offset
  unfolding started
  started-offset zero s = refl
  started-offset (suc rounds) s = started-offset rounds (with_arguments s)

  pub started-size :
      (rounds : ℕ) (s : Client W) → (started rounds s).train_chunk_size ≡ s.train_chunk_size
  unfolding started
  started-size zero s = refl
  started-size (suc rounds) s = started-size rounds (with_arguments s)

module _ {W : Type 0} (os : DiscoveryOs W) (always : (w : W) → (os.malloc w).0 ≡ true)
    (code train : List ℕ) (l t o z : ℕ) where
  Loaded-malloc :
      (b : ℕ) (answers : List (List ℕ × List ℕ)) (chunks : List Chunk) (left i : ℕ) (s : Client W)
      → Loaded l t b o z answers chunks left i s
      → Loaded l t b o z answers chunks left i (with_arguments os s)
  unfolding alloc
  Loaded-malloc b answers chunks left i s r = record {
    rest = Rest-same l t b answers left i s (with_arguments os s) r.rest refl refl (λ a h.
        update_ne s.memory.block s.memory.next a (some arguments) (omega (arith, h, r.list_old)));
    offsets = r.offsets;
    sizes = r.sizes;
    length_offsets = r.length_offsets;
    length_sizes = r.length_sizes;
    offset_at = r.offset_at;
    size_at = r.size_at;
    offset_block =
        update_ne s.memory.block s.memory.next o (some arguments) (omega (arith, r.offset_old))
        ∙ r.offset_block;
    size_block =
        update_ne s.memory.block s.memory.next z (some arguments) (omega (arith, r.size_old))
        ∙ r.size_block;
    list_old = omega (arith, r.list_old);
    offset_old = omega (arith, r.offset_old);
    size_old = omega (arith, r.size_old);
  }

  Loaded-step :
      (b : ℕ) (a : List ℕ × List ℕ) (answers : List (List ℕ × List ℕ)) (c : Chunk)
      (chunks : List Chunk) (left i : ℕ) (s : Client W)
      → Loaded l t b o z (a ∷ answers) (c ∷ chunks) left i s
      → Loaded l t (suc (suc b)) o z answers chunks left (suc i) s
  Loaded-step b a answers c chunks left i s r = record {
    rest = Rest-step l t b a answers left i s r.rest;
    offsets = r.offsets ++ (offset_of c ∷ []);
    sizes = r.sizes ++ (size_of c ∷ []);
    length_offsets = omega (arith, r.length_offsets, length-append r.offsets (offset_of c ∷ []));
    length_sizes = omega (arith, r.length_sizes, length-append r.sizes (size_of c ∷ []));
    offset_at = r.offset_at;
    size_at = r.size_at;
    offset_block =
        r.offset_block
        ∙ ap (λ k. some (numbers (some k)))
            (sym (append_assoc r.offsets (offset_of c ∷ []) (map offset_of chunks)));
    size_block =
        r.size_block
        ∙ ap (λ k. some (numbers (some k)))
            (sym (append_assoc r.sizes (size_of c ∷ []) (map size_of chunks)));
    list_old = omega (arith, r.list_old);
    offset_old = r.offset_old;
    size_old = r.size_old;
  }

  abbrev job_of : ℕ → List ℕ × List ℕ → Chunk → Job
  job_of i a c =
      if i == 0 then local (args_of code train c) else network (ip_of a) (args_of code train c)

  read_job-eq :
      (b : ℕ) (a : List ℕ × List ℕ) (answers : List (List ℕ × List ℕ)) (c : Chunk)
      (chunks : List Chunk) (left i : ℕ) (s : Client W)
      → Loaded l t b o z (a ∷ answers) (c ∷ chunks) left i s
      → read_job code train i s ≡ some (job_of i a c, s)
  unfolding read_job
  read_job-eq b a answers c chunks left i s r =
      let loaded =
        load-entry l s.memory r.rest.xs (Pointer.at (suc b))
          (addresses (suc (suc (suc b))) answers ++ (null ∷ replicate left unset)) i
          (sym r.rest.length_xs) r.rest.arrays.list_block in
      let line = load_text-string (suc b) s.memory (ip_of a) r.rest.strings.1 in
      let offset =
        load_number-entry o s.memory r.offsets (offset_of c) (map offset_of chunks) i
          (sym r.length_offsets) r.offset_block in
      let size =
        load_number-entry z s.memory r.sizes (size_of c) (map size_of chunks) i (sym r.length_sizes)
          r.size_block in
      ground (arith, loaded, line, offset, size, r.rest.arrays.list_at, r.offset_at, r.size_at)

  pub start_from-eq :
      (b : ℕ) (answers : List (List ℕ × List ℕ)) (chunks : List Chunk) (left i : ℕ) (s : Client W)
      → length answers ≡ length chunks
      → Loaded l t b o z answers chunks left i s
      → start_from os code train (length answers) i s
        ≡ some (start_jobs code train i (map ip_of answers) chunks, started os (length answers) s)
  unfolding start_from start_jobs started
  start_from-eq b [] [] left i s same r = refl
  start_from-eq b [] (c ∷ chunks) left i s same r = absurd (omega (arith, same))
  start_from-eq b (a ∷ answers) [] left i s same r = absurd (omega (arith, same))
  start_from-eq b (a ∷ answers) (c ∷ chunks) left i s same r =
      let s' = with_arguments os s in
      let r' = Loaded-malloc b (a ∷ answers) (c ∷ chunks) left i s r in
      let given = malloc-has os arguments s (always s.world) in
      let job = read_job-eq b a answers c chunks left i s' r' in
      let rest =
        start_from-eq (suc (suc b)) answers chunks left (suc i) s' (omega (arith, same))
          (Loaded-step b a answers c chunks left i s' r') in
      >>=-some (malloc os arguments) _ s given
      ∙ >>=-some (read_job code train i) _ s' job
      ∙ >>=-some (start_from os code train (length answers) (suc i))
          (λ jobs. return (job_of i a c ∷ jobs)) s' rest
