-- ===== src/Distribute/Run/Session/Reads.antt =====
-- The loops of a run that read the list of servers.
use distributed_system_manag.Base.{
  ℕ, zero, suc, ◌+◌, ◌*◌, ◌<◌, ◌≡◌, sym, ap, ◌∙◌, Option, none, some, List, [], ◌∷◌, ◌++◌, length,
  length-append, append_assoc, replicate, c_str, arith,
}
use distributed_system_manag.Discovery.Lists.{Client}
use distributed_system_manag.Discovery.Lists.Collected.{addresses, Strings}
use distributed_system_manag.Discovery.Lists.Left.{ip_of}
use distributed_system_manag.Discovery.Lists.Released.{
  Rest, Rest-next, with_blocks, round_freed, freed,
}
use distributed_system_manag.Distribute.Run.Session.{count_from, free_from}
use distributed_system_manag.Memory.{Pointer, unset, null, Block, pointers, string, update}
use distributed_system_manag.Memory.Laws.{load-entry, free-some, update_ne}

Strings-same :
    (blocks blocks' : ℕ → Option Block) (b : ℕ) (answers : List (List ℕ × List ℕ))
    → ((a : ℕ) → a < b + 2 * length answers → blocks' a ≡ blocks a)
    → Strings blocks b answers
    → Strings blocks' b answers
Strings-same blocks blocks' b [] same strings = tt
Strings-same blocks blocks' b ((status, ip) ∷ answers) same (s, i, rest) = (
  same b (omega arith) ∙ s,
  same (suc b) (omega arith) ∙ i,
  Strings-same blocks blocks' (suc (suc b)) answers (λ a h. same a (omega (arith, h))) rest,
)

module _ {W : Type 0} (l t b : ℕ) where
  -- The list stays what it is where its pointers and its blocks stay.
  pub Rest-same :
      (answers : List (List ℕ × List ℕ)) (left i : ℕ) (s s' : Client W)
      → Rest l t b answers left i s
      → s'.ip_list ≡ s.ip_list
      → s'.ip_status ≡ s.ip_status
      → ((a : ℕ) → a < b + 2 * length answers → s'.memory.block a ≡ s.memory.block a)
      → Rest l t b answers left i s'
  Rest-same answers left i s s' r list status same = record {
    xs = r.xs;
    ys = r.ys;
    length_xs = r.length_xs;
    length_ys = r.length_ys;
    arrays = record {
      list_at = list ∙ r.arrays.list_at;
      status_at = status ∙ r.arrays.status_at;
      list_block = same l (omega (arith, r.l_below)) ∙ r.arrays.list_block;
      status_block = same t (omega (arith, r.t_below)) ∙ r.arrays.status_block;
    };
    strings = Strings-same s.memory.block s'.memory.block b answers same r.strings;
    l_below = r.l_below;
    t_below = r.t_below;
  }

  pub Rest-step :
      (a : List ℕ × List ℕ) (answers : List (List ℕ × List ℕ)) (left i : ℕ) (s : Client W)
      → Rest l t b (a ∷ answers) left i s
      → Rest l t (suc (suc b)) answers left (suc i) s
  Rest-step a answers left i s r = record {
    xs = r.xs ++ (Pointer.at (suc b) ∷ []);
    ys = r.ys ++ (Pointer.at b ∷ []);
    length_xs = omega (arith, r.length_xs, length-append r.xs (Pointer.at (suc b) ∷ []));
    length_ys = omega (arith, r.length_ys, length-append r.ys (Pointer.at b ∷ []));
    arrays = record {
      list_at = r.arrays.list_at;
      status_at = r.arrays.status_at;
      list_block =
          r.arrays.list_block
          ∙ ap (λ z. some (pointers z))
              (sym (
                append_assoc r.xs (Pointer.at (suc b) ∷ [])
                  (addresses (suc (suc (suc b))) answers ++ (null ∷ replicate left unset))));
      status_block =
          r.arrays.status_block
          ∙ ap (λ z. some (pointers z))
              (sym (
                append_assoc r.ys (Pointer.at b ∷ [])
                  (addresses (suc (suc b)) answers ++ (null ∷ replicate left unset))));
    };
    strings = r.strings.2;
    l_below = omega (arith, r.l_below);
    t_below = omega (arith, r.t_below);
  }

module _ {W : Type 0} (l t : ℕ) where
  pub count_from-eq :
      (b : ℕ) (answers : List (List ℕ × List ℕ)) (left i room : ℕ) (s : Client W)
      → Rest l t b answers left i s
      → length answers < room
      → count_from room i s ≡ some (i + length answers, s)
  unfolding count_from
  count_from-eq b answers left i zero s r h = absurd (omega (arith, h))
  count_from-eq b [] left i (suc room) s r h =
      let loaded =
        load-entry l s.memory r.xs null (replicate left unset) i (sym r.length_xs)
          r.arrays.list_block in
      ground (arith, loaded, r.arrays.list_at)
  count_from-eq b (a ∷ answers) left i (suc room) s r h =
      let loaded =
        load-entry l s.memory r.xs (Pointer.at (suc b))
          (addresses (suc (suc (suc b))) answers ++ (null ∷ replicate left unset)) i
          (sym r.length_xs) r.arrays.list_block in
      let rest =
        count_from-eq (suc (suc b)) answers left (suc i) room s
          (Rest-step l t b a answers left i s r) (omega (arith, h)) in
      ground (arith, loaded, r.arrays.list_at, rest)

  free_from-round :
      (b : ℕ) (a : List ℕ × List ℕ) (answers : List (List ℕ × List ℕ)) (left i room : ℕ)
      (s : Client W)
      → Rest l t b (a ∷ answers) left i s
      → free_from (suc room) i s ≡ free_from room (suc i) (round_freed b s)
  unfolding free_from
  free_from-round b a answers left i room s r =
      let m = s.memory in
      let loaded =
        load-entry l m r.xs (Pointer.at (suc b))
          (addresses (suc (suc (suc b))) answers ++ (null ∷ replicate left unset)) i
          (sym r.length_xs) r.arrays.list_block in
      let freed_ip = free-some (suc b) m (string (ip_of a)) r.strings.1 in
      let m' = record m { block = update m.block (suc b) none } in
      let loaded' =
        load-entry t m' r.ys (Pointer.at b)
          (addresses (suc (suc b)) answers ++ (null ∷ replicate left unset)) i (sym r.length_ys)
          (update_ne m.block (suc b) t none (omega (arith, r.t_below)) ∙ r.arrays.status_block) in
      let freed_status =
        free-some b m' (string (c_str a.0))
          (update_ne m.block (suc b) b none (λ x. absurd (omega (arith, x))) ∙ r.strings.0) in
      ground (arith, loaded, freed_ip, loaded', freed_status, r.arrays.list_at, r.arrays.status_at)

  pub free_from-eq :
      (b : ℕ) (answers : List (List ℕ × List ℕ)) (left i room : ℕ) (s : Client W)
      → Rest l t b answers left i s
      → length answers < room
      → free_from room i s ≡ some (tt, with_blocks (freed b answers s.memory.block) s)
  unfolding free_from freed
  free_from-eq b answers left i zero s r h = absurd (omega (arith, h))
  free_from-eq b [] left i (suc room) s r h =
      let loaded =
        load-entry l s.memory r.xs null (replicate left unset) i (sym r.length_xs)
          r.arrays.list_block in
      ground (arith, loaded, r.arrays.list_at)
  free_from-eq b (a ∷ answers) left i (suc room) s r h =
      free_from-round b a answers left i room s r
      ∙ free_from-eq (suc (suc b)) answers left (suc i) room (round_freed b s)
          (Rest-next l t b a answers left i s r) (omega (arith, h))
