-- ===== src/Discovery/Lists/Left/Steps.antt =====
-- The steps of `sendRequest` before and behind its loop, on the client's memory.
use distributed_system_manag.Base.{
  ℕ, suc, ◌<◌, ◌≡◌, ◌≢◌, refl, sym, ◌∙◌, Bool, true, false, some, List, [], ◌∷◌, ◌++◌, length,
  replicate, arith, codes,
}
use mathlib.Core.Option.{some-injective}
use distributed_system_manag.Discovery
use distributed_system_manag.Discovery.{
  DiscoveryOs, Slot, text, Found, max_ips, no_servers, leave_list, entries,
}
use distributed_system_manag.Memory.{Pointer, unset, null, pointers, alloc, update, ◌>>=◌, ◌>>◌}
use distributed_system_manag.Memory.Laws.{>>=-some, store-entry, update_ne, update_self}
use distributed_system_manag.Discovery.Lists.{
  Client, malloc, collect, close, terminate, fill_lists, receive_answers, await_answers,
}
use distributed_system_manag.Discovery.Lists.Collected.{Arrays, malloc-has}
use distributed_system_manag.Discovery.Lists.Filled.{Ready}
use distributed_system_manag.Discovery.Lists.Left.{IsFresh}

module _ {W : Type 0} (os : DiscoveryOs W) where
  pub leave_list-some :
      (list_memory status_memory : Bool) (w : W) (c : Found × W) (f : Found)
      → (leave_list os list_memory status_memory w c).0 ≡ some f
      → (list_memory ≡ true) × (status_memory ≡ true) × (f ≡ Discovery.terminate c.0)
  unfolding leave_list
  leave_list-some true true w (g, w') f e = (refl, refl, sym (some-injective _ _ e))
  leave_list-some true false w c f e = cc
  leave_list-some false status_memory w c f e = cc

  -- What has succeeded where there is a list.
  pub await_answers-some :
      (broadcast sent : Bool × W) (f : Found)
      → (Discovery.await_answers os broadcast sent).0 ≡ some f
      → (broadcast.0 ≡ true)
        × (sent.0 ≡ true)
        × ((os.malloc sent.1).0 ≡ true)
        × ((os.malloc (os.malloc sent.1).1).0 ≡ true)
        × (f
            ≡ Discovery.terminate
                (Discovery.collect os max_ips (no_servers os) (os.malloc (os.malloc sent.1).1).1).0)
  unfolding Discovery.await_answers Discovery.receive_answers
  await_answers-some (false, w1) sent f e = cc
  await_answers-some (true, w1) (false, w2) f e = cc
  await_answers-some (true, w1) (true, w) f e =
      let (a, b, c) =
        leave_list-some (os.malloc w).0 (os.malloc (os.malloc w).1).0 (os.malloc (os.malloc w).1).1
          (Discovery.collect os max_ips (no_servers os) (os.malloc (os.malloc w).1).1) f e in
      (refl, refl, a, b, c)

  -- The state in which the loop begins.
  abbrev pub asked : W → Client W → Client W
  asked w s = record s {
    world = (os.malloc (os.malloc w).1).1;
    memory =
        alloc (pointers (replicate max_ips unset))
          (alloc (pointers (replicate max_ips unset)) s.memory);
    ip_list = Pointer.at s.memory.next;
    ip_status = Pointer.at (suc s.memory.next);
  }

  pub receive_answers-eq :
      (s : Client W)
      → (os.malloc s.world).0 ≡ true
      → (os.malloc (os.malloc s.world).1).0 ≡ true
      → receive_answers os s ≡ fill_lists os (asked s.world s)
  unfolding receive_answers alloc
  receive_answers-eq s e e' =
      >>=-some (malloc os (pointers (replicate max_ips unset))) _ s
        (malloc-has os (pointers (replicate max_ips unset)) s e)
      ∙ >>=-some (malloc os (pointers (replicate max_ips unset))) _ given_list
          (malloc-has os (pointers (replicate max_ips unset)) given_list e')
    where
      given_list : Client W
      given_list = record s {
        world = (os.malloc s.world).1;
        memory = alloc (pointers (replicate max_ips unset)) s.memory;
        ip_list = Pointer.at s.memory.next;
      }

  pub fill_lists-eq :
      (s : Client W) (l t : ℕ)
      → s.ip_list ≡ Pointer.at l
      → s.ip_status ≡ Pointer.at t
      → fill_lists os s ≡ (collect os max_ips 0 >>= λ count. close os >> terminate os count) s
  unfolding fill_lists
  fill_lists-eq s l t e e' = rw (e, e') refl

  pub terminate-eq :
      (l t : ℕ) (xs ys : List Pointer) (left count : ℕ) (s : Client W)
      → count < max_ips
      → length xs ≡ count
      → length ys ≡ count
      → l ≢ t
      → Arrays l t (xs ++ (unset ∷ replicate left unset)) (ys ++ (unset ∷ replicate left unset)) s
      → terminate os count s
        ≡ some (
          tt,
          record s {
            memory = record s.memory {
              block =
                  update
                    (update s.memory.block l
                      (some (pointers (xs ++ (null ∷ replicate left unset)))))
                    t
                    (some (pointers (ys ++ (null ∷ replicate left unset))));
            };
          },
        )
  unfolding terminate
  terminate-eq l t xs ys left count s below same same' apart h =
      let m = s.memory in
      let stored =
        store-entry l m xs unset null (replicate left unset) count (sym same) h.list_block in
      let m' = record m {
        block = update m.block l (some (pointers (xs ++ (null ∷ replicate left unset))));
      } in
      let stored' =
        store-entry t m' ys unset null (replicate left unset) count (sym same')
          (update_ne m.block l t _ (λ e. apart (sym e)) ∙ h.status_block) in
      ground (arith, stored, stored', h.list_at, h.status_at, below)

  abbrev pub begun : Client W → W
  begun s = (os.send_to (codes "status") (os.set_timeout (os.set_broadcast s.world).1).1).1

  pub await_answers-eq :
      (s : Client W)
      → (os.set_broadcast s.world).0 ≡ true
      → (os.send_to (codes "status") (os.set_timeout (os.set_broadcast s.world).1).1).0 ≡ true
      → await_answers os s ≡ receive_answers os (record s { world = begun s })
  unfolding await_answers
  await_answers-eq s e e' = rw (e, e') refl

  pub asked-Ready :
      (w : W) (s : Client W)
      → IsFresh s.memory
      → Ready s.memory.next (suc s.memory.next) [] [] [] max_ips 0 (no_servers os) (asked w s)
  unfolding alloc
  asked-Ready w s fresh = record {
    arrays = record {
      list_at = refl;
      status_at = refl;
      list_block =
          update_ne
            (update s.memory.block s.memory.next (some (pointers (replicate max_ips unset))))
            (suc s.memory.next) s.memory.next (some (pointers (replicate max_ips unset)))
            (λ e. absurd (omega (arith, e)))
          ∙ update_self s.memory.block s.memory.next (some (pointers (replicate max_ips unset)));
      status_block =
          update_self
            (update s.memory.block s.memory.next (some (pointers (replicate max_ips unset))))
            (suc s.memory.next) (some (pointers (replicate max_ips unset)));
    };
    l_older = omega arith;
    t_older = omega arith;
    apart = λ e. absurd (omega (arith, e));
    length_xs = refl;
    length_ys = refl;
    length_slots = refl;
    fresh = λ a above.
        update_ne (update s.memory.block s.memory.next (some (pointers (replicate max_ips unset))))
          (suc s.memory.next) a (some (pointers (replicate max_ips unset))) (omega (arith, above))
        ∙ update_ne s.memory.block s.memory.next a (some (pointers (replicate max_ips unset)))
            (omega (arith, above))
        ∙ fresh a (omega (arith, above));
    found_count = refl;
    found_list = refl;
  }

  pub asked-next : (w : W) (s : Client W) → (asked w s).memory.next ≡ suc (suc s.memory.next)
  unfolding alloc
  asked-next w s = refl

  pub asked-older :
      (w : W) (s : Client W) (a : ℕ)
      → a < s.memory.next
      → (asked w s).memory.block a ≡ s.memory.block a
  unfolding alloc
  asked-older w s a h =
      update_ne (update s.memory.block s.memory.next (some (pointers (replicate max_ips unset))))
        (suc s.memory.next) a (some (pointers (replicate max_ips unset)))
        (λ x. absurd (omega (arith, x, h)))
      ∙ update_ne s.memory.block s.memory.next a (some (pointers (replicate max_ips unset)))
          (λ x. absurd (omega (arith, x, h)))
