-- ===== src/Discovery/Lists/Filled/Loop.antt =====
-- The loop of `sendRequest` on the client's memory, from its first round to its end.
use distributed_system_manag.Base.{
  ℕ, zero, suc, ◌<◌, ◌≡◌, ◌≢◌, refl, sym, ap, subst, ◌∙◌, true, Option, some, List, [], ◌∷◌, ◌++◌,
  map, append_assoc, replicate, arith, Bool-cases, Option-cases, inl, inr,
}
use distributed_system_manag.Discovery
use distributed_system_manag.Discovery.{DiscoveryOs, Slot, text, Found, add_server}
use distributed_system_manag.Memory.{Pointer, unset, pointers, alloc}
use distributed_system_manag.Discovery.Lists.{Client, collect}
use distributed_system_manag.Discovery.Lists.Collected.{
  addresses, collect-nothing, collect-no_status, collect-no_ip, collect-kept,
}
use distributed_system_manag.Discovery.Lists.Filled.{
  slot_of, Ready, Collected, stopped, kept-Ready, kept, keep_pointers-kept, kept-status, kept-ip,
  kept-other,
}

module _ {W : Type 0} (os : DiscoveryOs W) (l t : ℕ) where
  kept-Collected :
      (xs ys : List Pointer) (slots : List Slot) (room count : ℕ) (f : Found) (s : Client W)
      (a : List ℕ × List ℕ)
      → Ready l t xs ys slots (suc room) count f s
      → (out : Option (ℕ × Client W)) (found : Found × W)
      → Collected l t
          (xs ++ (Pointer.at (suc s.memory.next) ∷ []))
          (ys ++ (Pointer.at s.memory.next ∷ []))
          (slots ++ (slot_of a ∷ []))
          room
          (suc count)
          (kept os l t xs ys room count a s)
          out
          found
      → Collected l t xs ys slots (suc room) count s out found
  unfolding alloc
  kept-Collected xs ys slots room count f s a r out found c = record {
    answers = a ∷ c.answers;
    left = c.left;
    end = c.end;
    result = c.result ∙ ap (λ k. some (k, c.end)) (omega arith);
    rooms = omega (arith, c.rooms);
    arrays = record {
      list_at = c.arrays.list_at;
      status_at = c.arrays.status_at;
      list_block =
          c.arrays.list_block
          ∙ ap (λ z. some (pointers z))
              (append_assoc xs (Pointer.at (suc s.memory.next) ∷ [])
                (addresses (suc (suc (suc s.memory.next))) c.answers ++ replicate c.left unset));
      status_block =
          c.arrays.status_block
          ∙ ap (λ z. some (pointers z))
              (append_assoc ys (Pointer.at s.memory.next ∷ [])
                (addresses (suc (suc s.memory.next)) c.answers ++ replicate c.left unset));
    };
    strings = (
      c.older s.memory.next (omega arith) (ne_of_lt l r.l_older) (ne_of_lt t r.t_older)
          ∙ kept-status os l t xs ys slots room count f s a r,
      c.older (suc s.memory.next) (omega arith) (λ e. absurd (omega (arith, e, r.l_older)))
            (λ e. absurd (omega (arith, e, r.t_older)))
          ∙ kept-ip os l t xs ys slots room count f s a r,
      c.strings,
    );
    older = λ b below b-l b-t.
        c.older b (omega (arith, below)) b-l b-t
        ∙ kept-other os l t xs ys slots room count f s a r b b-l b-t (omega (arith, below))
            (omega (arith, below));
    newer = λ b above. c.newer b (omega (arith, above));
    grown = omega (arith, c.grown);
    found_world = c.found_world;
    found_count = c.found_count ∙ omega arith;
    found_list =
        c.found_list
        ∙ append_assoc slots (slot_of a ∷ [])
            (map slot_of c.answers ++ replicate c.left Slot.unset);
  }
    where
      ne_of_lt : (k : ℕ) → k < s.memory.next → s.memory.next ≢ k
      ne_of_lt k h e = absurd (omega (arith, h, e))

  found_kept :
      (room : ℕ) (f : Found) (s : Client W) (a : List ℕ × List ℕ)
      → (os.receive_from s.world).0 ≡ some a
      → (os.malloc (os.receive_from s.world).1).0 ≡ true
      → (os.malloc (os.malloc (os.receive_from s.world).1).1).0 ≡ true
      → Discovery.collect os (suc room) f s.world
        ≡ Discovery.collect os room
            (add_server a f)
            (os.malloc (os.malloc (os.receive_from s.world).1).1).1
  unfolding Discovery.collect
  found_kept room f s a e e1 e2 = ground (arith, e, e1, e2)

  pub collect-Collected :
      (room : ℕ) (xs ys : List Pointer) (slots : List Slot) (count : ℕ) (f : Found) (s : Client W)
      → Ready l t xs ys slots room count f s
      → Collected l t xs ys slots room count s
          (collect os room count s)
          (Discovery.collect os room f s.world)
  unfolding collect Discovery.collect
  collect-Collected zero xs ys slots count f s r =
      stopped os l t xs ys slots 0 count f s (record s { world = (os.receive_from s.world).1 }) _ _
        r refl refl refl (λ a _. refl) (λ a h. r.fresh a h) (omega arith) refl
  collect-Collected (suc room) xs ys slots count f s r =
      elim (Option-cases (os.receive_from s.world).0) [
        | inl e ↦
            stopped os l t xs ys slots (suc room) count f s (record s { world = v1 }) _ _ r
              (collect-nothing os room count s e) refl refl (λ a _. refl) (λ a h. r.fresh a h)
              (omega arith) (ground (arith, e))
        | inr (a, e) ↦ elim (Bool-cases (os.malloc v1).0) [
          | inr e1 ↦
              stopped os l t xs ys slots (suc room) count f s (record s { world = v2 }) _ _ r
                (collect-no_status os room count s a e e1) refl refl (λ a _. refl)
                (λ a h. r.fresh a h) (omega arith) (ground (arith, e, e1))
          | inl e1 ↦ elim (Bool-cases (os.malloc v2).0) [
            | inr e2 ↦
                stopped os l t xs ys slots (suc room) count f s _ _ _ r
                  (collect-no_ip os room count s a e e1 e2) refl refl (λ b h. ground (arith, h))
                  (λ b h. ground (arith, h, r.fresh b h)) (omega arith) (ground (arith, e, e1, e2))
            | inl e2 ↦
                subst
                  (λ found.
                    Collected l t xs ys slots (suc room) count s (collect os (suc room) count s)
                      found)
                  (sym (found_kept room f s a e e1 e2))
                  (subst
                    (λ out.
                      Collected l t xs ys slots (suc room) count s out
                        (Discovery.collect os room (add_server a f) (os.malloc v2).1))
                    (sym (
                      collect-kept os room count s a e e1 e2
                      ∙ keep_pointers-kept os l t xs ys slots room count f s a r))
                    (kept-Collected xs ys slots room count f s a r _ _ (
                      collect-Collected room (xs ++ (Pointer.at (suc s.memory.next) ∷ []))
                        (ys ++ (Pointer.at s.memory.next ∷ [])) (slots ++ (slot_of a ∷ []))
                        (suc count) (add_server a f) (kept os l t xs ys room count a s)
                        (kept-Ready os l t xs ys slots room count f s a r))))
          ]
        ]
      ]
    where
      v1 : W
      v1 = (os.receive_from s.world).1

      v2 : W
      v2 = (os.malloc v1).1
