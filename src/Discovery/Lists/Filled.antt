-- ===== src/Discovery/Lists/Filled.antt =====
-- What the loop of `sendRequest` leaves in the client's memory.
pub mod Loop
use distributed_system_manag.Base.{
  ℕ, zero, suc, ◌+◌, ◌*◌, ◌<◌, ◌≤◌, ◌≡◌, ◌≢◌, refl, sym, ap, ap₂, subst, ◌∙◌, true, Option, none,
  some, List, [], ◌∷◌, ◌++◌, map, length, length-append, append_assoc, replicate, take, c_str,
  arith, set, Bool-cases, Option-cases, inl, inr,
}
use distributed_system_manag.Discovery
use distributed_system_manag.Discovery.{DiscoveryOs, Slot, text, Found, add_server}
use distributed_system_manag.Memory.{Pointer, unset, pointers, string, alloc, update}
use distributed_system_manag.Memory.Laws.{set-append, update_ne, update_self}
use distributed_system_manag.Discovery.Lists.{Client, collect, keep_pointers}
use distributed_system_manag.Discovery.Lists.Collected.{
  addresses, Strings, Arrays, given, entries_set, keep_pointers-eq, collect-nothing,
  collect-no_status, collect-no_ip, collect-kept,
}

abbrev pub slot_of : List ℕ × List ℕ → Slot
slot_of (status, ip) = text (take 15 ip)

-- Before a round: `count` entries of both arrays are written, and `room` are not; the list without
-- pointers stands beside.
pub record Ready {W : Type 0} (l t : ℕ) (xs ys : List Pointer) (slots : List Slot) (room count : ℕ)
    (f : Found) (s : Client W) : Type 0 where
  pub arrays : Arrays l t (xs ++ replicate room unset) (ys ++ replicate room unset) s
  pub l_older : l < s.memory.next
  pub t_older : t < s.memory.next
  pub apart : l ≢ t
  pub length_xs : length xs ≡ count
  pub length_ys : length ys ≡ count
  pub length_slots : length slots ≡ count
  pub fresh : (a : ℕ) → s.memory.next ≤ a → s.memory.block a ≡ none
  pub found_count : f.count ≡ count
  pub found_list : f.ip_list ≡ slots ++ replicate room Slot.unset

-- After the loop: the answers that it has kept.
pub record Collected {W : Type 0} (l t : ℕ) (xs ys : List Pointer) (slots : List Slot)
    (room count : ℕ) (s : Client W) (out : Option (ℕ × Client W)) (found : Found × W) : Type 0 where
  pub answers : List (List ℕ × List ℕ)
  pub left : ℕ
  pub end : Client W
  pub result : out ≡ some (count + length answers, end)
  pub rooms : length answers + left ≡ room
  pub arrays :
      Arrays l t
        (xs ++ (addresses (suc s.memory.next) answers ++ replicate left unset))
        (ys ++ (addresses s.memory.next answers ++ replicate left unset))
        end
  pub strings : Strings end.memory.block s.memory.next answers
  pub older : (a : ℕ) → a < s.memory.next → a ≢ l → a ≢ t → end.memory.block a ≡ s.memory.block a
  pub newer : (a : ℕ) → s.memory.next + 2 * length answers ≤ a → end.memory.block a ≡ none
  pub grown : s.memory.next + 2 * length answers ≤ end.memory.next
  pub found_world : found.1 ≡ end.world
  pub found_count : found.0.count ≡ count + length answers
  pub found_list : found.0.ip_list ≡ slots ++ (map slot_of answers ++ replicate left Slot.unset)

module _ {W : Type 0} (os : DiscoveryOs W) (l t : ℕ) where
  -- The loop ends in this round.
  stopped :
      (xs ys : List Pointer) (slots : List Slot) (room count : ℕ) (f : Found) (s end : Client W)
      (out : Option (ℕ × Client W)) (found : Found × W)
      → Ready l t xs ys slots room count f s
      → out ≡ some (count, end)
      → end.ip_list ≡ s.ip_list
      → end.ip_status ≡ s.ip_status
      → ((a : ℕ) → a < s.memory.next → end.memory.block a ≡ s.memory.block a)
      → ((a : ℕ) → s.memory.next ≤ a → end.memory.block a ≡ none)
      → s.memory.next ≤ end.memory.next
      → found ≡ (f, end.world)
      → Collected l t xs ys slots room count s out found
  stopped xs ys slots room count f s end out found r same_out list status older newer above
        same_found =
      record {
        answers = [];
        left = room;
        end = end;
        result = same_out ∙ ap (λ k. some (k, end)) (omega arith);
        rooms = omega arith;
        arrays = record {
          list_at = list ∙ r.arrays.list_at;
          status_at = status ∙ r.arrays.status_at;
          list_block = older l r.l_older ∙ r.arrays.list_block;
          status_block = older t r.t_older ∙ r.arrays.status_block;
        };
        strings = tt;
        older = λ a below _ _. older a below;
        newer = λ a above. newer a (omega arith);
        grown = omega (arith, above);
        found_world = ap (λ x. x.1) same_found;
        found_count = ap (λ x. x.0.count) same_found ∙ omega (arith, r.found_count);
        found_list = ap (λ x. x.0.ip_list) same_found ∙ r.found_list;
      }

  -- The state of the next round, where an answer has been kept.
  abbrev kept : List Pointer → List Pointer → ℕ → ℕ → List ℕ × List ℕ → Client W → Client W
  kept xs ys room count a s =
      entries_set l t xs ys room (Pointer.at s.memory.next) (Pointer.at (suc s.memory.next))
        (given os room count s a)

  module _ (xs ys : List Pointer) (slots : List Slot) (room count : ℕ) (f : Found) (s : Client W)
      (a : List ℕ × List ℕ) (r : Ready l t xs ys slots (suc room) count f s) where
    kept-other :
        (b : ℕ)
        → b ≢ l
        → b ≢ t
        → b ≢ s.memory.next
        → b ≢ suc s.memory.next
        → (kept xs ys room count a s).memory.block b ≡ s.memory.block b
    unfolding alloc
    kept-other b b-l b-t b-n b-m = ground arith

    kept-status : (kept xs ys room count a s).memory.block s.memory.next ≡ some (string (c_str a.0))
    unfolding alloc
    kept-status = ground (arith, r.l_older, r.t_older)

    kept-ip :
        (kept xs ys room count a s).memory.block (suc s.memory.next) ≡ some (string (take 15 a.1))
    unfolding alloc
    kept-ip = ground (arith, r.l_older, r.t_older)

    given-Arrays :
        Arrays l t
          (xs ++ replicate (suc room) unset)
          (ys ++ replicate (suc room) unset)
          (given os room count s a)
    unfolding alloc
    given-Arrays = record {
      list_at = r.arrays.list_at;
      status_at = r.arrays.status_at;
      list_block = ground (arith, r.l_older, r.arrays.list_block);
      status_block = ground (arith, r.t_older, r.arrays.status_block);
    }

    -- Both pointers are stored, and the loop goes on.
    keep_pointers-kept :
        keep_pointers count
          (Pointer.at s.memory.next)
          (Pointer.at (suc s.memory.next))
          (collect os room (suc count))
          (given os room count s a)
        ≡ collect os room (suc count) (kept xs ys room count a s)
    keep_pointers-kept =
        ap
          (λ k.
            keep_pointers k (Pointer.at s.memory.next) (Pointer.at (suc s.memory.next))
              (collect os room (suc count)) (given os room count s a))
          (sym r.length_xs)
        ∙ keep_pointers-eq l t xs ys room (Pointer.at s.memory.next)
            (Pointer.at (suc s.memory.next)) (given os room count s a) (collect os room (suc count))
            r.apart (r.length_ys ∙ sym r.length_xs) given-Arrays

  kept-Ready :
      (xs ys : List Pointer) (slots : List Slot) (room count : ℕ) (f : Found) (s : Client W)
      (a : List ℕ × List ℕ)
      → Ready l t xs ys slots (suc room) count f s
      → Ready l t
          (xs ++ (Pointer.at (suc s.memory.next) ∷ []))
          (ys ++ (Pointer.at s.memory.next ∷ []))
          (slots ++ (slot_of a ∷ []))
          room
          (suc count)
          (add_server a f)
          (kept xs ys room count a s)
  unfolding add_server alloc
  kept-Ready xs ys slots room count f s a r = record {
    arrays = record {
      list_at = r.arrays.list_at;
      status_at = r.arrays.status_at;
      list_block =
          update_self
            (update (given os room count s a).memory.block t
              (some (pointers (ys ++ (Pointer.at s.memory.next ∷ replicate room unset)))))
            l _
          ∙ ap (λ z. some (pointers z))
              (sym (append_assoc xs (Pointer.at (suc s.memory.next) ∷ []) (replicate room unset)));
      status_block =
          update_ne
            (update (given os room count s a).memory.block t
              (some (pointers (ys ++ (Pointer.at s.memory.next ∷ replicate room unset)))))
            l t _ (λ e. r.apart (sym e))
          ∙ update_self (given os room count s a).memory.block t _
          ∙ ap (λ z. some (pointers z))
              (sym (append_assoc ys (Pointer.at s.memory.next ∷ []) (replicate room unset)));
    };
    l_older = omega (arith, r.l_older);
    t_older = omega (arith, r.t_older);
    apart = r.apart;
    length_xs = omega (arith, r.length_xs, length-append xs (Pointer.at (suc s.memory.next) ∷ []));
    length_ys = omega (arith, r.length_ys, length-append ys (Pointer.at s.memory.next ∷ []));
    length_slots = omega (arith, r.length_slots, length-append slots (slot_of a ∷ []));
    fresh = λ b above.
        kept-other xs ys slots room count f s a r b
          (λ e. absurd (omega (arith, r.l_older, e, above)))
          (λ e. absurd (omega (arith, r.t_older, e, above))) (omega (arith, above))
          (omega (arith, above))
        ∙ r.fresh b (omega (arith, above));
    found_count = ap suc r.found_count;
    found_list =
        ap₂ (λ z i. set z i (slot_of a)) r.found_list (r.found_count ∙ sym r.length_slots)
        ∙ set-append slots Slot.unset (slot_of a) (replicate room Slot.unset)
        ∙ sym (append_assoc slots (slot_of a ∷ []) (replicate room Slot.unset));
  }
