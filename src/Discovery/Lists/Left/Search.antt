-- ===== src/Discovery/Lists/Left/Search.antt =====
-- `sendRequest` on the client's memory.
use distributed_system_manag.Base.{
  ℕ, zero, suc, ◌+◌, ◌<◌, ◌≡◌, ◌≢◌, refl, sym, ap, subst, ◌∙◌, Option, some, List, [], ◌∷◌, ◌++◌,
  map, length, replicate, arith, codes,
}
use distributed_system_manag.Discovery
use distributed_system_manag.Discovery.Laws
use distributed_system_manag.Discovery.{
  DiscoveryOs, Slot, text, Found, max_ips, no_servers, leave_list, entries,
}
use distributed_system_manag.Memory.{
  Pointer, unset, null, Block, pointers, alloc, update, Cmd, ◌>>=◌, ◌>>◌,
}
use distributed_system_manag.Memory.Laws.{>>=-some, update_ne, update_self}
use distributed_system_manag.Discovery.Lists.{
  Client, collect, close, terminate, await_answers, send_request,
}
use distributed_system_manag.Discovery.Lists.Collected.{addresses, Arrays}
use distributed_system_manag.Discovery.Lists.Filled.Loop.{collect-Collected}
use distributed_system_manag.Discovery.Lists.Filled.{slot_of, Collected}
use distributed_system_manag.Discovery.Lists.Left.{
  IsFresh, Left, Strings-update, terminated-entries, length-addresses,
}
use distributed_system_manag.Discovery.Lists.Left.Steps.{
  await_answers-some, asked, receive_answers-eq, fill_lists-eq, terminate-eq, await_answers-eq,
  asked-Ready, asked-next, asked-older,
}

module _ {W : Type 0} (os : DiscoveryOs W) where
  -- The loop, `close` and the termination, where fewer than 300 answers are kept.
  filled-Listing :
      (w : W) (s : Client W) (f : Found)
      → IsFresh s.memory
      → f
        ≡ Discovery.terminate (Discovery.collect os max_ips (no_servers os) (asked os w s).world).0
      → f.count < max_ips
      → Left s.memory.next s.memory.block f
          ((collect os max_ips 0 >>= λ count. close os >> terminate os count) (asked os w s))
  unfolding alloc
  filled-Listing w s f fresh same below = go c.left refl
    where
      l : ℕ
      l = s.memory.next

      c :
          Collected l
            (suc l)
            []
            []
            []
            max_ips
            0
            (asked os w s)
            (collect os max_ips 0 (asked os w s))
            (Discovery.collect os max_ips (no_servers os) (asked os w s).world)
      c =
          collect-Collected os l (suc l) max_ips [] [] [] 0 (no_servers os) (asked os w s)
            (asked-Ready os w s fresh)

      found : Found
      found = (Discovery.collect os max_ips (no_servers os) (asked os w s).world).0

      counted : found.count ≡ length c.answers
      counted = c.found_count ∙ omega arith

      few : length c.answers < max_ips
      few =
          omega
            (arith, counted, ap (λ (g : Found). g.count) same, Laws.terminate_count found, below)

      closed : Client W
      closed = record c.end { world = os.close c.end.world }

      list_array : ℕ → List Pointer
      list_array left = addresses (suc (suc (suc l))) c.answers ++ (null ∷ replicate left unset)

      status_array : ℕ → List Pointer
      status_array left = addresses (suc (suc l)) c.answers ++ (null ∷ replicate left unset)

      end : ℕ → Client W
      end left = record closed {
        memory = record closed.memory {
          block =
              update (update closed.memory.block l (some (pointers (list_array left)))) (suc l)
                (some (pointers (status_array left)));
        };
      }

      closed_arrays :
          Arrays l
            (suc l)
            (addresses (suc (suc (suc l))) c.answers ++ replicate c.left unset)
            (addresses (suc (suc l)) c.answers ++ replicate c.left unset)
            closed
      closed_arrays = record {
        list_at = c.arrays.list_at;
        status_at = c.arrays.status_at;
        list_block = c.arrays.list_block;
        status_block = c.arrays.status_block;
      }

      kept : (left a : ℕ) → a ≢ l → a ≢ suc l → (end left).memory.block a ≡ closed.memory.block a
      kept left a a-l a-t =
          update_ne (update closed.memory.block l (some (pointers (list_array left)))) (suc l) a
            (some (pointers (status_array left))) a-t
          ∙ update_ne closed.memory.block l a (some (pointers (list_array left))) a-l

      go :
          (left : ℕ)
          → c.left ≡ left
          → Left s.memory.next s.memory.block f
              ((collect os max_ips 0 >>= λ count. close os >> terminate os count) (asked os w s))
      go zero e = absurd (omega (arith, c.rooms, e, few))
      go (suc left) e =
          let open_arrays =
            subst
              (λ k.
                Arrays l (suc l) (addresses (suc (suc (suc l))) c.answers ++ replicate k unset)
                  (addresses (suc (suc l)) c.answers ++ replicate k unset) closed)
              e (closed_arrays) in
          record {
            answers = c.answers;
            end = end left;
            result =
                >>=-some (collect os max_ips 0) (λ count. close os >> terminate os count)
                  (asked os w s) c.result
                ∙ terminate-eq os l (suc l) (addresses (suc (suc (suc l))) c.answers)
                    (addresses (suc (suc l)) c.answers) left (0 + length c.answers) closed
                    (omega (arith, few))
                    (length-addresses (suc (suc (suc l))) c.answers ∙ omega arith)
                    (length-addresses (suc (suc l)) c.answers ∙ omega arith)
                    (λ x. absurd (omega (arith, x))) open_arrays;
            listing = record {
              left = left;
              rooms = omega (arith, c.rooms, e);
              arrays = record {
                list_at = c.arrays.list_at;
                status_at = c.arrays.status_at;
                list_block =
                    update_ne (update closed.memory.block l (some (pointers (list_array left))))
                      (suc l) l (some (pointers (status_array left)))
                      (λ x. absurd (omega (arith, x)))
                    ∙ update_self closed.memory.block l (some (pointers (list_array left)));
                status_block =
                    update_self (update closed.memory.block l (some (pointers (list_array left))))
                      (suc l) (some (pointers (status_array left)));
              };
              strings =
                  Strings-update (update closed.memory.block l (some (pointers (list_array left))))
                    (suc l) (suc (suc l)) (some (pointers (status_array left))) c.answers
                    (omega arith)
                    (Strings-update closed.memory.block l (suc (suc l))
                      (some (pointers (list_array left))) c.answers (omega arith) c.strings);
              older = λ a h.
                  kept left a (λ x. absurd (omega (arith, x, h)))
                    (λ x. absurd (omega (arith, x, h)))
                  ∙ c.older a (omega (arith, h)) (λ x. absurd (omega (arith, x, h)))
                      (λ x. absurd (omega (arith, x, h)))
                  ∙ asked-older os w s a h;
              newer = λ a h.
                  kept left a (λ x. absurd (omega (arith, x, h)))
                    (λ x. absurd (omega (arith, x, h)))
                  ∙ c.newer a (omega (arith, h));
            };
            grown = omega (arith, c.grown, asked-next os w s);
            same_ips =
                ap (λ (g : Found). entries g.ip_list) same
                ∙ terminated-entries c.answers left found (omega (arith, counted, few)) counted
                    (c.found_list ∙ ap (λ k. map slot_of c.answers ++ replicate k Slot.unset) e);
          }

-- The destructor of the socket changes nothing but the world.
closed-Left :
    {W : Type 0} (os : DiscoveryOs W) (base : ℕ) (before : ℕ → Option Block) (f : Found)
    (m : Cmd (Client W) (Unit {0})) (s : Client W)
    → Left base before f (m s)
    → Left base before f ((m >> close os) s)
closed-Left os base before f m s left = record {
  answers = left.answers;
  end = record left.end { world = os.close left.end.world };
  result = >>=-some m _ s left.result;
  listing = record {
    left = left.listing.left;
    rooms = left.listing.rooms;
    arrays = record {
      list_at = left.listing.arrays.list_at;
      status_at = left.listing.arrays.status_at;
      list_block = left.listing.arrays.list_block;
      status_block = left.listing.arrays.status_block;
    };
    strings = left.listing.strings;
    older = left.listing.older;
    newer = left.listing.newer;
  };
  grown = left.grown;
  same_ips = left.same_ips;
}

-- Where `sendRequest` leaves a list of fewer than 300 servers.
pub send_request-Left :
    {W : Type 0} (os : DiscoveryOs W) (s : Client W) (f : Found)
    → IsFresh s.memory
    → (Discovery.send_request os s.world).0 ≡ some f
    → f.count < max_ips
    → Left s.memory.next s.memory.block f (send_request os s)
unfolding Discovery.send_request send_request
send_request-Left os s f fresh e below =
    let broadcast = os.set_broadcast s.world in
    let sent = os.send_to (codes "status") (os.set_timeout broadcast.1).1 in
    let (h1, h2, h3, h4, same) = await_answers-some os broadcast sent f e in
    let begun = record s { world = sent.1 } in
    closed-Left os s.memory.next s.memory.block f (await_answers os) s (
      subst (λ out. Left s.memory.next s.memory.block f out)
        (sym (
          await_answers-eq os s h1 h2
          ∙ receive_answers-eq os begun h3 h4
          ∙ fill_lists-eq os (asked os sent.1 begun) _ _ refl refl))
        (filled-Listing os sent.1 begun f fresh same below))
