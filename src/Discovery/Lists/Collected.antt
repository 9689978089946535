-- ===== src/Discovery/Lists/Collected.antt =====
-- The loop of `sendRequest` on the client's memory.
use distributed_system_manag.Base.{
  ℕ, suc, ◌≡◌, ◌≢◌, refl, sym, ap, ◌∙◌, true, false, Option, none, some, List, [], ◌∷◌, ◌++◌,
  length, replicate, take, c_str, arith,
}
use mathlib.Core.Option
use distributed_system_manag.Discovery.{DiscoveryOs}
use distributed_system_manag.Memory.{
  Pointer, unset, null, Block, pointers, string, alloc, update, Cmd, ◌>>=◌, return,
}
use distributed_system_manag.Memory.Laws.{>>=-some, store-entry, free-some, update_ne, update_self}
use distributed_system_manag.Discovery.Lists.{
  Client, malloc, keep_pointers, keep_ip, keep_status, keep_answer, collect, receive_from, free,
}

-- The answers' pointers, from an address on that takes two blocks for an answer.
abbrev pub addresses : ℕ → List (List ℕ × List ℕ) → List Pointer
addresses a [] = []
addresses a (_ ∷ answers) = Pointer.at a ∷ addresses (suc (suc a)) answers

-- The answers' strings stand from an address on.
abbrev pub Strings : (ℕ → Option Block) → ℕ → List (List ℕ × List ℕ) → Type 0
Strings blocks a [] = Unit
Strings blocks a ((status, ip) ∷ answers) =
    (blocks a ≡ some (string (c_str status)))
    × (blocks (suc a) ≡ some (string (take 15 ip)))
    × Strings blocks (suc (suc a)) answers

module _ {W : Type 0} where
  -- The two arrays.
  pub record Arrays (l t : ℕ) (ls ts : List Pointer) (s : Client W) : Type 0 where
    pub list_at : s.ip_list ≡ Pointer.at l
    pub status_at : s.ip_status ≡ Pointer.at t
    pub list_block : s.memory.block l ≡ some (pointers ls)
    pub status_block : s.memory.block t ≡ some (pointers ts)

  -- The state after both entries at `length xs` have been written.
  abbrev pub entries_set :
      (l t : ℕ) (xs ys : List Pointer) (room : ℕ) (p q : Pointer) → Client W → Client W
  entries_set l t xs ys room p q s = record s {
    memory = record s.memory {
      block =
          update (update s.memory.block t (some (pointers (ys ++ (p ∷ replicate room unset))))) l
            (some (pointers (xs ++ (q ∷ replicate room unset))));
    };
  }

  pub keep_pointers-eq :
      (l t : ℕ) (xs ys : List Pointer) (room : ℕ) (p q : Pointer) (s : Client W)
      (rest : Cmd (Client W) ℕ)
      → l ≢ t
      → length ys ≡ length xs
      → Arrays l t (xs ++ replicate (suc room) unset) (ys ++ replicate (suc room) unset) s
      → keep_pointers (length xs) p q rest s ≡ rest (entries_set l t xs ys room p q s)
  unfolding keep_pointers
  keep_pointers-eq l t xs ys room p q s rest apart same h =
      let m = s.memory in
      let stored =
        store-entry t m ys unset p (replicate room unset) (length xs) (sym same) h.status_block in
      let m' = record m {
        block = update m.block t (some (pointers (ys ++ (p ∷ replicate room unset))));
      } in
      let stored' =
        store-entry l m' xs unset q (replicate room unset) (length xs) refl
          (update_ne m.block t l _ apart ∙ h.list_block) in
      ground (arith, stored, stored', h.list_at, h.status_at)

module _ {W : Type 0} (os : DiscoveryOs W) (b : Block) (s : Client W) where
  pub malloc-has :
      (os.malloc s.world).0 ≡ true
      → malloc os b s
        ≡ some (
          Pointer.at s.memory.next,
          record s { world = (os.malloc s.world).1; memory = alloc b s.memory },
        )
  unfolding malloc
  malloc-has e = ground (arith, e)

  pub malloc-lacks :
      (os.malloc s.world).0 ≡ false
      → malloc os b s ≡ some (null, record s { world = (os.malloc s.world).1 })
  unfolding malloc
  malloc-lacks e = ground (arith, e)

-- A round of the loop, by what the system does in it. `room` and `count` are those of the next round
-- but for `count`.
module _ {W : Type 0} (os : DiscoveryOs W) (room count : ℕ) (s : Client W) where
  abbrev pub w1 : W
  w1 = (os.receive_from s.world).1

  abbrev pub w2 : W
  w2 = (os.malloc w1).1

  abbrev pub w3 : W
  w3 = (os.malloc w2).1

  -- Both blocks have been given.
  abbrev pub given : List ℕ × List ℕ → Client W
  given (status, ip) = record s {
    world = w3;
    memory = alloc (string (take 15 ip)) (alloc (string (c_str status)) s.memory);
  }

  pub collect-nothing :
      (os.receive_from s.world).0 ≡ none
      → collect os (suc room) count s ≡ some (count, record s { world = w1 })
  unfolding collect
  collect-nothing e = ground (arith, e)

  pub collect-no_status :
      (a : List ℕ × List ℕ)
      → (os.receive_from s.world).0 ≡ some a
      → (os.malloc w1).0 ≡ false
      → collect os (suc room) count s ≡ some (count, record s { world = w2 })
  unfolding collect
  collect-no_status a e e1 = ground (arith, e, e1)

  -- From the second `malloc` on.
  collect-given :
      (a : List ℕ × List ℕ)
      → (os.receive_from s.world).0 ≡ some a
      → (os.malloc w1).0 ≡ true
      → collect os (suc room) count s
        ≡ (malloc os (string (take 15 a.1))
              >>= keep_ip os count (Pointer.at s.memory.next) (collect os room (suc count)))
            (record s { world = w2; memory = alloc (string (c_str a.0)) s.memory })
  unfolding collect
  collect-given a e e1 =
      >>=-some (receive_from os) (keep_answer os count (collect os room (suc count))) s
        (ap (λ x. some (x, record s { world = w1 })) e)
      ∙ >>=-some (malloc os (string (c_str a.0)))
          (keep_status os count a.1 (collect os room (suc count))) (record s { world = w1 })
          (malloc-has os (string (c_str a.0)) (record s { world = w1 }) e1)

  pub collect-no_ip :
      (a : List ℕ × List ℕ)
      → (os.receive_from s.world).0 ≡ some a
      → (os.malloc w1).0 ≡ true
      → (os.malloc w2).0 ≡ false
      → collect os (suc room) count s
        ≡ some (
          count,
          record s {
            world = w3;
            memory = record {
              next = suc s.memory.next;
              block =
                  update
                    (update s.memory.block s.memory.next (some (string (c_str a.0))))
                    s.memory.next
                    none;
            };
          },
        )
  unfolding alloc keep_ip
  collect-no_ip a e e1 e2 =
      collect-given a e e1
      ∙ >>=-some (malloc os (string (take 15 a.1)))
          (keep_ip os count (Pointer.at s.memory.next) (collect os room (suc count))) given_status
          (malloc-lacks os (string (take 15 a.1)) given_status e2)
      ∙ >>=-some (free (Pointer.at s.memory.next)) (λ _. return count)
          (record given_status { world = w3 })
          (ap (Option.map λ m. (tt, record s { world = w3; memory = m })) (
            free-some s.memory.next given_status.memory (string (c_str a.0))
              (update_self s.memory.block s.memory.next _)))
    where
      given_status : Client W
      given_status = record s { world = w2; memory = alloc (string (c_str a.0)) s.memory }

  pub collect-kept :
      (a : List ℕ × List ℕ)
      → (os.receive_from s.world).0 ≡ some a
      → (os.malloc w1).0 ≡ true
      → (os.malloc w2).0 ≡ true
      → collect os (suc room) count s
        ≡ keep_pointers count
            (Pointer.at s.memory.next)
            (Pointer.at (suc s.memory.next))
            (collect os room (suc count))
            (given a)
  unfolding alloc keep_ip
  collect-kept a e e1 e2 =
      collect-given a e e1
      ∙ >>=-some (malloc os (string (take 15 a.1)))
          (keep_ip os count (Pointer.at s.memory.next) (collect os room (suc count))) given_status
          (malloc-has os (string (take 15 a.1)) given_status e2)
    where
      given_status : Client W
      given_status = record s { world = w2; memory = alloc (string (c_str a.0)) s.memory }
