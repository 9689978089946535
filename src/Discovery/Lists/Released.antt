-- ===== src/Discovery/Lists/Released.antt =====
-- `handle_list_connections` gives back all that the search has taken.
use distributed_system_manag.Base.{
  ℕ, zero, suc, ◌+◌, ◌*◌, ◌<◌, ◌≤◌, ◌≡◌, refl, sym, ap, ◌∙◌, Option, none, some, List, [], ◌∷◌,
  ◌++◌, map, length, length-append, append_assoc, replicate, c_str, arith, inl, inr, Bool-cases,
  ltb, ltb→lt, if◌then◌else◌,
}
use distributed_system_manag.Discovery
use distributed_system_manag.Discovery.{DiscoveryOs, Found, max_ips, entries}
use distributed_system_manag.Memory.{
  Pointer, unset, null, Block, pointers, string, is_null, update, ◌>>=◌, ◌>>◌, return,
}
use distributed_system_manag.Memory.Laws.{
  >>=-some, load-entry, load_text-string, free-some, update_ne,
}
use distributed_system_manag.Discovery.Lists.{
  Client, free, print_from, send_request, handle_list_connections,
}
use distributed_system_manag.Discovery.Lists.Collected.{addresses, Strings, Arrays}
use distributed_system_manag.Discovery.Lists.Left.{IsFresh, Listing, ip_of, Strings-update}
use distributed_system_manag.Discovery.Lists.Left.Search.{send_request-Left}

-- The blocks once the answers' strings, which stand from an address on, have been freed.
unfoldable pub freed : ℕ → List (List ℕ × List ℕ) → (ℕ → Option Block) → ℕ → Option Block
freed b [] blocks = blocks
freed b (_ ∷ answers) blocks =
    freed (suc (suc b)) answers (update (update blocks (suc b) none) b none)

pub freed-below :
    (b : ℕ) (answers : List (List ℕ × List ℕ)) (blocks : ℕ → Option Block) (a : ℕ)
    → a < b
    → freed b answers blocks a ≡ blocks a
unfolding freed
freed-below b [] blocks a h = refl
freed-below b (_ ∷ answers) blocks a h =
    freed-below (suc (suc b)) answers (update (update blocks (suc b) none) b none) a
      (omega (arith, h))
    ∙ update_ne (update blocks (suc b) none) b a none (omega (arith, h))
    ∙ update_ne blocks (suc b) a none (omega (arith, h))

pub freed-from :
    (b : ℕ) (answers : List (List ℕ × List ℕ)) (blocks : ℕ → Option Block)
    → ((a : ℕ) → b + 2 * length answers ≤ a → blocks a ≡ none)
    → (a : ℕ) → b ≤ a
    → freed b answers blocks a ≡ none
unfolding freed
freed-from b [] blocks above a h = above a (omega (arith, h))
freed-from b (_ ∷ answers) blocks above a h = elim (Bool-cases (ltb a (suc (suc b)))) [
  | inl old ↦
      freed-below (suc (suc b)) answers (update (update blocks (suc b) none) b none) a
        (ltb→lt _ _ old)
      ∙ ground (arith, old, h)
  | inr new ↦
      freed-from (suc (suc b)) answers (update (update blocks (suc b) none) b none)
        (λ a' h'.
          update_ne (update blocks (suc b) none) b a' none (omega (arith, h'))
          ∙ update_ne blocks (suc b) a' none (omega (arith, h'))
          ∙ above a' (omega (arith, h')))
        a (ground (arith, new))
]

pub freed-beyond :
    (b : ℕ) (answers : List (List ℕ × List ℕ)) (blocks : ℕ → Option Block) (a : ℕ)
    → b + 2 * length answers ≤ a
    → freed b answers blocks a ≡ blocks a
unfolding freed
freed-beyond b [] blocks a h = refl
freed-beyond b (_ ∷ answers) blocks a h =
    freed-beyond (suc (suc b)) answers (update (update blocks (suc b) none) b none) a
      (omega (arith, h))
    ∙ update_ne (update blocks (suc b) none) b a none (omega (arith, h))
    ∙ update_ne blocks (suc b) a none (omega (arith, h))

pub freed-within :
    (b : ℕ) (answers : List (List ℕ × List ℕ)) (blocks : ℕ → Option Block) (a : ℕ)
    → b ≤ a
    → a < b + 2 * length answers
    → freed b answers blocks a ≡ none
unfolding freed
freed-within b [] blocks a h h' = absurd (omega (arith, h, h'))
freed-within b (_ ∷ answers) blocks a h h' = elim (Bool-cases (ltb a (suc (suc b)))) [
  | inl old ↦
      freed-below (suc (suc b)) answers (update (update blocks (suc b) none) b none) a
        (ltb→lt _ _ old)
      ∙ ground (arith, old, h)
  | inr new ↦
      freed-within (suc (suc b)) answers (update (update blocks (suc b) none) b none) a
        (ground (arith, new)) (omega (arith, h'))
]

-- Before a round of a loop over the arrays: the entries from `i` on.
pub record Rest {W : Type 0} (l t b : ℕ) (answers : List (List ℕ × List ℕ)) (left i : ℕ)
    (s : Client W) : Type 0 where
  pub xs : List Pointer
  pub ys : List Pointer
  pub length_xs : length xs ≡ i
  pub length_ys : length ys ≡ i
  pub arrays :
      Arrays l t
        (xs ++ (addresses (suc b) answers ++ (null ∷ replicate left unset)))
        (ys ++ (addresses b answers ++ (null ∷ replicate left unset)))
        s
  pub strings : Strings s.memory.block b answers
  pub l_below : l < b
  pub t_below : t < b

module _ {W : Type 0} where
  abbrev pub with_blocks : (ℕ → Option Block) → Client W → Client W
  with_blocks blocks s = record s { memory = record s.memory { block = blocks } }

  -- The state after a round, in which the first answer's strings have been freed.
  abbrev pub round_freed : ℕ → Client W → Client W
  round_freed b s = with_blocks (update (update s.memory.block (suc b) none) b none) s

  pub Rest-next :
      (l t b : ℕ) (a : List ℕ × List ℕ) (answers : List (List ℕ × List ℕ)) (left i : ℕ)
      (s : Client W)
      → Rest l t b (a ∷ answers) left i s
      → Rest l t (suc (suc b)) answers left (suc i) (round_freed b s)
  Rest-next l t b a answers left i s r = record {
    xs = r.xs ++ (Pointer.at (suc b) ∷ []);
    ys = r.ys ++ (Pointer.at b ∷ []);
    length_xs = omega (arith, r.length_xs, length-append r.xs (Pointer.at (suc b) ∷ []));
    length_ys = omega (arith, r.length_ys, length-append r.ys (Pointer.at b ∷ []));
    arrays = record {
      list_at = r.arrays.list_at;
      status_at = r.arrays.status_at;
      list_block =
          update_ne (update s.memory.block (suc b) none) b l none (omega (arith, r.l_below))
          ∙ update_ne s.memory.block (suc b) l none (omega (arith, r.l_below))
          ∙ r.arrays.list_block
          ∙ ap (λ z. some (pointers z))
              (sym (
                append_assoc r.xs (Pointer.at (suc b) ∷ [])
                  (addresses (suc (suc (suc b))) answers ++ (null ∷ replicate left unset))));
      status_block =
          update_ne (update s.memory.block (suc b) none) b t none (omega (arith, r.t_below))
          ∙ update_ne s.memory.block (suc b) t none (omega (arith, r.t_below))
          ∙ r.arrays.status_block
          ∙ ap (λ z. some (pointers z))
              (sym (
                append_assoc r.ys (Pointer.at b ∷ [])
                  (addresses (suc (suc b)) answers ++ (null ∷ replicate left unset))));
    };
    strings =
        Strings-update (update s.memory.block (suc b) none) b (suc (suc b)) none answers
          (omega arith)
          (Strings-update s.memory.block (suc b) (suc (suc b)) none answers (omega arith)
            r.strings.2);
    l_below = omega (arith, r.l_below);
    t_below = omega (arith, r.t_below);
  }

  print_from-round :
      (l t b : ℕ) (a : List ℕ × List ℕ) (answers : List (List ℕ × List ℕ)) (left i room : ℕ)
      (s : Client W)
      → Rest l t b (a ∷ answers) left i s
      → print_from (suc room) i s
        ≡ (print_from room (suc i) >>= λ lines. return (ip_of a ∷ lines)) (round_freed b s)
  unfolding print_from
  print_from-round l t b a answers left i room s r =
      let m = s.memory in
      let loaded =
        load-entry l m r.xs (Pointer.at (suc b))
          (addresses (suc (suc (suc b))) answers ++ (null ∷ replicate left unset)) i
          (sym r.length_xs) r.arrays.list_block in
      let line = load_text-string (suc b) m (ip_of a) r.strings.1 in
      let freed_ip = free-some (suc b) m (string (ip_of a)) r.strings.1 in
      let m' = record m { block = update m.block (suc b) none } in
      let loaded' =
        load-entry t m' r.ys (Pointer.at b)
          (addresses (suc (suc b)) answers ++ (null ∷ replicate left unset)) i (sym r.length_ys)
          (update_ne m.block (suc b) t none (omega (arith, r.t_below)) ∙ r.arrays.status_block) in
      let freed_status =
        free-some b m' (string (c_str a.0))
          (update_ne m.block (suc b) b none (λ x. absurd (omega (arith, x))) ∙ r.strings.0) in
      ground
        (arith, loaded, line, freed_ip, loaded', freed_status, r.arrays.list_at, r.arrays.status_at)

  print_from-freed :
      (l t b : ℕ) (answers : List (List ℕ × List ℕ)) (left i room : ℕ) (s : Client W)
      → Rest l t b answers left i s
      → length answers < room
      → print_from room i s
        ≡ some (map ip_of answers, with_blocks (freed b answers s.memory.block) s)
  unfolding print_from freed
  print_from-freed l t b answers left i zero s r h = absurd (omega (arith, h))
  print_from-freed l t b [] left i (suc room) s r h =
      let loaded =
        load-entry l s.memory r.xs null (replicate left unset) i (sym r.length_xs)
          r.arrays.list_block in
      ground (arith, loaded, r.arrays.list_at)
  print_from-freed l t b (a ∷ answers) left i (suc room) s r h =
      print_from-round l t b a answers left i room s r
      ∙ >>=-some (print_from room (suc i)) (λ lines. return (ip_of a ∷ lines)) (round_freed b s)
          (print_from-freed l t (suc (suc b)) answers left (suc i) room (round_freed b s)
            (Rest-next l t b a answers left i s r) (omega (arith, h)))

-- Where the list begins.
pub Rest-start :
    {W : Type 0} (base : ℕ) (before : ℕ → Option Block) (answers : List (List ℕ × List ℕ))
    (s : Client W) (listing : Listing base answers before s)
    → Rest base (suc base) (suc (suc base)) answers listing.left 0 s
Rest-start base before answers s listing = record {
  xs = [];
  ys = [];
  length_xs = refl;
  length_ys = refl;
  arrays = listing.arrays;
  strings = listing.strings;
  l_below = omega arith;
  t_below = omega arith;
}

-- The blocks once the strings and both arrays have been freed are those from before the search.
pub all_freed : ℕ → List (List ℕ × List ℕ) → (ℕ → Option Block) → ℕ → Option Block
all_freed base answers blocks =
    update (update (freed (suc (suc base)) answers blocks) base none) (suc base) none

pub all_freed-eq :
    {W : Type 0} (base : ℕ) (before : ℕ → Option Block) (answers : List (List ℕ × List ℕ))
    (s : Client W)
    → Listing base answers before s
    → ((a : ℕ) → base ≤ a → before a ≡ none)
    → (a : ℕ) → all_freed base answers s.memory.block a ≡ before a
unfolding all_freed
all_freed-eq base before answers s listing fresh a =
    let strings_freed = freed (suc (suc base)) answers s.memory.block in
    elim (Bool-cases (ltb a base)) [
      | inl old ↦
          let h = ltb→lt _ _ old in
          update_ne (update strings_freed base none) (suc base) a none (omega (arith, h))
          ∙ update_ne strings_freed base a none (omega (arith, h))
          ∙ freed-below (suc (suc base)) answers s.memory.block a (omega (arith, h))
          ∙ listing.older a h
      | inr new ↦
          (elim (Bool-cases (ltb a (suc (suc base)))) [
            | inl array ↦ ground (arith, new, array)
            | inr behind ↦
                update_ne (update strings_freed base none) (suc base) a none
                  (ground (arith, behind))
                ∙ update_ne strings_freed base a none (ground (arith, behind))
                ∙ freed-from (suc (suc base)) answers s.memory.block listing.newer a
                    (ground (arith, behind))
          ])
          ∙ sym (fresh a (ground (arith, new)))
    ]

-- The list command, once the search has left a list.
listed-Released :
    {W : Type 0} (os : DiscoveryOs W) (base : ℕ) (before : ℕ → Option Block)
    (answers : List (List ℕ × List ℕ)) (s : Client W)
    → Listing base answers before s
    → (if is_null s.ip_list then return none else (do
      lines ← print_from max_ips 0
      free s.ip_list
      free s.ip_status
      return (some lines)))
        s
      ≡ some (some (map ip_of answers), with_blocks (all_freed base answers s.memory.block) s)
unfolding all_freed
listed-Released os base before answers s listing =
    let blocks = freed (suc (suc base)) answers s.memory.block in
    let m = record s.memory { block = blocks } in
    let printed =
      print_from-freed base (suc base) (suc (suc base)) answers listing.left 0 max_ips s
        (Rest-start base before answers s listing) (omega (arith, listing.rooms)) in
    let list_freed = free-some base m _ (
      freed-below (suc (suc base)) answers s.memory.block base (omega arith)
      ∙ listing.arrays.list_block) in
    let status_freed =
      free-some (suc base) (record m { block = update blocks base none }) _
        (update_ne blocks base (suc base) none (λ x. absurd (omega (arith, x)))
          ∙ freed-below (suc (suc base)) answers s.memory.block (suc base) (omega arith)
          ∙ listing.arrays.status_block) in
    ground
      (arith, printed, list_freed, status_freed, listing.arrays.list_at, listing.arrays.status_at)

-- Where `sendRequest` leaves a list of fewer than 300 servers, and no block stands yet where `malloc` gives one,
-- `handle_list_connections` uses no memory that is not its own: it prints the list, and gives back
-- every block that the search has taken, and no other. Then `ip_list` still points to the freed array.
pub handle_list_connections-Released :
    {W : Type 0} (os : DiscoveryOs W) (s : Client W) (f : Found)
    → IsFresh s.memory
    → (Discovery.send_request os s.world).0 ≡ some f
    → f.count < max_ips
    → (end : Client W) × (handle_list_connections os s
        ≡ some (Discovery.handle_list_connections (some f), end))
      × ((a : ℕ) → end.memory.block a ≡ s.memory.block a)
      × IsFresh end.memory
      × (end.ip_list ≡ Pointer.at s.memory.next)
unfolding handle_list_connections Discovery.handle_list_connections
handle_list_connections-Released os s f fresh found below =
    let left = send_request-Left os s f fresh found below in
    let unchanged =
      all_freed-eq s.memory.next s.memory.block left.answers left.end left.listing fresh in
    (
      with_blocks (all_freed s.memory.next left.answers left.end.memory.block) left.end,
      >>=-some (send_request os) _ s left.result
          ∙ listed-Released os s.memory.next s.memory.block left.answers left.end left.listing
          ∙ ap
              (λ lines. some (
                lines,
                with_blocks (all_freed s.memory.next left.answers left.end.memory.block) left.end,
              ))
              (sym left.same_ips),
      unchanged,
      λ a h. unchanged a ∙ fresh a (omega (arith, h, left.grown)),
      left.listing.arrays.list_at,
    )
