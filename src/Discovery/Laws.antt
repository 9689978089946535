-- ===== src/Discovery/Laws.antt =====
-- The list of servers that the search leaves.
use mathlib.Core.Option
use mathlib.Core.Option.{some-injective}
use distributed_system_manag.Base.{
  ℕ, zero, suc, ◌+◌, ◌<◌, ◌≡◌, refl, sym, ap, ap₂, subst, ◌∙◌, ◌⊎◌, inl, inr, Bool, true, false,
  none, some, List, [], ◌∷◌, ◌++◌, map, append-nil, ltb, lt→ltb, le→ltb, arith, length,
  length-append, replicate, set, Bool-cases, Option-cases, take, codes,
}
use distributed_system_manag.Discovery.{
  DiscoveryOs, Slot, unset, null, text, Found, add_server, terminate, collect, max_ips, entries,
  find_total_connections, no_servers, leave_list, receive_answers, await_answers, send_request,
}

texts : List (List ℕ) → List Slot
texts = map (λ s. text s)

entries-texts :
    (ips : List (List ℕ)) (rest : List Slot) → entries (texts ips ++ (null ∷ rest)) ≡ some ips
unfolding entries texts
entries-texts [] rest = refl
entries-texts (ip ∷ ips) rest = ap (Option.map (◌∷◌ ip)) (entries-texts ips rest)

entries-none : (ips : List (List ℕ)) → entries (texts ips) ≡ none
unfolding entries texts
entries-none [] = refl
entries-none (ip ∷ ips) = ap (Option.map (◌∷◌ ip)) (entries-none ips)

-- The first `count` entries are written and no other; `ips` are they.
record Holds (ips : List (List ℕ)) (room : ℕ) (f : Found) : Type 0 where
  count_ips : f.count ≡ length ips
  list_ips : f.ip_list ≡ texts ips ++ replicate room unset
  all_room : length ips + room ≡ max_ips

set-texts :
    (ips : List (List ℕ)) (room : ℕ) (s : Slot)
    → set (texts ips ++ replicate (suc room) unset) (length ips) s
      ≡ texts ips ++ (s ∷ replicate room unset)
unfolding texts
set-texts [] room s = refl
set-texts (ip ∷ ips) room s = ap (◌∷◌ (text ip)) (set-texts ips room s)

texts-snoc :
    (ips : List (List ℕ)) (ip : List ℕ) (rest : List Slot)
    → texts (ips ++ (ip ∷ [])) ++ rest ≡ texts ips ++ (text ip ∷ rest)
unfolding texts
texts-snoc [] ip rest = refl
texts-snoc (i ∷ ips) ip rest = ap (◌∷◌ (text i)) (texts-snoc ips ip rest)

add_server-Holds :
    (a : List ℕ × List ℕ) (ips : List (List ℕ)) (room : ℕ) (f : Found)
    → Holds ips (suc room) f
    → Holds (ips ++ (take 15 a.1 ∷ [])) room (add_server a f)
unfolding add_server
add_server-Holds (status, ip) ips room f h = record {
  count_ips = omega (arith, h.count_ips, length-append ips (take 15 ip ∷ []));
  list_ips =
      ap₂ (λ l i. set l i (text (take 15 ip))) h.list_ips h.count_ips
      ∙ set-texts ips room (text (take 15 ip))
      ∙ sym (texts-snoc ips (take 15 ip) (replicate room unset));
  all_room = omega (arith, h.all_room, length-append ips (take 15 ip ∷ []));
}

-- The loop keeps the servers at hand and adds others behind them.
record Collected (f : Found) : Type 0 where
  ips : List (List ℕ)
  room : ℕ
  holds : Holds ips room f

module _ {W : Type 0} (os : DiscoveryOs W) where
  collect-cases :
      (room : ℕ) (f : Found) (w : W)
      → ((collect os (suc room) f w).0 ≡ f)
        ⊎ ((a : List ℕ × List ℕ) × (w' : W) × ((collect os (suc room) f w).0
              ≡ (collect os room (add_server a f) w').0))
  unfolding collect
  collect-cases room f w =
      let w1 = (os.receive_from w).1 in
      elim (Option-cases (os.receive_from w).0) [
        | inl e ↦ inl (ground (arith, e))
        | inr (a, e) ↦ elim (Bool-cases (os.malloc w1).0) [
          | inr lacks ↦ inl (ground (arith, e, lacks))
          | inl has ↦ elim (Bool-cases (os.malloc (os.malloc w1).1).0) [
            | inr lacks ↦ inl (ground (arith, e, has, lacks))
            | inl both ↦ inr (a, (os.malloc (os.malloc w1).1).1, ground (arith, e, has, both))
          ]
        ]
      ]

  collect-Holds :
      (room : ℕ) (ips : List (List ℕ)) (f : Found) (w : W)
      → Holds ips room f
      → Collected (collect os room f w).0
  unfolding collect
  collect-Holds zero ips f w h = record { ips = ips; room = 0; holds = h }
  collect-Holds (suc room) ips f w h = elim (collect-cases room f w) [
    | inl same ↦ subst Collected (sym same) (record { ips = ips; room = suc room; holds = h })
    | inr (a, w', same) ↦ subst Collected (sym same) (
        collect-Holds room (ips ++ (take 15 a.1 ∷ [])) (add_server a f) w'
          (add_server-Holds a ips room f h))
  ]

-- The list that the termination leaves.
terminate-below :
    (f : Found) → ltb f.count max_ips ≡ true → (terminate f).ip_list ≡ set f.ip_list f.count null
unfolding terminate
terminate-below f e = ground (arith, e)

terminate-above : (f : Found) → ltb f.count max_ips ≡ false → (terminate f).ip_list ≡ f.ip_list
unfolding terminate
terminate-above f e = ground (arith, e)

pub terminate_count : (f : Found) → (terminate f).count ≡ f.count
unfolding terminate
terminate_count f = ground arith

-- What a list tells a loop that looks for its end.
abbrev Counted : Found → Type 0
Counted f =
    ((f.count < max_ips) × (find_total_connections f.ip_list ≡ some f.count))
    ⊎ ((f.count ≡ max_ips) × (find_total_connections f.ip_list ≡ none))

terminate-Counted :
    (ips : List (List ℕ)) (room : ℕ) (f : Found) → Holds ips room f → Counted (terminate f)
unfolding find_total_connections
terminate-Counted ips zero f h =
    let count : f.count ≡ max_ips = omega (arith, h.count_ips, h.all_room) in
    inr (
      terminate_count f ∙ count,
      ap (λ l. Option.map length (entries l))
            (terminate-above f (le→ltb _ _ (omega (arith, count)))
              ∙ h.list_ips
              ∙ append-nil (texts ips))
          ∙ ap (Option.map length) (entries-none ips),
    )
terminate-Counted ips (suc room) f h =
    let below : f.count < max_ips = omega (arith, h.count_ips, h.all_room) in
    inl (
      omega (arith, terminate_count f, below),
      ap (λ l. Option.map length (entries l))
            (terminate-below f (lt→ltb _ _ below)
              ∙ ap₂ (λ l i. set l i null) h.list_ips h.count_ips
              ∙ set-texts ips room null)
          ∙ ap (Option.map length) (entries-texts ips (replicate room unset))
          ∙ ap some (sym h.count_ips ∙ sym (terminate_count f)),
    )

module _ {W : Type 0} (os : DiscoveryOs W) where
  no_servers-Holds : Holds [] max_ips (no_servers os)
  unfolding texts
  no_servers-Holds = record { count_ips = refl; list_ips = refl; all_room = refl }

  collected-Counted : (w : W) → Counted (terminate (collect os max_ips (no_servers os) w).0)
  collected-Counted w =
      let c = collect-Holds os max_ips [] (no_servers os) w no_servers-Holds in
      terminate-Counted c.ips c.room (collect os max_ips (no_servers os) w).0 c.holds

  leave_list-Counted :
      (list_memory status_memory : Bool) (w : W) (c : Found × W) (f : Found)
      → Counted (terminate c.0)
      → (leave_list os list_memory status_memory w c).0 ≡ some f
      → Counted f
  unfolding leave_list
  leave_list-Counted true true w (g, w') f h e = subst Counted (some-injective _ _ e) h
  leave_list-Counted true false w c f h e = cc
  leave_list-Counted false status_memory w c f h e = cc

  await_answers-Counted :
      (broadcast sent : Bool × W) (f : Found)
      → (await_answers os broadcast sent).0 ≡ some f
      → Counted f
  unfolding await_answers receive_answers
  await_answers-Counted (false, w1) sent f e = cc
  await_answers-Counted (true, w1) (false, w2) f e = cc
  await_answers-Counted (true, w1) (true, w) f e =
      leave_list-Counted (os.malloc w).0 (os.malloc (os.malloc w).1).0 (os.malloc (os.malloc w).1).1
        (collect os max_ips (no_servers os) (os.malloc (os.malloc w).1).1) f
        (collected-Counted (os.malloc (os.malloc w).1).1) e

-- Where `sendRequest` leaves a list, fewer than 300 servers have answered and the loop over the
-- list counts them; or 300 have, and the loop reads past the array's end.
pub send_request-Counted :
    {W : Type 0} (os : DiscoveryOs W) (w : W) (f : Found)
    → (send_request os w).0 ≡ some f
    → ((f.count < max_ips) × (find_total_connections f.ip_list ≡ some f.count))
      ⊎ ((f.count ≡ max_ips) × (find_total_connections f.ip_list ≡ none))
unfolding send_request
send_request-Counted os w f e =
    await_answers-Counted os (os.set_broadcast w)
      (os.send_to (codes "status") (os.set_timeout (os.set_broadcast w).1).1) f e
