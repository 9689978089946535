-- ===== src/Discovery/Lists/Dangling.antt =====
-- The list command after the list has been given back.
use mathlib.Core.Option.{some-injective}
use distributed_system_manag.Base.{
  ℕ, zero, suc, ◌<◌, ◌≡◌, refl, sym, ap, ◌∙◌, ◌⊎◌, inl, inr, false, Option, none, some, List, codes,
  arith, Bool-cases,
}
use distributed_system_manag.Discovery
use distributed_system_manag.Discovery.{DiscoveryOs, Found, max_ips}
use distributed_system_manag.Memory.{Pointer, Memory, load}
use distributed_system_manag.Memory.Laws.{>>=-some}
use distributed_system_manag.Discovery.Lists.{
  Client, print_from, await_answers, send_request, handle_list_connections,
}
use distributed_system_manag.Discovery.Lists.Left.{IsFresh}
use distributed_system_manag.Discovery.Lists.Released.{handle_list_connections-Released}

-- A setting of the socket or the sending of the request fails, so that `sendRequest` returns before
-- it asks for memory.
abbrev pub FailsEarly : {W : Type 0} → DiscoveryOs W → W → Type 0
FailsEarly os w =
    ((os.set_broadcast w).0 ≡ false)
    ⊎ ((os.send_to (codes "status") (os.set_timeout (os.set_broadcast w).1).1).0 ≡ false)

pub load-dangling : (p : ℕ) (i : ℕ) (m : Memory) → m.block p ≡ none → load (Pointer.at p) i m ≡ none
unfolding load
load-dangling p i m e = rw (load, e)

print_from-dangling :
    {W : Type 0} (p room i : ℕ) (s : Client W)
    → s.ip_list ≡ Pointer.at p
    → s.memory.block p ≡ none
    → print_from room i s ≡ none
unfolding print_from
print_from-dangling p zero i s list gone = refl
print_from-dangling p (suc room) i s list gone =
    ground (arith, list, load-dangling p i s.memory gone)

module _ {W : Type 0} (os : DiscoveryOs W) where
  -- What is left is the state but for the world.
  await_answers-fails :
      (s : Client W)
      → FailsEarly os s.world
      → (w : W) × (await_answers os s ≡ some (tt, record s { world = w }))
  unfolding await_answers
  await_answers-fails s (inl e) = (os.close (os.set_broadcast s.world).1, ground (arith, e))
  await_answers-fails s (inr e) = elim (Bool-cases (os.set_broadcast s.world).0) [
    | inl b ↦ (
      os.close (os.send_to (codes "status") (os.set_timeout (os.set_broadcast s.world).1).1).1,
      rw (b, e) refl,
    )
    | inr b ↦ (os.close (os.set_broadcast s.world).1, ground (arith, b))
  ]

  pub send_request-fails :
      (s : Client W)
      → FailsEarly os s.world
      → (w : W) × (send_request os s ≡ some (tt, record s { world = w }))
  unfolding send_request
  send_request-fails s fails =
      let (w, answered) = await_answers-fails s fails in
      (os.close w, >>=-some (await_answers os) _ s answered)

  dangling-fault :
      (s : Client W) (p : ℕ)
      → s.ip_list ≡ Pointer.at p
      → s.memory.block p ≡ none
      → FailsEarly os s.world
      → handle_list_connections os s ≡ none
  unfolding handle_list_connections
  dangling-fault s p list gone fails =
      let (w, sent) = send_request-fails s fails in
      >>=-some (send_request os) _ s sent
      ∙ ground (arith, list, print_from-dangling p max_ips 0 (record s { world = w }) list gone)

-- Let `handle_list_connections` have run where the search left a list of fewer than 300 servers.
-- If the next search returns early, the next `handle_list_connections` reads the freed array: the
-- test for `NULL` does not stop it.
pub handle_list_connections-Dangling :
    {W : Type 0} (os : DiscoveryOs W) (s end : Client W) (f : Found)
    (printed : Option (List (List ℕ)))
    → IsFresh s.memory
    → (Discovery.send_request os s.world).0 ≡ some f
    → f.count < max_ips
    → handle_list_connections os s ≡ some (printed, end)
    → FailsEarly os end.world
    → handle_list_connections os end ≡ none
handle_list_connections-Dangling os s end f printed fresh found below ended fails =
    let (end', ended', unchanged, fresh', list) =
      handle_list_connections-Released os s f fresh found below in
    let same : end' ≡ end =
      ap (λ (r : Option (List (List ℕ)) × Client _). r.1)
        (some-injective _ _ (sym ended' ∙ ended)) in
    dangling-fault os end s.memory.next (ap (λ (c : Client _). c.ip_list) (sym same) ∙ list)
      (ap (λ (c : Client _). c.memory.block s.memory.next) (sym same)
        ∙ unchanged s.memory.next
        ∙ fresh s.memory.next (omega arith))
      fails
