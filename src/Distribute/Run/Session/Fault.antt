-- ===== src/Distribute/Run/Session/Fault.antt =====
-- A run without a list of servers.
use distributed_system_manag.Base.{
  ℕ, suc, ◌≡◌, refl, ◌∙◌, ◌⊎◌, inl, inr, Option, none, List, ℤ, arith,
}
use distributed_system_manag.Discovery.{DiscoveryOs}
use distributed_system_manag.Discovery.Lists.{Client, send_request}
use distributed_system_manag.Discovery.Lists.Dangling.{
  FailsEarly, load-dangling, send_request-fails,
}
use distributed_system_manag.Distribute.Chunks.{Chunk}
use distributed_system_manag.Distribute.Run.{Job}
use distributed_system_manag.Distribute.Run.Session.{
  count_from, find_total_connections, handle_distributive_systems,
}
use distributed_system_manag.Memory.{Pointer, null, Memory, load}
use distributed_system_manag.Memory.Laws.{>>=-some, >>=-none}

-- The list's pointer is `NULL`, as at the program's start, or points to an array that has been
-- freed.
abbrev pub HasNoList : {W : Type 0} → Client W → Type 0
HasNoList s =
    (s.ip_list ≡ null) ⊎ ((p : ℕ) × (s.ip_list ≡ Pointer.at p) × (s.memory.block p ≡ none))

load-null : (i : ℕ) (m : Memory) → load null i m ≡ none
unfolding load
load-null i m = refl

module _ {W : Type 0} where
  count_from-fault : (room i : ℕ) (s : Client W) → HasNoList s → count_from (suc room) i s ≡ none
  unfolding count_from
  count_from-fault room i s (inl e) = ground (arith, e, load-null i s.memory)
  count_from-fault room i s (inr (p, e, gone)) = ground (arith, e, load-dangling p i s.memory gone)

  total-fault : (s : Client W) → HasNoList s → find_total_connections s ≡ none
  unfolding find_total_connections
  total-fault s h = count_from-fault 299 0 s h

-- Where the search returns early and there is no list from before, `handle_distributive_systems`
-- reads memory that is not its own: unlike the list command it does not look for `NULL`.
pub handle_distributive_systems-Fault :
    {W : Type 0} (os : DiscoveryOs W) (divide : ℕ → Option (List Chunk))
    (compute : List Job → W → List ℤ × W) (code train : List ℕ) (s : Client W)
    → FailsEarly os s.world
    → HasNoList s
    → handle_distributive_systems os divide compute code train s ≡ none
unfolding handle_distributive_systems
handle_distributive_systems-Fault os divide compute code train s fails no_list =
    let (w, sent) = send_request-fails os s fails in
    >>=-some (send_request os) _ s sent
    ∙ >>=-none find_total_connections _ (record s { world = w })
        (total-fault (record s { world = w }) no_list)
