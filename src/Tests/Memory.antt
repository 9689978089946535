-- ===== src/Tests/Memory.antt =====
-- The theorems on the client's memory, at a search that finds two servers.
use distributed_system_manag.Base.{
  ℕ, ◌+◌, ◌<◌, ◌≤◌, ◌≡◌, ◌⊎◌, inl, refl, true, false, Option, none, some, List, [], ◌∷◌, codes,
  length, ℤ, pos, ◌==◌, if◌then◌else◌, arith,
}
use distributed_system_manag.Discovery
use distributed_system_manag.Discovery.{DiscoveryOs}
use distributed_system_manag.Discovery.Lists.{
  Client, handle_list_connections, send_request, await_answers, receive_answers, fill_lists,
  collect, terminate, print_from, malloc,
}
use distributed_system_manag.Discovery.Lists.Left.{IsFresh}
use distributed_system_manag.Discovery.Lists.Released.{handle_list_connections-Released}
use distributed_system_manag.Discovery.Lists.Dangling.{handle_list_connections-Dangling}
use distributed_system_manag.Distribute.Chunks.{divide_file_into_chunks}
use distributed_system_manag.Distribute.Run.{Job, plan_jobs, final_result}
use distributed_system_manag.Distribute.Run.Plan.{plan_jobs-IsWhole}
use distributed_system_manag.Distribute.Run.Session.{handle_distributive_systems}
use distributed_system_manag.Distribute.Run.Session.Fault.{handle_distributive_systems-Fault}
use distributed_system_manag.Distribute.Run.Session.Released.{handle_distributive_systems-Releases}
use distributed_system_manag.Memory
use distributed_system_manag.Memory.{
  Pointer, null, string, arguments, alloc, load, load_text, store,
}
use distributed_system_manag.Tests.Distribute.{
  network, two_found, network_found, two_listed, lines, lines-ShortLines, room,
}
use distributed_system_manag.Tests.Systems.{file_pread, file_pread-ReadsFile}

-- One block stands already, and as many servers answer as the number says.
abbrev pub start : ℕ → Client ℕ
start servers = record {
  world = servers;
  memory = record { next = 4; block = λ a. if a == 3 then some (string (codes "kept")) else none };
  ip_list = null;
  ip_status = null;
  train_offset = null;
  train_chunk_size = null;
}

start-IsFresh : (servers : ℕ) → IsFresh (start servers).memory
start-IsFresh servers a h = ground (arith, h)

handle_list_connections-Released_example :
    (end : Client ℕ) × (handle_list_connections network (start 2)
      ≡ some (Discovery.handle_list_connections (some two_found), end))
    × ((a : ℕ) → end.memory.block a ≡ (start 2).memory.block a)
    × IsFresh end.memory
    × (end.ip_list ≡ Pointer.at 4)
handle_list_connections-Released_example =
    handle_list_connections-Released network (start 2) two_found (start-IsFresh 2) network_found
      (omega arith)

abbrev reached : Option (Option (List (List ℕ)) × Client ℕ) → Client ℕ
reached none = start 0
reached (some (printed, end)) = end

abbrev listed : Client ℕ
listed = reached (handle_list_connections network (start 2))

two_ips : List (List ℕ)
two_ips = codes "10.0.0.7" ∷ codes "10.0.0.7" ∷ []

start-listed : handle_list_connections network (start 2) ≡ some (some two_ips, listed)
unfolding handle_list_connections send_request await_answers receive_answers fill_lists collect
    terminate print_from load load_text store Memory.free malloc alloc two_ips
start-listed = refl

listed-fails : (network.set_broadcast listed.world).0 ≡ false
unfolding handle_list_connections send_request await_answers receive_answers fill_lists collect
    terminate print_from load load_text store Memory.free malloc alloc
listed-fails = refl

handle_list_connections-Dangling_example : handle_list_connections network listed ≡ none
handle_list_connections-Dangling_example =
    handle_list_connections-Dangling network (start 2) listed two_found (some two_ips)
      (start-IsFresh 2) network_found (omega arith) start-listed (inl listed-fails)

-- The nodes return one value, the number of the jobs.
abbrev pub compute : List Job → ℕ → List ℤ × ℕ
compute jobs w = (pos (length jobs) ∷ [], w)

abbrev opened : ℕ → ℕ → List ℕ
opened = file_pread (lines 6)

planned :
    (jobs : List Job) × (plan_jobs opened true
        (some (length (lines 6)))
        (codes "a.cpp")
        (codes "t.csv")
        two_found
      ≡ some jobs)
planned =
    let p =
      plan_jobs-IsWhole opened (lines 6) 2 1 (codes "a.cpp") (codes "t.csv") two_found
        (codes "10.0.0.7" ∷ codes "10.0.0.7" ∷ []) (file_pread-ReadsFile (lines 6)) lines-ShortLines
        room two_listed refl in
    (p.0, p.1)

handle_distributive_systems-Releases_example :
    (w : ℕ) × (end : Client ℕ) × (first : ℕ) × (handle_distributive_systems network
        (divide_file_into_chunks opened true (some (length (lines 6))))
        compute
        (codes "a.cpp")
        (codes "t.csv")
        (start 2)
      ≡ some (final_result (compute planned.0 w).0, end))
    × ((a : ℕ) → first ≤ a → a < first + length planned.0 → end.memory.block a ≡ some arguments)
    × ((a : ℕ)
        → (a < first) ⊎ (first + length planned.0 ≤ a)
        → end.memory.block a ≡ (start 2).memory.block a)
handle_distributive_systems-Releases_example =
    handle_distributive_systems-Releases network opened true (some (length (lines 6))) compute
      (codes "a.cpp") (codes "t.csv") (start 2) two_found planned.0 (λ w. refl) (start-IsFresh 2)
      network_found (omega arith) planned.1

handle_distributive_systems-Fault_example :
    handle_distributive_systems network
      (λ n. none)
      compute
      (codes "a.cpp")
      (codes "t.csv")
      (start 0)
    ≡ none
handle_distributive_systems-Fault_example =
    handle_distributive_systems-Fault network (λ n. none) compute (codes "a.cpp") (codes "t.csv")
      (start 0) (inl refl) (inl refl)
