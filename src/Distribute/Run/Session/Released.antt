-- ===== src/Distribute/Run/Session/Released.antt =====
-- What a run leaves in the client's memory.
use mathlib.Core.Option.{some-injective}
use distributed_system_manag.Base.{
  ℕ, zero, suc, ◌+◌, ◌*◌, ◌<◌, ◌≤◌, ◌≡◌, refl, sym, ap, ◌∙◌, Bool, true, false, Option, none, some,
  List, [], ◌∷◌, map, length, arith, ℤ, Option-cases, inl, inr, ◌⊎◌,
}
use distributed_system_manag.Discovery
use distributed_system_manag.Discovery.{DiscoveryOs, Found, max_ips, entries}
use distributed_system_manag.Discovery.Lists.{Client, malloc, send_request}
use distributed_system_manag.Discovery.Lists.Collected.{malloc-has}
use distributed_system_manag.Discovery.Lists.Left.{IsFresh, Listing, ip_of}
use distributed_system_manag.Discovery.Lists.Left.Search.{send_request-Left}
use distributed_system_manag.Discovery.Lists.Released.{
  Rest, Rest-start, with_blocks, freed, freed-below, freed-beyond,
}
use distributed_system_manag.Distribute.Chunks.{Chunk, divide_from, divide_file_into_chunks}
use distributed_system_manag.Distribute.Run.{start_jobs, plan_jobs, Job, final_result}
use distributed_system_manag.Distribute.Run.Session.{
  find_total_connections, free_memory, write_chunks, start_from, handle_distributive_systems,
}
use distributed_system_manag.Distribute.Run.Session.Freed.{
  run_freed, run_freed-arguments, run_freed-before,
}
use distributed_system_manag.Distribute.Run.Session.Divided.{
  given_offsets, given_sizes, divided, divided-other, write_chunks-eq, divided-Loaded,
}
use distributed_system_manag.Distribute.Run.Session.Reads.{Rest-same, count_from-eq, free_from-eq}
use distributed_system_manag.Distribute.Run.Session.Started.{
  Loaded, started, started-old, started-new, started-above, started-list, started-status,
  started-offset, started-size, start_from-eq,
}
use distributed_system_manag.Memory.{Block, numbers, arguments, alloc, update, ◌>>=◌, ◌>>◌, return}
use distributed_system_manag.Memory.Laws.{>>=-some, free-some, update_ne}

divide_from-length :
    (pread : ℕ → ℕ → List ℕ) (size n rounds i offset : ℕ)
    → length (divide_from pread size n rounds i offset) ≡ rounds
unfolding divide_from
divide_from-length pread size n zero i offset = refl
divide_from-length pread size n (suc rounds) i offset =
    ap suc (divide_from-length pread size n rounds (suc i) _)

divided-length :
    (pread : ℕ → ℕ → List ℕ) (opened : Bool) (stat : Option ℕ) (n : ℕ) (chunks : List Chunk)
    → divide_file_into_chunks pread opened stat n ≡ some chunks
    → length chunks ≡ n
unfolding divide_file_into_chunks
divided-length pread false stat n chunks e = cc
divided-length pread true none n chunks e = cc
divided-length pread true (some zero) n chunks e = cc
divided-length pread true (some (suc k)) n chunks e =
    ap length (sym (some-injective _ _ e)) ∙ divide_from-length pread (suc k) n n 0 0

plan_jobs-some :
    (pread : ℕ → ℕ → List ℕ) (opened : Bool) (stat : Option ℕ) (code train : List ℕ) (f : Found)
    (ips : List (List ℕ)) (jobs : List Job)
    → entries f.ip_list ≡ some ips
    → plan_jobs pread opened stat code train f ≡ some jobs
    → (chunks : List Chunk) × (divide_file_into_chunks pread opened stat (length ips) ≡ some chunks)
      × (start_jobs code train 0 ips chunks ≡ jobs)
unfolding plan_jobs
plan_jobs-some pread opened stat code train f ips jobs listed planned =
    elim (Option-cases (divide_file_into_chunks pread opened stat (length ips))) [
      | inl e ↦ absurd (ground (arith, e, listed, planned))
      | inr (chunks, e) ↦ (chunks, e, ground (arith, e, listed, planned))
    ]

module _ {W : Type 0} (os : DiscoveryOs W) (always : (w : W) → (os.malloc w).0 ≡ true) (base : ℕ)
    (before : ℕ → Option Block) (answers : List (List ℕ × List ℕ)) (s : Client W)
    (listing : Listing base answers before s)
    (grown : suc (suc base) + 2 * length answers ≤ s.memory.next) (chunks : List Chunk)
    (same_length : length answers ≡ length chunks) (compute : List Job → W → List ℤ × W)
    (code train : List ℕ) where
  abbrev jobs : List Job
  jobs = start_jobs code train 0 (map ip_of answers) chunks

  -- Before the jobs compute, and once they have.
  abbrev asked : Client W
  asked =
      started os (length answers)
        (divided os always base before answers s listing grown chunks same_length)

  abbrev computed : Client W
  computed = record asked { world = (compute jobs asked.world).1 }

  abbrev ended : Client W
  ended = with_blocks (run_freed base s.memory.next answers asked.memory.block) computed

  abbrev offsets_given : Client W
  offsets_given = given_offsets os always base before answers s listing grown chunks same_length

  abbrev sizes_given : Client W
  sizes_given = given_sizes os always base before answers s listing grown chunks same_length

  abbrev written : Client W
  written = divided os always base before answers s listing grown chunks same_length

  loaded :
      Loaded base
        (suc base)
        (suc (suc base))
        s.memory.next
        (suc s.memory.next)
        answers
        chunks
        listing.left
        0
        written
  loaded = divided-Loaded os always base before answers s listing grown chunks same_length

  asked-old : (a : ℕ) → a < suc (suc s.memory.next) → asked.memory.block a ≡ written.memory.block a
  unfolding alloc
  asked-old a h = started-old os (length answers) written a h

  asked-before : (a : ℕ) → a < s.memory.next → asked.memory.block a ≡ s.memory.block a
  asked-before a h =
      asked-old a (omega (arith, h))
      ∙ divided-other os always base before answers s listing grown chunks same_length a
          (omega (arith, h)) (omega (arith, h))

  asked-Rest : Rest base (suc base) (suc (suc base)) answers listing.left 0 computed
  asked-Rest =
      Rest-same base (suc base) (suc (suc base)) answers listing.left 0 s computed
        (Rest-start base before answers s listing) (started-list os (length answers) written)
        (started-status os (length answers) written)
        (λ a h. asked-before a (omega (arith, h, grown)))

  free_memory-eq : free_memory computed ≡ some (tt, ended)
  unfolding free_memory run_freed
  free_memory-eq =
      let blocks = freed (suc (suc base)) answers asked.memory.block in
      let o = s.memory.next in
      let m = record asked.memory { block = blocks } in
      let m1 = record m { block = update blocks base none } in
      let m2 = record m1 { block = update m1.block (suc base) none } in
      let m3 = record m2 { block = update m2.block o none } in
      let strings_freed =
        free_from-eq base (suc base) (suc (suc base)) answers listing.left 0 max_ips computed
          asked-Rest (omega (arith, listing.rooms)) in
      let list_freed = free-some base m _ (
        freed-below (suc (suc base)) answers asked.memory.block base (omega arith)
        ∙ asked-Rest.arrays.list_block) in
      let status_freed = free-some (suc base) m1 _ (
        update_ne blocks base (suc base) none (λ x. absurd (omega (arith, x)))
        ∙ freed-below (suc (suc base)) answers asked.memory.block (suc base) (omega arith)
        ∙ asked-Rest.arrays.status_block) in
      let offsets_freed = free-some o m2 _ (
        update_ne m1.block (suc base) o none (λ x. absurd (omega (arith, x, grown)))
        ∙ update_ne blocks base o none (λ x. absurd (omega (arith, x, grown)))
        ∙ freed-beyond (suc (suc base)) answers asked.memory.block o (omega (arith, grown))
        ∙ asked-old o (omega arith)
        ∙ loaded.offset_block) in
      let sizes_freed = free-some (suc o) m3 _ (
        update_ne m2.block o (suc o) none (λ x. absurd (omega (arith, x)))
        ∙ update_ne m1.block (suc base) (suc o) none (λ x. absurd (omega (arith, x, grown)))
        ∙ update_ne blocks base (suc o) none (λ x. absurd (omega (arith, x, grown)))
        ∙ freed-beyond (suc (suc base)) answers asked.memory.block (suc o) (omega (arith, grown))
        ∙ asked-old (suc o) (omega arith)
        ∙ loaded.size_block) in
      ground (
        arith,
        strings_freed,
        list_freed,
        status_freed,
        offsets_freed,
        sizes_freed,
        asked-Rest.arrays.list_at,
        asked-Rest.arrays.status_at,
        started-offset os (length answers) written,
        started-size os (length answers) written,
      )

  total-eq : find_total_connections s ≡ some (length answers, s)
  unfolding find_total_connections
  total-eq =
      count_from-eq base (suc base) (suc (suc base)) answers listing.left 0 max_ips s
        (Rest-start base before answers s listing) (omega (arith, listing.rooms))
      ∙ ap (λ k. some (k, s)) (omega arith)

  -- The whole run from the list on.
  rest-eq :
      (divide : ℕ → Option (List Chunk))
      → divide (length answers) ≡ some chunks
      → (do
        total_connections ← find_total_connections
        offsets ← malloc os (numbers none)
        (λ s. some (tt, record s { train_offset = offsets }))
        sizes ← malloc os (numbers none)
        (λ s. some (tt, record s { train_chunk_size = sizes }))
        write_chunks (divide total_connections)
        jobs ← start_from os code train total_connections 0
        results ←
            (λ s. let (values, w) = compute jobs s.world in some (values, record s { world = w }))
        free_memory
        return (final_result results))
          s
        ≡ some (final_result (compute jobs asked.world).0, ended)
  unfolding alloc
  rest-eq divide divided_so =
      >>=-some find_total_connections _ s total-eq
      ∙ >>=-some (malloc os (numbers none)) _ s (malloc-has os (numbers none) s (always s.world))
      ∙ >>=-some (malloc os (numbers none)) _ offsets_given
          (malloc-has os (numbers none) offsets_given (always offsets_given.world))
      ∙ >>=-some (write_chunks (divide (length answers))) _ sizes_given (
          ap (λ c. write_chunks c sizes_given) divided_so
          ∙ write_chunks-eq os always base before answers s listing grown chunks same_length)
      ∙ >>=-some (start_from os code train (length answers) 0) _ written (
          start_from-eq os always code train base (suc base) s.memory.next (suc s.memory.next)
            (suc (suc base)) answers chunks listing.left 0 written same_length loaded)
      ∙ >>=-some free_memory (λ _. return (final_result (compute jobs asked.world).0)) computed
          free_memory-eq

  ended-arguments :
      (a : ℕ)
      → suc (suc s.memory.next) ≤ a
      → a < suc (suc s.memory.next) + length answers
      → ended.memory.block a ≡ some arguments
  unfolding alloc
  ended-arguments a h h' =
      run_freed-arguments base s.memory.next answers asked.memory.block grown a h
      ∙ started-new os (length answers) written a h h'

  ended-before :
      ((a : ℕ) → base ≤ a → before a ≡ none)
      → (a : ℕ) → (a < suc (suc s.memory.next)) ⊎ (suc (suc s.memory.next) + length answers ≤ a)
      → ended.memory.block a ≡ before a
  unfolding alloc
  ended-before fresh a (inl h) =
      run_freed-before base s.memory.next answers asked.memory.block grown before
        (λ k below. asked-before k (omega (arith, below, grown)) ∙ listing.older k below) fresh
        (λ k behind below. asked-before k below ∙ listing.newer k behind) a h
  ended-before fresh a (inr h) =
      run_freed-arguments base s.memory.next answers asked.memory.block grown a (omega (arith, h))
      ∙ started-above os (length answers) written a h
      ∙ divided-other os always base before answers s listing grown chunks same_length a
          (omega (arith, h)) (omega (arith, h))
      ∙ listing.newer a (omega (arith, h, grown))
      ∙ sym (fresh a (omega (arith, h, grown)))

length-ips : (answers : List (List ℕ × List ℕ)) → length (map ip_of answers) ≡ length answers
length-ips [] = refl
length-ips (a ∷ answers) = ap suc (length-ips answers)

length-start_jobs :
    (code train : List ℕ) (i : ℕ) (ips : List (List ℕ)) (chunks : List Chunk)
    → length ips ≡ length chunks
    → length (start_jobs code train i ips chunks) ≡ length ips
unfolding start_jobs
length-start_jobs code train i [] chunks same = refl
length-start_jobs code train i (ip ∷ ips) [] same = absurd (omega (arith, same))
length-start_jobs code train i (ip ∷ ips) (c ∷ chunks) same =
    ap suc (length-start_jobs code train (suc i) ips chunks (omega (arith, same)))

-- Let `malloc` always have memory and stand at fresh addresses, let the search leave a list of fewer than 300
-- servers, and let `plan_jobs` give jobs for it. Then the run on the client's memory uses no memory
-- that is not its own: it starts these jobs, and prints the combination of what they return. Of
-- what it has taken, it has given back all but one structure of arguments for each job; no other block has changed.
pub handle_distributive_systems-Releases :
    {W : Type 0} (os : DiscoveryOs W) (pread : ℕ → ℕ → List ℕ) (opened : Bool) (stat : Option ℕ)
    (compute : List Job → W → List ℤ × W) (code train : List ℕ) (s : Client W) (f : Found)
    (jobs : List Job)
    → ((w : W) → (os.malloc w).0 ≡ true)
    → IsFresh s.memory
    → (Discovery.send_request os s.world).0 ≡ some f
    → f.count < max_ips
    → plan_jobs pread opened stat code train f ≡ some jobs
    → (w : W) × (end : Client W) × (first : ℕ) × (handle_distributive_systems os
          (divide_file_into_chunks pread opened stat)
          compute
          code
          train
          s
        ≡ some (final_result (compute jobs w).0, end))
      × ((a : ℕ) → first ≤ a → a < first + length jobs → end.memory.block a ≡ some arguments)
      × ((a : ℕ) → (a < first) ⊎ (first + length jobs ≤ a) → end.memory.block a ≡ s.memory.block a)
unfolding handle_distributive_systems
handle_distributive_systems-Releases os pread opened stat compute code train s f jobs always fresh
      found below planned =
    let left = send_request-Left os s f fresh found below in
    let (chunks, divided_so, planned_so) =
      plan_jobs-some pread opened stat code train f (map ip_of left.answers) jobs left.same_ips
        planned in
    let count = length-ips left.answers in
    let divide = divide_file_into_chunks pread opened stat in
    let same =
      sym count
      ∙ sym
          (divided-length pread opened stat (length (map ip_of left.answers)) chunks divided_so) in
    let job_count =
      ap length (sym planned_so)
      ∙ length-start_jobs code train 0 (map ip_of left.answers) chunks (count ∙ same)
      ∙ count in
    let run =
      rest-eq os always s.memory.next s.memory.block left.answers left.end left.listing left.grown
        chunks same compute code train divide (ap divide (sym count) ∙ divided_so) in
    let w =
      (asked os always s.memory.next s.memory.block left.answers left.end left.listing left.grown
        chunks same compute code train).world in
    let end =
      ended os always s.memory.next s.memory.block left.answers left.end left.listing left.grown
        chunks same compute code train in
    (
      w,
      end,
      suc (suc left.end.memory.next),
      >>=-some (send_request os) _ s left.result
          ∙ run
          ∙ ap (λ js. some (final_result (compute js w).0, end)) planned_so,
      λ a h h'.
          ended-arguments os always s.memory.next s.memory.block left.answers left.end left.listing
            left.grown chunks same compute code train a h (omega (arith, h', job_count)),
      λ a h.
          ended-before os always s.memory.next s.memory.block left.answers left.end left.listing
            left.grown chunks same compute code train fresh a (ground (arith, h, job_count)),
    )
