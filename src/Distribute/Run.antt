-- ===== src/Distribute/Run.antt =====
-- `handle_distributive_systems` of
-- `Clients Commands/distributedcomputing/linuxdistributivecomputing.cpp`: who computes what, and
-- how the results are put together.
pub mod Order
pub mod Reply
pub mod Plan
pub mod Session
use distributed_system_manag.Base.{
  ℕ, zero, suc, ◌+◌, ◌*◌, ◌/◌, ◌%◌, ◌^◌, Bool, length, Option, none, some, List, [], ◌∷◌, ltb, ◌==◌,
  if◌then◌else◌, map, ℤ, pos, negsuc, ◌-◌, to_u64,
}
use distributed_system_manag.Distribute.Chunks.{Chunk, divide_file_into_chunks}
use distributed_system_manag.Discovery.{Found, entries}
use distributed_system_manag.Distribute.Local.{Args}

-- What the `async` call of a node runs.
pub data Job : Type 0 where
  local : Args → Job
  network : List ℕ → Args → Job

unfoldable pub args_of : List ℕ → List ℕ → Chunk → Args
args_of code_path train_file_path c = record {
  code_path = code_path;
  train_file_path = train_file_path;
  train_offset = c.offset;
  train_chunk_size = c.size;
}

-- The loop that starts the nodes' work, from index `i`.
unfoldable pub start_jobs : List ℕ → List ℕ → ℕ → List (List ℕ) → List Chunk → List Job
unfolding args_of
start_jobs code train i [] chunks = []
start_jobs code train i (ip ∷ ips) [] = []
start_jobs code train i (ip ∷ ips) (c ∷ chunks) =
    (if i == 0 then local (args_of code train c) else network ip (args_of code train c))
    ∷ start_jobs code train (suc i) ips chunks

-- From the list of servers and the division of the file to the jobs. `none`: the loop over the list
-- leaves the array, or the division has returned early and leaves the arrays unset.
unfoldable pub plan_jobs :
    (pread : ℕ → ℕ → List ℕ)
    → (opened : Bool) → (stat : Option ℕ) → (code_path train_file_path : List ℕ) → Found
    → Option (List Job)
unfolding entries divide_file_into_chunks start_jobs
plan_jobs pread opened stat code train f = elim (entries f.ip_list) [
  | none ↦ none
  | some ips ↦ elim (divide_file_into_chunks pread opened stat (length ips)) [
    | none ↦ none
    | some chunks ↦ some (start_jobs code train 0 ips chunks)
  ]
]

-- `^` on the low `k` bits.
unfoldable pub xor : (k : ℕ) → ℕ → ℕ → ℕ
xor zero a b = 0
xor (suc k) a b = (a % 2 + b % 2) % 2 + 2 * xor k (a / 2) (b / 2)

-- `result ^= futures[i].get()` on an `int`, by the low 32 bits of both.
unfoldable pub combine : ℕ → List ℤ → ℕ
unfolding xor
combine result [] = result
combine result (value ∷ values) = combine (xor 32 result (to_u64 value)) values

-- The 32 bits as an `int`.
unfoldable pub to_int : ℕ → ℤ
to_int bits = if ltb bits (2 ^ 31) then pos bits else negsuc ((2 ^ 32 - 1) - bits)

unfoldable pub final_result : List ℤ → ℤ
unfolding combine to_int
final_result values = to_int (combine 0 values)
