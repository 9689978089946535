-- ===== src/Distribute/Run/Plan.antt =====
-- The jobs that a run starts.
use native.Mathlib.Nat.{div-le_self}
use mathlib.Core.Option.{some-injective}
use distributed_system_manag.Base.{
  ℕ, zero, suc, ◌+◌, ◌*◌, ◌/◌, ◌<◌, ◌≡◌, refl, sym, ap, ap₂, ◌∙◌, subst, Bool, true, false, some,
  List, [], ◌∷◌, map, length, All, arith, ◌==◌, if◌then◌else◌,
}
use distributed_system_manag.Distribute.Align.Laws.{ReadsFile}
use distributed_system_manag.Distribute.Chunks.{Chunk, divide_file_into_chunks}
use distributed_system_manag.Distribute.Chunks.Tiling.{divide-Tiles}
use distributed_system_manag.Distribute.Chunks.Lines.{IsWhole, ShortLines}
use distributed_system_manag.Distribute.Chunks.Coverage.{all_bytes, divide-IsWhole}
use distributed_system_manag.Distribute.Local.{Args}
use distributed_system_manag.Discovery.{Found, entries}
use distributed_system_manag.Distribute.Run.{Job, local, network, args_of, start_jobs, plan_jobs}

abbrev pub args : Job → Args
args (local a) = a
args (network ip a) = a

abbrev pub job_chunk : Job → Chunk
job_chunk j = record { offset = (args j).train_offset; size = (args j).train_chunk_size }

divided_length :
    (pread : ℕ → ℕ → List ℕ) (size m : ℕ) (chunks : List Chunk)
    → 0 < size
    → divide_file_into_chunks pread true (some size) (suc m) ≡ some chunks
    → length chunks ≡ suc m
divided_length pread zero m chunks h e = absurd (omega arith)
divided_length pread (suc k) m chunks h e =
    let (others, divided, count, tiles) = divide-Tiles pread k m in
    ap (λ (l : List Chunk). length l) (some-injective _ _ (sym e ∙ divided)) ∙ count

module _ (code train : List ℕ) where
  start_jobs-args :
      (i : ℕ) (ips : List (List ℕ)) (chunks : List Chunk)
      → length ips ≡ length chunks
      → map job_chunk (start_jobs code train i ips chunks) ≡ chunks
  unfolding start_jobs
  start_jobs-args i [] [] e = refl
  start_jobs-args i [] (c ∷ chunks) e = absurd (omega arith)
  start_jobs-args i (ip ∷ ips) [] e = absurd (omega arith)
  start_jobs-args i (ip ∷ ips) (c ∷ chunks) e =
      ap₂ (λ (d : Chunk) (ds : List Chunk). d ∷ ds) (same (i == 0))
        (start_jobs-args (suc i) ips chunks (omega arith))
    where
      same :
          (first : Bool)
          → job_chunk
              (if first then local (args_of code train c) else network ip (args_of code train c))
            ≡ c
      same true = refl
      same false = refl

  plan_jobs-eq :
      (pread : ℕ → ℕ → List ℕ) (size : ℕ) (f : Found) (ips : List (List ℕ)) (m : ℕ)
      (chunks : List Chunk)
      → entries f.ip_list ≡ some ips
      → length ips ≡ suc m
      → divide_file_into_chunks pread true (some size) (suc m) ≡ some chunks
      → plan_jobs pread true (some size) code train f ≡ some (start_jobs code train 0 ips chunks)
  unfolding plan_jobs
  plan_jobs-eq pread size f ips m chunks listed count divided =
      let shared : divide_file_into_chunks pread true (some size) (length ips) ≡ some chunks =
        ap (divide_file_into_chunks pread true (some size)) count ∙ divided in
      ground (arith, listed, shared)

pub plan_jobs-IsWhole :
    (pread : ℕ → ℕ → List ℕ) (content : List ℕ) (longest m : ℕ) (code train : List ℕ) (f : Found)
    (ips : List (List ℕ))
    → ReadsFile pread content
    → ShortLines longest content
    → m * longest < length content / (m + 3)
    → entries f.ip_list ≡ some ips
    → length ips ≡ suc m
    → (jobs : List Job) × (plan_jobs pread true (some (length content)) code train f ≡ some jobs)
      × (length (map job_chunk jobs) ≡ length ips)
      × All (IsWhole content) (map job_chunk jobs)
      × (all_bytes content (map job_chunk jobs) ≡ content)
plan_jobs-IsWhole pread content longest m code train f ips reads short room listed count =
    let (chunks, divided, whole, bytes) = divide-IsWhole pread content longest m reads short room in
    let sized : length chunks ≡ suc m =
      divided_length pread (length content) m chunks
        (omega (arith, room, div-le_self (length content) (m + 3))) divided in
    let same : map job_chunk (start_jobs code train 0 ips chunks) ≡ chunks =
      start_jobs-args code train 0 ips chunks (omega (arith, count, sized)) in
    (
      start_jobs code train 0 ips chunks,
      plan_jobs-eq code train pread (length content) f ips m chunks listed count divided,
      ap (λ (l : List Chunk). length l) same ∙ sized ∙ sym count,
      subst (All (IsWhole content)) (sym same) whole,
      ap (all_bytes content) same ∙ bytes,
    )
