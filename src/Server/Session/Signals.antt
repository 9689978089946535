-- ===== src/Server/Session/Signals.antt =====
-- The two signals between the threads that receive files and those that compute, interleaved in
-- any order: `resume` in `receive_file`, and the two `wait` of `handle_distributive_systems`.
pub mod Laws
use distributed_system_manag.Base.{ℕ, suc, ◌+◌, ◌≡◌, some, ◌==◌, if◌then◌else◌}
use distributed_system_manag.ThreadSafety.{SharedData, wait, resume}

-- Where the thread of a "distributiveComputing" connection stands.
pub data Place : Type 0 where
  absent awaiting_code awaiting_train computing : Place

-- The shared data and the threads, with counts of what has happened: of "code" files received to
-- their end, of "train" files opened, and of the returns from either `wait`.
pub record Threads : Type 0 where
  pub mesh_info_1 : SharedData
  pub mesh_info_2 : SharedData
  pub place : ℕ → Place
  pub code_files : ℕ
  pub train_files : ℕ
  pub code_waits : ℕ
  pub train_waits : ℕ

abbrev pub move : ℕ → Place → Threads → Threads
move i p s = record s { place = λ j. if j == i then p else s.place j }

pub data Step (s : Threads) : Threads → Type 0 where
  receive_code :
      Step s (record s { mesh_info_1 = resume s.mesh_info_1; code_files = suc s.code_files })
  open_train :
      Step s (record s { mesh_info_2 = resume s.mesh_info_2; train_files = suc s.train_files })
  connect : (i : ℕ) → s.place i ≡ Place.absent → Step s (move i Place.awaiting_code s)
  pass_code :
      (i : ℕ) (d : SharedData)
      → s.place i ≡ Place.awaiting_code
      → wait s.mesh_info_1 ≡ some d
      → Step s (
          move i Place.awaiting_train (record s { mesh_info_1 = d; code_waits = suc s.code_waits }))
  pass_train :
      (i : ℕ) (d : SharedData)
      → s.place i ≡ Place.awaiting_train
      → wait s.mesh_info_2 ≡ some d
      → Step s
          (move i Place.computing (record s { mesh_info_2 = d; train_waits = suc s.train_waits }))
  leave : (i : ℕ) → s.place i ≡ Place.computing → Step s (move i Place.absent s)

-- At the program's start.
abbrev pub initial : Threads
initial = record {
  mesh_info_1 = record { flag = 0 };
  mesh_info_2 = record { flag = 0 };
  place = λ i. Place.absent;
  code_files = 0;
  train_files = 0;
  code_waits = 0;
  train_waits = 0;
}

pub data Reach (s : Threads) : Threads → Type 0 where
  here : Reach s s
  next : {t u : Threads} → Reach s t → Step t u → Reach s u
