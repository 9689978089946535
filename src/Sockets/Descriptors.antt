-- ===== src/Sockets/Descriptors.antt =====
-- Who owns a descriptor: `acceptConnection` in the round of the TCP listener, and the ends of the
-- handlers in `server commands` and of `handle_share_file_server`, interleaved in any order. The
-- system gives a descriptor that is free; closing one that is free does nothing.
pub mod Laws
use distributed_system_manag.Base.{ℕ, suc, ◌≡◌, Option, none, some, ◌==◌, if◌then◌else◌}
use distributed_system_manag.Server.Listener.{
  ServerCommand, status, connect, share_file, receive_file, close_receive_file,
  distributive_computing,
}

-- Where a connection stands: `serving fd closes` has the descriptor `fd`, which its handler is still
-- to close `closes` times.
pub data Stage : Type 0 where
  waiting : Stage
  serving : (fd closes : ℕ) → Stage

-- How often the handler closes its descriptor: `delete` does, and the destructor of a copy.
unfoldable pub closes : ServerCommand → ℕ
closes status = 2
closes connect = 2
closes share_file = 1
closes receive_file = 2
closes close_receive_file = 2
closes distributive_computing = 1

-- The connection that a descriptor belongs to, and the stage of each connection.
pub record Table : Type 0 where
  pub owner : ℕ → Option ℕ
  pub stage : ℕ → Stage

abbrev pub update : {A : Type 0} → ℕ → A → (ℕ → A) → ℕ → A
update i a f j = if j == i then a else f j

-- `commands c` is the command that connection `c` asks for.
pub data Step (commands : ℕ → ServerCommand) (s : Table) : Table → Type 0 where
  accept :
      (c fd : ℕ)
      → s.stage c ≡ Stage.waiting
      → s.owner fd ≡ none
      → Step commands s (record {
        owner = update fd (some c) s.owner;
        stage = update c (Stage.serving fd (closes (commands c))) s.stage;
      })
  close :
      (c fd k : ℕ)
      → s.stage c ≡ Stage.serving fd (suc k)
      → Step commands s
          (record { owner = update fd none s.owner; stage = update c (Stage.serving fd k) s.stage })

abbrev pub initial : Table
initial = record { owner = λ fd. none; stage = λ c. Stage.waiting }

pub data Reach (commands : ℕ → ServerCommand) (s : Table) : Table → Type 0 where
  here : Reach commands s s
  next : {t u : Table} → Reach commands s t → Step commands t u → Reach commands s u
