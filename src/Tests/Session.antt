-- ===== src/Tests/Session.antt =====
-- The theorems on the signals and the descriptors, at inputs.
use distributed_system_manag.Base.{ℕ, ◌≡◌, refl, arith, none, some}
use distributed_system_manag.ThreadSafety.{resume}
use distributed_system_manag.Server.Listener.{ServerCommand}
use distributed_system_manag.Server.Session.Signals
use distributed_system_manag.Server.Session.Signals.{
  Threads, Place, receive_code, open_train, connect,
}
use distributed_system_manag.Server.Session.Signals.Laws.{IsSound, Reach-IsSound}
use distributed_system_manag.Sockets.Descriptors
use distributed_system_manag.Sockets.Descriptors.{Table, Stage, closes}
use distributed_system_manag.Sockets.Descriptors.Laws.{Reach-closed}

-- A code file has come while one thread waits for it.
abbrev one_code : Threads
one_code = record (Signals.move 0 Place.awaiting_code Signals.initial) {
  mesh_info_1 = resume (record { flag = 0 });
  code_files = 1;
}

Reach-IsSound_example : IsSound one_code
Reach-IsSound_example =
    Reach-IsSound one_code (Signals.next (Signals.next Signals.here (connect 0 refl)) receive_code)

abbrev sharing : ℕ → ServerCommand
sharing c = ServerCommand.share_file

abbrev served : Table
served = record {
  owner = Descriptors.update 7 (some 2) Descriptors.initial.owner;
  stage = Descriptors.update 2 (Stage.serving 7 1) Descriptors.initial.stage;
}

Reach-closed_example :
    (s : Table) × Descriptors.Reach (λ c. ServerCommand.status) Descriptors.initial s
    × (s.stage 1 ≡ Stage.serving 7 2)
    × (s.owner 7 ≡ none)
unfolding closes
Reach-closed_example = Reach-closed (λ c. ServerCommand.status) 0 1 7 1 (omega arith) refl refl
