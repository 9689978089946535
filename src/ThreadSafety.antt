-- ===== src/ThreadSafety.antt =====
-- `SharedData` of headers/thread_safety.hpp, with `wait` and `resume` of src/threadSafety.cpp.
-- The mutex makes each of the two one step. The condition variable only says when to test the flag
-- again, so a `wait` is a step that is possible when the flag is 1.
use distributed_system_manag.Base.{ℕ, Option, none, some, ◌==◌, if◌then◌else◌}

pub record SharedData : Type 0 where
  pub flag : ℕ

-- `none`: the caller sleeps on.
unfoldable pub wait : SharedData → Option SharedData
wait d = if d.flag == 1 then some (record d { flag = 0 }) else none

unfoldable pub resume : SharedData → SharedData
resume d = record d { flag = 1 }
