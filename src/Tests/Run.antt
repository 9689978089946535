-- ===== src/Tests/Run.antt =====
-- The whole run of the client at an input.
use distributed_system_manag.Base.{ℕ, none, some, Option}
use distributed_system_manag.Discovery.Lists.{Client, send_request}
use distributed_system_manag.Distribute.Chunks
use distributed_system_manag.Distribute.Run.Session
use distributed_system_manag.Tests.Distribute.{network}
use distributed_system_manag.Tests.Memory
use distributed_system_manag.Tests.Windows

abbrev found : Option (Unit {0} × Client ℕ) → Client ℕ
found none = Memory.start 0
found (some (done, s)) = s

abbrev searched : Client ℕ
searched = found (send_request network (Memory.start 2))
