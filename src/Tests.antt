-- ===== src/Tests.antt =====
-- The development's theorems at concrete inputs.
pub mod Systems
pub mod ShareFile
pub mod Distribute
pub mod Commands
pub mod Session
pub mod Windows
pub mod Sockets
pub mod Memory
pub mod Datagrams
pub mod Run
pub mod Network
