-- ===== src/Distribute.antt =====
-- The division of a training file among the nodes, of
-- src/Clients Commands/distributedcomputing/linuxdistributivecomputing.cpp.
pub mod Align
pub mod Chunks
pub mod Parse
pub mod Local
pub mod Network
pub mod Run
