-- ===== src/Windows.antt =====
-- The Windows variants of the computation: `windowsdistributivecomputing.cpp` of
-- `Clients Commands/distributedcomputing` and of `server commands/distributivecomputing`.
pub mod System
pub mod Feed
pub mod Child
pub mod Divide
pub mod Run
pub mod Session
