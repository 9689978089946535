-- ===== src/Server.antt =====
-- The servers of a node: the TCP listener of src/tcpServer.cpp with its table of
-- src/serverService.cpp, the short handlers of "src/server commands" and
-- `handle_share_file_server`, and the UDP responder of src/udpServer.cpp.
pub mod Handlers
pub mod Listener
pub mod Responder
pub mod Compute
pub mod Session
