-- ===== src/ShareFile.antt =====
-- File transfer: src/shareFileService/shareFileClient.cpp and shareFileServer.cpp.
pub mod Wire
pub mod Healthy
pub mod Receive
pub mod Send
pub mod Transfer
