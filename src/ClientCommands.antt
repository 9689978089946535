-- ===== src/ClientCommands.antt =====
-- The client's command line: src/clientsCommand.cpp. The table of commands, and the functions that
-- read it.
pub mod Levenshtein
pub mod Table
pub mod Talk
pub mod Suggest
pub mod Shell
pub mod Commands
