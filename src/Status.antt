-- ===== src/Status.antt =====
-- The status codes of headers/status_codes.hpp and their messages, of src/Status_codes.cpp.
use distributed_system_manag.Base.{ℕ, List, codes}

pub data Status : Type 0 where
  success invalid_command open_sharefile_connection open_connection file_not_found : Status
  permission_denied unknown_error connection_error receiver_no_open_connection : Status
  reject_connection : Status

-- `STATUS_MESSAGES[s]`
abbrev pub status_message : Status → List ℕ
status_message success = codes "Success"
status_message invalid_command = codes "Invalid command"
status_message open_sharefile_connection = codes "Share file connection open"
status_message open_connection = codes "Connection open"
status_message file_not_found = codes "File not found"
status_message permission_denied = codes "Permission denied"
status_message unknown_error = codes "Unknown error"
status_message connection_error = codes "Connection error"
status_message receiver_no_open_connection =
    codes "Receiver IP don't have an open connection for receiving file"
status_message reject_connection = codes "Reciever Reject the connection request"
