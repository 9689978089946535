-- ===== src/Server/Handlers.antt =====
-- The handlers that the TCP listener starts, each run on its connection, whose descriptor is
-- `sock`. What they print is left out. `delete` of a `Socket` closes its descriptor.
pub mod Flag
pub mod Accepted
pub mod Closing
use distributed_system_manag.Base.{
  ℕ, Bool, true, false, ◌||◌, Option, none, some, List, [], ◌∷◌, ◌==◌, if◌then◌else◌,
}
use distributed_system_manag.Status.{
  Status, status_message, success, open_sharefile_connection, receiver_no_open_connection,
  reject_connection,
}
use distributed_system_manag.Node.{ServerOs, Node, outside}
use distributed_system_manag.ShareFile.Receive.{recv_all, receive_file}

-- `checkChar`
unfoldable pub check_char : ℕ → Bool
check_char choice = choice == b'a' || choice == b'A' || choice == b'r' || choice == b'R'

-- The loop that asks the user, over the lines that `std::getline` gives: the first character of the
-- first line that `check_char` accepts. `none`: the lines end first and the loop goes on.
unfoldable pub ask_user : List (List ℕ) → Option ℕ
unfolding check_char
ask_user [] = none
ask_user ([] ∷ lines) = ask_user lines
ask_user ((choice ∷ _) ∷ lines) = if check_char choice then some choice else ask_user lines

module _ {W : Type 0} (os : ServerOs W) (sock : ℕ) where
  -- `sendData` of a status message, its result not looked at.
  unfoldable pub send_status : Status → Node W → Node W
  send_status s = outside (λ w. (os.send (status_message s) w).1)

  -- `~Socket`
  unfoldable pub delete_socket : Node W → Node W
  delete_socket = outside (os.close sock)

  -- The end of a handler that has copied the socket, `TCP socket = *(TCP *)arg`: `delete` closes
  -- the descriptor, and then the copy's destructor does.
  unfoldable pub delete_twice : Node W → Node W
  unfolding delete_socket
  delete_twice n = delete_socket (delete_socket n)

  unfoldable pub handle_status_check : Node W → Node W
  unfolding send_status delete_twice
  handle_status_check n = delete_twice (
      if n.open_receive_file_connection == 0
      then send_status success n
      else send_status open_sharefile_connection n)

  unfoldable pub handle_connect_server : Node W → Node W
  unfolding delete_twice
  handle_connect_server n = delete_twice (outside (λ w. (os.send (b'1' ∷ []) w).1) n)

  unfoldable pub handle_receive_file_server : Node W → Node W
  unfolding send_status delete_twice
  handle_receive_file_server n =
      delete_twice
        (send_status open_sharefile_connection (record n { open_receive_file_connection = 1 }))

  unfoldable pub handle_close_receive_file_server : Node W → Node W
  unfolding send_status delete_twice
  handle_close_receive_file_server n =
      delete_twice (send_status success (record n { open_receive_file_connection = 0 }))

  -- After the user's answer. `receive_file`'s result is not looked at.
  unfoldable pub answer_sender : ℕ → Node W → Node W
  unfolding send_status delete_socket
  answer_sender choice n =
      let answered =
        (if choice == b'a' || choice == b'A'
          then (receive_file os (send_status success n)).1
          else send_status reject_connection n) in
      delete_socket (record answered { open_receive_file_connection = 0 })

  -- The part behind the byte that tells whether the user is to be asked; `none`: the handler waits
  -- for the user for ever.
  unfoldable pub share_file_from : List (List ℕ) → ℕ → Node W → Option (Node W)
  unfolding answer_sender delete_socket
  share_file_from lines ask_client_share_file n =
      if ask_client_share_file == 0
      then some (delete_socket (receive_file os n).1)
      else elim (ask_user lines) [ none ↦ none | some choice ↦ some (answer_sender choice n) ]

  -- By what `recv_all` has read: the one byte, or nothing after a failure.
  unfoldable pub share_file_received : List (List ℕ) → Option (List ℕ) × Node W → Option (Node W)
  unfolding share_file_from delete_socket
  share_file_received lines (none, n) = some (delete_socket n)
  share_file_received lines (some [], n) = some (delete_socket n)
  share_file_received lines (some (b ∷ _), n) = share_file_from lines b n

  unfoldable pub handle_share_file_server : List (List ℕ) → Node W → Option (Node W)
  unfolding send_status share_file_received delete_socket
  handle_share_file_server lines n =
      if n.open_receive_file_connection == 0
      then some (delete_socket (send_status receiver_no_open_connection n))
      else share_file_received lines (recv_all os 1 (send_status success n))
