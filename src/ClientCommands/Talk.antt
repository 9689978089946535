-- ===== src/ClientCommands/Talk.antt =====
-- The commands of the client that talk to one server: `sendToServer` and `clear_stdin` of
-- src/clientsCommand.cpp, and connect.cpp, handlestatus.cpp, recievefile.cpp and `sending file.cpp`
-- of `Clients Commands`. Prompts are left out.
pub mod Replies
use distributed_system_manag.Base.{
  ℕ, Bool, true, false, Option, none, some, List, [], ◌∷◌, ◌==◌, if◌then◌else◌, codes, c_str,
  str_eq, ℤ, pos, negsuc, ltb_ℤ,
}
use distributed_system_manag.Status.{
  Status, status_message, connection_error, open_sharefile_connection,
}
use distributed_system_manag.ShareFile.Send.{ClientOs}
use distributed_system_manag.ShareFile.Send
use distributed_system_manag.Sockets.{
  SocketOs, Socket, tcp, connect_socket, send_data, receive, close, fails,
}

-- `SELFIP`
abbrev pub self_ip : List ℕ
self_ip = codes "127.0.0.1"

-- What a `char *` that `sendToServer` returns points to: a constant of `STATUS_MESSAGES`, memory of
-- `malloc`, or nothing.
pub data Reply : Type 0 where
  literal : Status → Reply
  allocated : List ℕ → Reply
  null : Reply

-- By the bytes received, if any: `allocates` tells whether `malloc` succeeds.
unfoldable pub reply_of : (allocates : Bool) → ℤ × List ℕ → Reply
reply_of allocates (valread, bytes) =
    if ltb_ℤ (pos 0) valread
    then (if allocates then allocated bytes else null)
    else literal connection_error

-- `clear_stdin`: what is left of the input.
unfoldable pub clear_stdin : List ℕ → List ℕ
clear_stdin [] = []
clear_stdin (c ∷ input) = let rest = clear_stdin input in if c == 10 then input else rest

-- What becomes of a reply: `free` of memory, `free` of a constant, or no `free`.
pub data Release : Type 0 where
  valid_free invalid_free no_free : Release

unfoldable pub free : Reply → Release
free (literal _) = invalid_free
free (allocated _) = valid_free
free null = no_free

-- The text that a reply points to.
unfoldable pub text_of : Reply → Option (List ℕ)
text_of (literal s) = some (status_message s)
text_of (allocated bytes) = some (c_str bytes)
text_of null = none

-- `handle_receive_file`, by the reply: it waits for ever; it has printed a text and freed the reply;
-- or it has compared no text.
pub data ReceiveEnd : Type 0 where
  waits null_text : ReceiveEnd
  failed : List ℕ → Release → (input : List ℕ) → ReceiveEnd

module _ {W : Type 0} (os : SocketOs W) where
  -- Once connected: the reply, and the socket closed by its destructor.
  unfoldable pub exchange : (allocates : Bool) → Socket → List ℕ → W → Reply × W
  unfolding send_data receive close reply_of
  exchange allocates s command w =
      let (received, w') = receive os s 8191 (send_data os s command w).1 in
      (reply_of allocates received, close os s w')

  -- By the result of `connect_socket`.
  unfoldable pub connected :
      (allocates : Bool) → Socket → List ℕ → Option (Unit {0}) × W → Reply × W
  unfolding exchange close
  connected allocates s command (none, w) = (literal connection_error, close os s w)
  connected allocates s command (some _, w) = exchange allocates s command w

  unfoldable pub send_to_server : (allocates : Bool) → (command ip : List ℕ) → W → Reply × W
  unfolding tcp connect_socket connected
  send_to_server allocates command ip w =
      let (s, w') = tcp os w in connected allocates s command (connect_socket os s ip w')

  -- The address is not used.
  unfoldable pub ask_status : (allocates : Bool) → (server_ip : List ℕ) → W → Reply × W
  unfolding send_to_server
  ask_status allocates server_ip w = send_to_server allocates (codes "status") self_ip w

  -- The text that is printed, and what becomes of the reply.
  unfoldable pub handle_status : (allocates : Bool) → W → (Option (List ℕ) × Release) × W
  unfolding ask_status text_of free
  handle_status allocates w =
      let (response, w') = ask_status allocates self_ip w in ((text_of response, free response), w')

  -- By the reply's text.
  unfoldable pub receive_end : Reply → Option (List ℕ) → (input : List ℕ) → ReceiveEnd
  unfolding free clear_stdin
  receive_end result none input = null_text
  receive_end result (some text) input =
      if str_eq text (status_message open_sharefile_connection)
      then waits
      else failed text (free result) (clear_stdin input)

  unfoldable pub handle_receive_file : (allocates : Bool) → (input : List ℕ) → W → ReceiveEnd × W
  unfolding send_to_server receive_end text_of
  handle_receive_file allocates input w =
      let (result, w') = send_to_server allocates (codes "receiveFile") self_ip w in
      (receive_end result (text_of result) input, w')

  -- How `handle_connect_client` ends.
  pub data ChatEnd : Type 0 where
    unconnected left send_failed connection_lost : ChatEnd

  -- Its loop, over the lines of the input without their newline: `none` once they are used up, and
  -- the last one is sent again and again.
  unfoldable pub chat : Socket → List (List ℕ) → W → Option ChatEnd × W
  unfolding send_data receive
  chat s [] w = (none, w)
  chat s (command ∷ commands) w =
      let (sent, w1) = send_data os s command w in
      let ((valread, bytes), w2) = receive os s 8191 w1 in
      let rest = chat s commands w2 in
      if str_eq command (codes "exit")
      then (some left, w)
      else (if fails sent
          then (some send_failed, w1)
          else (if ltb_ℤ (pos 0) valread then rest else (some connection_lost, w2)))

  -- By the result of `connect_socket`; the destructor closes the socket.
  unfoldable pub chat_connected :
      Socket → List (List ℕ) → Option (Unit {0}) × W → Option ChatEnd × W
  unfolding chat close
  chat_connected s commands (none, w) = (some unconnected, close os s w)
  chat_connected s commands (some _, w) =
      let (end, w') = chat s commands w in (end, elim end [ none ↦ w' | some _ ↦ close os s w' ])

  unfoldable pub handle_connect_client : (ip : List ℕ) → List (List ℕ) → W → Option ChatEnd × W
  unfolding tcp connect_socket chat_connected
  handle_connect_client ip commands w =
      let (s, w') = tcp os w in chat_connected s commands (connect_socket os s ip w')

-- Whether the file has been sent. The two lines are read before, each up to the array's length.
unfoldable pub handle_send_file : {W : Type 0} → ClientOs W → (ip filename : List ℕ) → W → Bool × W
unfolding Send.send_file
handle_send_file os ip filename w =
    let (result, w') = Send.send_file os filename ip (codes "files") true 0 (negsuc 0) w in
    (elim result [ none ↦ false | some _ ↦ true ], w')
