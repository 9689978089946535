-- ===== src/ShareFile/Send.antt =====
-- The sending side: `send_all_sync`, `send_file_zero_copy` and the two `send_file` of
-- src/shareFileService/shareFileClient.cpp. What the code prints is left out.
pub mod Healthy
pub mod Sent
pub mod Asked
use distributed_system_manag.Base.{
  ℕ, zero, suc, ◌+◌, ◌-◌, ◌^◌, Bool, true, false, not, Option, none, some, List, [], ◌∷◌, ◌++◌,
  length, drop, ltb, ◌==◌, if◌then◌else◌, codes, c_str, str_eq, ℤ, pos, negsuc, ◌+ℤ◌, eqb_ℤ, to_u64,
}
use distributed_system_manag.Status.{status_message, success}
use distributed_system_manag.Node.{Prog, ◌>>=◌, ◌>>◌, guard, return}
use distributed_system_manag.ShareFile.Wire.{to_bytes}

-- The system's calls of a client. `send`, `receive` and `close` are as for a server. `send_file fd
-- offset count` is `Socket::sendFile`, which calls `sendfile`: the count of bytes sent, 0 for a
-- failure; it moves the offset by that count.
pub record ClientOs (W : Type 0) : Type 0 where
  pub connect : List ℕ → W → Bool × W
  pub send : List ℕ → W → ℕ × W
  pub receive : ℕ → W → List ℕ × W
  pub open_input : List ℕ → W → Option ℕ × W
  pub fstat : ℕ → W → Option ℕ × W
  pub send_file : ℕ → ℕ → ℕ → W → ℕ × W
  pub close : ℕ → W → W

-- `1 << 20`
abbrev pub max_chunk : ℕ
max_chunk = 2 ^ 20

module _ {W : Type 0} (os : ClientOs W) where
  open os use {connect, send, receive, open_input, fstat, close}

  -- The loop of `send_all_sync`. Each round sends a byte at least, so as many rounds as there are
  -- bytes are enough.
  unfoldable pub send_from : ℕ → List ℕ → Prog W (Unit {0})
  send_from zero bytes w = (some tt, w)
  send_from (suc fuel) bytes w =
      let (sent, w') = send bytes w in
      let rest = send_from fuel (drop sent bytes) w' in
      if ltb 0 (length bytes) then (if sent == 0 then (none, w') else rest) else (some tt, w)

  unfoldable pub send_all_sync : List ℕ → Prog W (Unit {0})
  send_all_sync bytes w = send_from (length bytes) bytes w

  -- The loop of `send_file_zero_copy` up to an `end` that is not negative. Each round sends a byte
  -- at least, so `end - offset` rounds are enough.
  unfoldable pub zero_copy_from : ℕ → ℕ → ℕ → ℕ → Prog W (Unit {0})
  zero_copy_from zero file offset end w = (some tt, w)
  zero_copy_from (suc fuel) file offset end w =
      let remaining = end - offset in
      let chunk = if ltb max_chunk remaining then max_chunk else remaining in
      let (sent, w') = os.send_file file offset chunk w in
      let rest = zero_copy_from fuel file (offset + sent) end w' in
      if ltb offset end then (if sent == 0 then (none, w') else rest) else (some tt, w)

  -- An `end` below 0 is below every offset.
  unfoldable pub send_file_zero_copy : ℕ → ℕ → ℤ → Prog W (Unit {0})
  send_file_zero_copy file start (pos end) w = zero_copy_from (end - start) file start end w
  send_file_zero_copy file start (negsuc end) w = (some tt, w)

  -- A failure closes the file.
  abbrev or_close : ℕ → Prog W (Unit {0}) → Prog W (Unit {0})
  or_close file m w = elim (m w).0 [
    | none ↦ (none, close file (m w).1)
    | some t ↦ (some t, (m w).1)
  ]

  unfoldable pub file_size_of : ℕ → Prog W ℕ
  file_size_of file w = elim (fstat file w).0 [
    | none ↦ (none, close file (fstat file w).1)
    | some st_size ↦ (some st_size, (fstat file w).1)
  ]

  unfoldable pub send_metadata : List ℕ → List ℕ → ℤ → Prog W (Unit {0})
  send_metadata folder filename file_size = do
    send_all_sync (to_bytes 4 (length folder))
    send_all_sync folder
    send_all_sync (to_bytes 4 (length filename))
    send_all_sync filename
    send_all_sync (to_bytes 8 (to_u64 file_size))

  -- `send_file` over a connected socket: `some tt` is the result 1, `none` the result -1.
  unfoldable pub send_file_on : List ℕ → List ℕ → ℕ → ℤ → Prog W (Unit {0})
  send_file_on filename folder offset chunk = do
    file ← open_input filename
    st_size ← file_size_of file
    let file_size = if eqb_ℤ chunk (negsuc 0) then pos st_size else chunk
    or_close file (send_metadata folder filename file_size)
    or_close file (send_file_zero_copy file offset (pos offset +ℤ file_size))

  -- A reply of at most 127 bytes, and whether it is "Success".
  unfoldable pub receive_success : Prog W Bool
  receive_success w =
      let (bytes, w') = receive 127 w in
      if length bytes == 0
      then (none, w')
      else (some (str_eq (c_str bytes) (status_message success)), w')

  unfoldable pub connect_to : List ℕ → Prog W (Unit {0})
  connect_to ip w = (some tt, (connect ip w).1)

  unfoldable pub await_acceptance : Bool → Prog W (Unit {0})
  await_acceptance false w = (some tt, w)
  await_acceptance true w = (receive_success >>= guard) w

  -- `send_file` to an address. The result of `connect_socket` is not looked at.
  unfoldable pub send_file : List ℕ → List ℕ → List ℕ → Bool → ℕ → ℤ → Prog W (Unit {0})
  send_file filename ip folder is_cmd_send_file offset chunk = do
    connect_to ip
    send_all_sync (codes "shareFile")
    accepted ← receive_success
    guard accepted
    send_all_sync ((if is_cmd_send_file then 1 else 0) ∷ [])
    await_acceptance is_cmd_send_file
    send_file_on filename folder offset chunk
