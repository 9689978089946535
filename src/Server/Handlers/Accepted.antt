-- ===== src/Server/Handlers/Accepted.antt =====
-- A file that `handle_share_file_server` takes, and the whole conversation with `send_file`.
use distributed_system_manag.Base.{
  ℕ, ◌+◌, ◌^◌, ◌≤◌, ◌<◌, ◌≡◌, refl, sym, ◌∙◌, ap, Bool, true, false, ◌||◌, Option, some, List, [],
  ◌∷◌, ◌++◌, length, take, drop, ◌==◌, if◌then◌else◌, codes, arith, ℤ, pos, negsuc, eqb_ℤ,
  append-nil, length-take, length-drop,
}
use distributed_system_manag.Status.{status_message, success}
use distributed_system_manag.Node.{ServerOs, Node, outside}
use distributed_system_manag.ShareFile.Wire.{to_bytes, transfer}
use distributed_system_manag.ShareFile.Healthy.{View, Healthy}
use distributed_system_manag.ShareFile.Receive.{receive_file}
use distributed_system_manag.ShareFile.Receive.All.{recv_all_lem}
use distributed_system_manag.ShareFile.Receive.Opened.{IsAdmitted, out_path}
use distributed_system_manag.ShareFile.Receive.Stored.{receive_file-stores}
use distributed_system_manag.ShareFile.Send.{ClientOs, send_file}
use distributed_system_manag.ShareFile.Send.Healthy.{ClientHealthy}
use distributed_system_manag.ShareFile.Send.Asked.{Accepts, ask_byte, send_file-Puts}
use distributed_system_manag.Server.Handlers.{
  ask_user, send_status, delete_socket, answer_sender, share_file_from, share_file_received,
  handle_share_file_server,
}

-- The user is not asked, or types a line that begins with 'a' or 'A' before any other answer.
abbrev pub Agrees : Bool → List (List ℕ) → Type 0
Agrees false lines = Unit
Agrees true lines =
    (choice : ℕ) × (ask_user lines ≡ some choice) × ((choice == b'a' || choice == b'A') ≡ true)

module _ {W : Type 0} (os : ServerOs W) (sock : ℕ) (v : View W) (healthy : Healthy os v)
    (folder filename bytes rest : List ℕ) (admitted : IsAdmitted folder filename)
    (small : length bytes < 2 ^ 64) where
  abbrev body : List ℕ
  body = transfer folder filename (to_bytes 8 (length bytes)) (bytes ++ rest)

  -- The file is there, and the stream holds what follows the transfer.
  record IsStored (w : W) : Type 0 where
    stored : v.file (out_path folder filename) w ≡ bytes
    left : v.incoming w ≡ rest

  close-IsStored : (w : W) → IsStored w → IsStored (os.close sock w)
  close-IsStored w h = record {
    stored = (healthy.close_same sock w).same_files.files (out_path folder filename) ∙ h.stored;
    left = (healthy.close_same sock w).same_incoming ∙ h.left;
  }

  receive-IsStored : (n : Node W) → v.incoming n.world ≡ body → IsStored (receive_file os n).1.world
  receive-IsStored n stream =
      let (w', e, left, stored, replies) =
        receive_file-stores os v healthy folder filename bytes rest n admitted small stream in
      let same = ap (λ (r : Option (Unit {0}) × Node W). r.1.world) e in
      record {
        stored = ap (λ w. v.file (out_path folder filename) w) same ∙ stored;
        left = ap (λ w. v.incoming w) same ∙ left;
      }

  from-IsStored :
      (is_cmd : Bool) (lines : List (List ℕ)) (n : Node W)
      → Agrees is_cmd lines
      → v.incoming n.world ≡ body
      → (n' : Node W) × (share_file_from os sock lines (ask_byte is_cmd) n ≡ some n')
        × IsStored n'.world
  unfolding share_file_from answer_sender send_status delete_socket
  from-IsStored false lines n agrees stream =
      (_, refl, close-IsStored (receive_file os n).1.world (receive-IsStored n stream))
  from-IsStored true lines n (choice, asked, agreed) stream =
      let n1 = outside (λ w. (os.send (status_message success) w).1) n in
      let received = (receive_file os n1).1 in
      (
        record received { world = os.close sock received.world; open_receive_file_connection = 0 },
        rw (asked, agreed) refl,
        close-IsStored received.world
            (receive-IsStored n1 (healthy.send_incoming (status_message success) n.world ∙ stream)),
      )

  -- Where nothing of the system fails, files may come, and the user, if asked, agrees: the handler
  -- ends, the file's bytes are stored at its path, and the stream holds what follows the transfer.
  handle_share_file_server-IsStored :
      (is_cmd : Bool) (lines : List (List ℕ)) (n : Node W)
      → (n.open_receive_file_connection == 0) ≡ false
      → Agrees is_cmd lines
      → v.incoming n.world ≡ ask_byte is_cmd ∷ body
      → (n' : Node W) × (handle_share_file_server os sock lines n ≡ some n') × IsStored n'.world
  unfolding handle_share_file_server share_file_received send_status
  handle_share_file_server-IsStored is_cmd lines n open_ agrees stream =
      let n1 = outside (λ w. (os.send (status_message success) w).1) n in
      let (w2, e2, s2, same2) =
        recv_all_lem os v healthy 1 n1 (ask_byte is_cmd ∷ []) body refl
          (healthy.send_incoming (status_message success) n.world ∙ stream) in
      let (n', e, stored) = from-IsStored is_cmd lines (record n1 { world = w2 }) agrees s2 in
      (n', rw (open_, e2) e, stored)

-- A client and a server on which nothing of the system fails, whose answers are "Success"; a server
-- at which files may come and whose user, if asked, agrees; a file at `path` on the client, and an
-- offset and a size inside it, where the chunk names the size (-1: the whole file's). If the command
-- and then the handler's stream are what the client's fresh connection has carried after
-- `send_file`, then `send_file` gives 1, and the handler ends, has stored exactly the file's bytes
-- from the offset on under "received_files", the folder and the file's base name, and leaves nothing
-- in the stream.
pub send_file-handle_share_file_server :
    {Wc Ws : Type 0} (client : ClientOs Wc) (wire : Wc → List ℕ) (server : ServerOs Ws) (sock : ℕ)
    (v : View Ws) (path content folder ip : List ℕ) (is_cmd : Bool) (offset size : ℕ) (chunk : ℤ)
    (lines : List (List ℕ)) (w : Wc) (n : Node Ws)
    → ClientHealthy client wire path content
    → Accepts client wire
    → Healthy server v
    → IsAdmitted folder path
    → (if eqb_ℤ chunk (negsuc 0) then pos (length content) else chunk) ≡ pos size
    → offset + size ≤ length content
    → size < 2 ^ 64
    → wire w ≡ []
    → (n.open_receive_file_connection == 0) ≡ false
    → Agrees is_cmd lines
    → codes "shareFile" ++ v.incoming n.world
      ≡ wire (send_file client path ip folder is_cmd offset chunk w).1
    → ((send_file client path ip folder is_cmd offset chunk w).0 ≡ some tt)
      × ((n' : Node Ws) × (handle_share_file_server server sock lines n ≡ some n')
          × (v.file (out_path folder path) n'.world ≡ take size (drop offset content))
          × (v.incoming n'.world ≡ []))
send_file-handle_share_file_server client wire server sock v path content folder ip is_cmd offset
      size chunk lines w n healthy_c accepts healthy_s admitted resolved inside small fresh open_
      agrees joined =
    let sent =
      send_file-Puts healthy_c accepts folder ip is_cmd offset size chunk w resolved inside small in
    let part = take size (drop offset content) in
    let len : length part ≡ size =
      omega (arith, length-take {0} size (drop offset content), length-drop {0} offset content) in
    let stream : v.incoming n.world
        ≡ ask_byte is_cmd ∷ transfer folder path (to_bytes 8 size) part =
      ap (drop 9) (
        joined
        ∙ ap (λ r. wire r.1) sent.result
        ∙ sent.put
        ∙ ap
            (λ t.
              t
              ++ (codes "shareFile"
                  ++ ask_byte is_cmd ∷ transfer folder path (to_bytes 8 size) part))
            fresh) in
    let (n', e, done) =
      handle_share_file_server-IsStored server sock v healthy_s folder path part [] admitted
        (omega (arith, len)) is_cmd lines n open_ agrees
        (stream
          ∙ ap (λ k. ask_byte is_cmd ∷ transfer folder path (to_bytes 8 k) part) (sym len)
          ∙ ap (λ t. ask_byte is_cmd ∷ transfer folder path (to_bytes 8 (length part)) t)
              (sym (append-nil part))) in
    (ap (λ r. r.0) sent.result, (n', e, done.stored, done.left))
