-- ===== src/ShareFile/Transfer.antt =====
-- A transfer from end to end: what `send_file` puts on a connection is what `receive_file` stores.
use distributed_system_manag.Base.{
  ℕ, ◌+◌, ◌^◌, ◌≤◌, ◌<◌, ◌≡◌, ◌∙◌, ap, sym, subst, some, List, [], ◌++◌, length, take, drop, ℤ, pos,
  negsuc, eqb_ℤ, if◌then◌else◌, append-nil, arith, length-take, length-drop,
}
use distributed_system_manag.Status.{status_message, success}
use distributed_system_manag.Node.{ServerOs, Node}
use distributed_system_manag.ShareFile.Wire.{to_bytes, transfer}
use distributed_system_manag.ShareFile.Healthy.{View, Healthy}
use distributed_system_manag.ShareFile.Receive.{receive_file}
use distributed_system_manag.ShareFile.Receive.Opened.{IsAdmitted, out_path}
use distributed_system_manag.ShareFile.Receive.Stored.{
  is_train, is_code, received_node, receive_file-stores,
}
use distributed_system_manag.ShareFile.Send.{ClientOs, send_file_on}
use distributed_system_manag.ShareFile.Send.Healthy.{ClientHealthy}
use distributed_system_manag.ShareFile.Send.Sent.{send_file_on-Puts}

-- A client and a server on which nothing of the system fails, a file at `path` on the client, and
-- an offset and a size inside it, where the chunk names the size (-1: the whole file's). If the
-- stream that reaches the server is what the client's connection has carried after `send_file` on
-- a fresh connection, then `send_file` gives 1, and `receive_file` gives 0, stores exactly the
-- file's bytes from the offset on under "received_files", the folder and the file's base name,
-- replies "Success" and leaves nothing in the stream.
pub send_file-receive_file :
    {Wc Ws : Type 0} (client : ClientOs Wc) (wire : Wc → List ℕ) (server : ServerOs Ws)
    (v : View Ws) (path content folder : List ℕ) (offset size : ℕ) (chunk : ℤ) (w : Wc)
    (n : Node Ws)
    → ClientHealthy client wire path content
    → Healthy server v
    → IsAdmitted folder path
    → (if eqb_ℤ chunk (negsuc 0) then pos (length content) else chunk) ≡ pos size
    → offset + size ≤ length content
    → size < 2 ^ 64
    → wire w ≡ []
    → v.incoming n.world ≡ wire (send_file_on client path folder offset chunk w).1
    → ((send_file_on client path folder offset chunk w).0 ≡ some tt)
      × ((w' : Ws) × (receive_file server n ≡ (
        some tt,
        received_node (is_train folder) (is_code folder) size (out_path folder path) w' n,
      ))
          × (v.file (out_path folder path) w' ≡ take size (drop offset content))
          × (v.replies w' ≡ v.replies n.world ++ status_message success)
          × (v.incoming w' ≡ []))
send_file-receive_file client wire server v path content folder offset size chunk w n healthy_c
      healthy_s admitted resolved inside small fresh joined =
    let sent = send_file_on-Puts healthy_c folder offset size chunk w resolved inside small in
    let part = take size (drop offset content) in
    let len : length part ≡ size =
      omega (arith, length-take {0} size (drop offset content), length-drop {0} offset content) in
    let stream : v.incoming n.world ≡ transfer folder path (to_bytes 8 size) (part ++ []) =
      joined
      ∙ ap (λ r. wire r.1) sent.result
      ∙ sent.put
      ∙ ap (λ t. t ++ transfer folder path (to_bytes 8 size) part) fresh
      ∙ ap (transfer folder path (to_bytes 8 size)) (sym (append-nil part)) in
    let stored =
      receive_file-stores server v healthy_s folder path part [] n admitted (omega (arith, len))
        (stream ∙ ap (λ k. transfer folder path (to_bytes 8 k) (part ++ [])) (sym len)) in
    (
      ap (λ r. r.0) sent.result,
      (
        stored.0,
        subst
            (λ k. receive_file server n ≡ (
              some tt,
              received_node (is_train folder) (is_code folder) k (out_path folder path) stored.0 n,
            ))
            len stored.1,
        stored.3,
        stored.4,
        stored.2,
      ),
    )
