-- ===== src/Tests/ShareFile/Handshake.antt =====
-- The conversation of both ends, and a header that is not taken.
use distributed_system_manag.Base.{
  ℕ, ◌≡◌, refl, sym, ap, ◌∙◌, some, none, inl, List, [], ◌∷◌, ◌++◌, codes, pos, true, arith,
}
use distributed_system_manag.Node.{Node}
use distributed_system_manag.ShareFile.Healthy.{SameFiles}
use distributed_system_manag.ShareFile.Wire.{of_bytes, to_bytes, transfer}
use distributed_system_manag.ShareFile.Receive.{receive_file}
use distributed_system_manag.ShareFile.Receive.Opened.{out_path}
use distributed_system_manag.ShareFile.Receive.Refused.{
  BadText, bad_length, bad_folder, receive_file-Refused,
}
use distributed_system_manag.ShareFile.Send.{send_file}
use distributed_system_manag.ShareFile.Send.Asked.{Accepts, send_file-Puts}
use distributed_system_manag.Server.Handlers.{handle_share_file_server, ask_user, check_char}
use distributed_system_manag.Server.Handlers.Accepted.{send_file-handle_share_file_server}
use distributed_system_manag.Tests.Systems.{
  ServerWorld, server, server_view, server-Healthy, client, client-Healthy,
}
use distributed_system_manag.Tests.ShareFile.{path, train, content, part, node_of, train-IsAdmitted}

-- A folder's length of 0.
abbrev empty_name : Node ServerWorld
empty_name = node_of 1 (0 ∷ 0 ∷ 0 ∷ 0 ∷ codes "train")

empty_name-BadText : BadText empty_name.world.stream
unfolding of_bytes
empty_name-BadText = bad_length (0 ∷ 0 ∷ 0 ∷ 0 ∷ []) (codes "train") refl refl (inl refl)

receive_file-Refused_example :
    (w' : ServerWorld) × (receive_file server empty_name ≡ (none, record empty_name { world = w' }))
    × SameFiles server_view empty_name.world w'
receive_file-Refused_example =
    receive_file-Refused server server_view server-Healthy empty_name
      (bad_folder empty_name-BadText)

client-Accepts : Accepts (client path content) (λ w. w)
client-Accepts = record { connect_wire = λ ip w. refl; answer = λ w. refl; answer_wire = λ w. refl }

-- What the client's connection carries, and the server's node once the listener has the command.
abbrev asked : List ℕ
asked = (send_file (client path content) path (codes "10.0.0.2") train true 4 (pos 4) []).1

abbrev awaiting : Node ServerWorld
awaiting = node_of 1 (1 ∷ transfer train path (to_bytes 8 4) part)

asked-stream : codes "shareFile" ++ awaiting.world.stream ≡ asked
asked-stream =
    let p =
      send_file-Puts (client-Healthy path content) client-Accepts train (codes "10.0.0.2") true 4 4
        (pos 4) [] refl (omega arith) (omega arith) in
    sym (ap (λ r. r.1) p.result ∙ p.put)

send_file-handle_share_file_server_example :
    ((send_file (client path content) path (codes "10.0.0.2") train true 4 (pos 4) []).0 ≡ some tt)
    × ((n' : Node ServerWorld) × (handle_share_file_server server 7
            (codes "maybe" ∷ codes "a" ∷ [])
            awaiting
          ≡ some n')
        × (n'.world.stored (out_path train path) ≡ part)
        × (n'.world.stream ≡ []))
unfolding ask_user check_char
send_file-handle_share_file_server_example =
    send_file-handle_share_file_server (client path content) (λ w. w) server 7 server_view path
      content train (codes "10.0.0.2") true 4 4 (pos 4) (codes "maybe" ∷ codes "a" ∷ []) [] awaiting
      (client-Healthy path content) client-Accepts server-Healthy train-IsAdmitted refl
      (omega arith) (omega arith) refl refl (b'a', refl, refl) asked-stream
