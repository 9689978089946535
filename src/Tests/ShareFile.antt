-- ===== src/Tests/ShareFile.antt =====
-- Transfers of files, and requests to a server.
pub mod Handshake
pub mod Closed
use distributed_system_manag.Base.{
  ℕ, ◌≡◌, ◌≢◌, refl, Option, true, false, All, some, List, [], ◌∷◌, ◌++◌, arith, str_eq, codes,
  c_str, has_substring, ℤ, pos, negsuc,
}
use distributed_system_manag.ThreadSafety.{resume}
use distributed_system_manag.Status.{status_message, success, reject_connection}
use distributed_system_manag.Node.{Node}
use distributed_system_manag.ShareFile.Wire.{to_bytes, of_bytes, transfer, of_bytes-to_bytes}
use distributed_system_manag.ShareFile.Healthy.{SameFiles}
use distributed_system_manag.ShareFile.Receive.{base_name, receive_file, recv_all, recv_from}
use distributed_system_manag.ShareFile.Receive.Opened.{IsAdmitted, out_path}
use distributed_system_manag.ShareFile.Receive.Stored.{received_node, receive_file-stores}
use distributed_system_manag.ShareFile.Send.{send_file_on}
use distributed_system_manag.ShareFile.Send.Sent.{Puts, send_file_on-Puts}
use distributed_system_manag.ShareFile.Transfer.{send_file-receive_file}
use distributed_system_manag.Server.Handlers.{send_status, ask_user, handle_share_file_server}
use distributed_system_manag.Server.Handlers.Flag.{
  ask_status, open_receive, share_file, serve_all, serve_all-closed,
}
use distributed_system_manag.Tests.Systems.{
  ServerWorld, server, server_view, server-Healthy, client, client-Healthy,
}

abbrev pub path : List ℕ
path = codes "/data/t.csv"

abbrev pub train : List ℕ
train = codes "train"

abbrev pub content : List ℕ
content = codes "a,b\n1,2\n"

abbrev pub part : List ℕ
part = codes "1,2\n"

abbrev pub node_of : ℕ → List ℕ → Node ServerWorld
node_of flag stream = record {
  world = record { stream = stream; stored = λ p. []; current = []; replies = [] };
  open_receive_file_connection = flag;
  shared_file_size = 0;
  processed_bytes = 0;
  shared_outpath = [];
  mesh_info_1 = record { flag = 0 };
  mesh_info_2 = record { flag = 0 };
}

-- What the client's connection carries.
abbrev pub carried : List ℕ
carried = (send_file_on (client path content) path train 4 (pos 4) []).1

pub train-IsAdmitted : IsAdmitted train path
unfolding c_str has_substring base_name
train-IsAdmitted = record {
  folder_fits = (omega arith, omega arith);
  filename_fits = (omega arith, omega arith);
  folder_text = refl;
  filename_text = refl;
  inside = refl;
  short_path = omega arith;
}

send_file-receive_file_example :
    ((send_file_on (client path content) path train 4 (pos 4) []).0 ≡ some tt)
    × ((w' : ServerWorld) × (receive_file server (node_of 1 carried)
          ≡ (some tt, received_node true false 4 (out_path train path) w' (node_of 1 carried)))
        × (w'.stored (out_path train path) ≡ part)
        × (w'.replies ≡ status_message success)
        × (w'.stream ≡ []))
unfolding str_eq resume
send_file-receive_file_example =
    send_file-receive_file (client path content) (λ w. w) server server_view path content train 4 4
      (pos 4) [] (node_of 1 carried) (client-Healthy path content) server-Healthy train-IsAdmitted
      refl (omega arith) (omega arith) refl refl

receive_file-stores_example :
    (w' : ServerWorld) × (receive_file server
        (node_of 1 (transfer train path (to_bytes 8 4) (part ++ codes "rest")))
      ≡ (
        some tt,
        received_node true false 4
            (out_path train path)
            w'
            (node_of 1 (transfer train path (to_bytes 8 4) (part ++ codes "rest"))),
      ))
    × (w'.stream ≡ codes "rest")
    × (w'.stored (out_path train path) ≡ part)
    × (w'.replies ≡ status_message success)
unfolding str_eq resume
receive_file-stores_example =
    receive_file-stores server server_view server-Healthy train path part (codes "rest")
      (node_of 1 (transfer train path (to_bytes 8 4) (part ++ codes "rest"))) train-IsAdmitted
      (omega arith) refl

send_file_on-Puts_example :
    Puts
      (λ w. w)
      (send_file_on (client path content) path train 0 (negsuc 0))
      tt
      (transfer train path (to_bytes 8 8) content)
      (codes "shareFile")
send_file_on-Puts_example =
    send_file_on-Puts (client-Healthy path content) train 0 8 (negsuc 0) (codes "shareFile") refl
      (omega arith) (omega arith)

none_opens : All (λ r. r ≢ open_receive) (share_file (codes "A" ∷ []) ∷ ask_status ∷ [])
none_opens = (λ e. cc e, (λ e. cc e, tt))

serve_all-closed_example :
    (w : ServerWorld) × (serve_all server 7
        (share_file (codes "A" ∷ []) ∷ ask_status ∷ [])
        (node_of 0 carried)
      ≡ some (record (node_of 0 carried) { world = w }))
serve_all-closed_example =
    serve_all-closed server 7 (share_file (codes "A" ∷ []) ∷ ask_status ∷ []) (node_of 0 carried)
      none_opens refl

-- A program that answers 1 to every part.
abbrev ones : ℕ → ℤ → ℕ → Option ℤ × ℕ
ones offset remaining w = (some (pos 1), w)
