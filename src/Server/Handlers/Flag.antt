-- ===== src/Server/Handlers/Flag.antt =====
-- The flag `OPEN_RECEIVE_FILE_CONNECTION` under the handlers.
use distributed_system_manag.Base.{
  ℕ, zero, suc, ◌≡◌, refl, Bool, Option, none, some, List, [], ◌∷◌, ◌==◌, if◌then◌else◌, arith, All,
  ◌≢◌, Option-cases, inl, inr,
}
use distributed_system_manag.Node.{ServerOs, Node, Prog}
use distributed_system_manag.Status.{status_message, success, receiver_no_open_connection}
use distributed_system_manag.ShareFile.Receive.{
  recv_all, receive_block, receive_content, receive_header, open_file, open_outpath, receive_file,
}
use distributed_system_manag.Server.Handlers.{
  send_status, handle_status_check, handle_connect_server, handle_receive_file_server,
  handle_close_receive_file_server, handle_share_file_server,
}

-- A program leaves the flag alone, on success and on failure.
abbrev KeepsFlag : {W A : Type 0} → Prog (Node W) A → Type 0
KeepsFlag {W} m =
    (n : Node W) → (m n).1.open_receive_file_connection ≡ n.open_receive_file_connection

module _ {W : Type 0} (os : ServerOs W) where
  receive_block-KeepsFlag :
      (train : Bool) (file size received : ℕ)
      → KeepsFlag (receive_block os train file size received)
  unfolding receive_block
  receive_block-KeepsFlag train file size received n = ground arith

  receive_content-KeepsFlag :
      (fuel : ℕ) (train : Bool) (file size received : ℕ)
      → KeepsFlag (receive_content os fuel train file size received)
  unfolding receive_content
  receive_content-KeepsFlag zero train file size received n = refl
  receive_content-KeepsFlag (suc fuel) train file size received n =
      elim (Option-cases (receive_block os train file size received n).0) [
        | inl e ↦ ground (arith, e, receive_block-KeepsFlag train file size received n)
        | inr (r, e) ↦ ground (
          arith,
          e,
          receive_block-KeepsFlag train file size received n,
          receive_content-KeepsFlag fuel train file size r
              (receive_block os train file size received n).1,
        )
      ]

  recv_all-flag : (len : ℕ) → KeepsFlag (recv_all os len)
  unfolding recv_all
  recv_all-flag len n = refl

  receive_header-KeepsFlag : KeepsFlag (receive_header os)
  unfolding receive_header recv_all
  receive_header-KeepsFlag n = ground arith

  open_outpath-KeepsFlag : (folder filename : List ℕ) → KeepsFlag (open_outpath os folder filename)
  unfolding open_outpath open_file
  open_outpath-KeepsFlag folder filename n = ground arith

  receive_file-KeepsFlag : KeepsFlag (receive_file os)
  unfolding receive_file
  receive_file-KeepsFlag n =
      grind (arith, receive_header-KeepsFlag, open_outpath-KeepsFlag, receive_content-KeepsFlag)

-- The requests that the handlers of this file's parent serve. A share-file request carries the
-- lines that the user types.
pub data Request : Type 0 where
  ask_status ask_connect open_receive close_receive : Request
  share_file : List (List ℕ) → Request

module _ {W : Type 0} (os : ServerOs W) (sock : ℕ) where
  -- `none`: the handler waits for the user for ever.
  unfoldable pub serve : Request → Node W → Option (Node W)
  serve ask_status n = some (handle_status_check os sock n)
  serve ask_connect n = some (handle_connect_server os sock n)
  serve open_receive n = some (handle_receive_file_server os sock n)
  serve close_receive n = some (handle_close_receive_file_server os sock n)
  serve (share_file lines) n = handle_share_file_server os sock lines n

  pub serve_all : List Request → Node W → Option (Node W)
  serve_all [] n = some n
  serve_all (r ∷ rs) n = elim (serve r n) [ none ↦ none | some n' ↦ serve_all rs n' ]

  serve-closed :
      (r : Request) (n : Node W)
      → r ≢ open_receive
      → n.open_receive_file_connection ≡ 0
      → (w : W) × (serve r n ≡ some (record n { world = w }))
  unfolding serve handle_status_check handle_connect_server handle_receive_file_server
      handle_close_receive_file_server handle_share_file_server
  serve-closed ask_status n not_open closed = ((handle_status_check os sock n).world, ground arith)
  serve-closed ask_connect n not_open closed = (_, refl)
  serve-closed open_receive n not_open closed = absurd (not_open refl)
  serve-closed close_receive n not_open closed =
      ((handle_close_receive_file_server os sock n).world, ground arith)
  serve-closed (share_file lines) n not_open closed =
      (os.close sock (os.send (status_message receiver_no_open_connection) n.world).1, ground arith)

-- Let requests "status", "connect", "shareFile" and "closeReceiveFile" be served one after another,
-- no "receiveFile" among them, while the flag is 0. Every request is served to its end, whatever the connections bring, and of the node nothing but the outside world changes: no
-- path is chosen, nothing is counted and no signal is given.
pub serve_all-closed :
    {W : Type 0} (os : ServerOs W) (sock : ℕ) (requests : List Request) (n : Node W)
    → All (λ r. r ≢ open_receive) requests
    → n.open_receive_file_connection ≡ 0
    → (w : W) × (serve_all os sock requests n ≡ some (record n { world = w }))
unfolding serve_all
serve_all-closed os sock [] n none_opens closed = (n.world, refl)
serve_all-closed os sock (r ∷ rs) n (not_open, none_opens) closed =
    let (w, served) = serve-closed os sock r n not_open closed in
    let (w', rest) = serve_all-closed os sock rs (record n { world = w }) none_opens closed in
    (w', rw (serve_all, served) rest)

-- Let the flag be set and the connection bring a byte, and let the share-file handler end. Then the
-- flag is as it was if the byte is 0, and 0 if it is not.
share_file-flag :
    {W : Type 0} (os : ServerOs W) (sock : ℕ) (lines : List (List ℕ)) (n n' : Node W) (b : ℕ)
    → n.open_receive_file_connection ≢ 0
    → (recv_all os 1 (send_status os sock success n)).0 ≡ some (b ∷ [])
    → handle_share_file_server os sock lines n ≡ some n'
    → n'.open_receive_file_connection ≡ (if b == 0 then n.open_receive_file_connection else 0)
unfolding handle_share_file_server
share_file-flag os sock lines n n' b is_set read ended = ground (
  arith,
  recv_all-flag os 1 (send_status os sock success n),
  receive_file-KeepsFlag os (recv_all os 1 (send_status os sock success n)).1,
  ended,
)
