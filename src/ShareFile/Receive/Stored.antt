-- ===== src/ShareFile/Receive/Stored.antt =====
-- `receive_file` over a stream that holds a whole transfer.
use distributed_system_manag.Base.{
  ℕ, ◌^◌, ◌<◌, ◌≡◌, refl, ◌∙◌, ap, subst, Bool, some, List, [], ◌++◌, length, arith, true, false,
  if◌then◌else◌, codes, c_str, str_eq,
}
use distributed_system_manag.Status.{status_message, success}
use distributed_system_manag.ThreadSafety.{resume}
use distributed_system_manag.Node.{ServerOs, Node}
use distributed_system_manag.ShareFile.Wire.{to_bytes, transfer}
use distributed_system_manag.ShareFile.Healthy.{View, Healthy}
use distributed_system_manag.ShareFile.Receive.{
  receive_header, open_outpath, receive_content, receive_file,
}
use distributed_system_manag.ShareFile.Receive.Header.{receive_header_lem}
use distributed_system_manag.ShareFile.Receive.Content.{Appends, progressed, receive_content_lem}
use distributed_system_manag.ShareFile.Receive.Opened.{out_path, IsAdmitted, open_outpath_lem}

abbrev pub is_train : List ℕ → Bool
is_train folder = str_eq folder (codes "train")

abbrev pub is_code : List ℕ → Bool
is_code folder = str_eq folder (codes "code")

-- The node while the content of a transfer arrives, and after the transfer: only a "train" or a
-- "code" folder touches more than the path.
abbrev pub opened_node : {W : Type 0} → Bool → ℕ → List ℕ → W → Node W → Node W
opened_node train size path w n = record n {
  world = w;
  shared_outpath = path;
  shared_file_size = if train then size else n.shared_file_size;
  processed_bytes = if train then 0 else n.processed_bytes;
  mesh_info_2 = if train then resume n.mesh_info_2 else n.mesh_info_2;
}

abbrev pub received_node : {W : Type 0} → Bool → Bool → ℕ → List ℕ → W → Node W → Node W
received_node train code size path w n = record n {
  world = w;
  shared_outpath = path;
  shared_file_size = if train then size else n.shared_file_size;
  processed_bytes = if train then size else n.processed_bytes;
  mesh_info_1 = if code then resume n.mesh_info_1 else n.mesh_info_1;
  mesh_info_2 = if train then resume n.mesh_info_2 else n.mesh_info_2;
}

module _ {W : Type 0} (os : ServerOs W) (v : View W) (healthy : Healthy os v) where
  abbrev header_node : Bool → ℕ → W → Node W → Node W
  header_node train size w n =
      if train
      then record n { world = w; shared_file_size = size; processed_bytes = 0 }
      else record n { world = w }

  receive_file-eq :
      (folder filename : List ℕ) (size fd : ℕ) (n : Node W) (w1 w2 w3 : W)
      → c_str folder ≡ folder
      → c_str filename ≡ filename
      → receive_header os n ≡ (some (folder, filename, size), record n { world = w1 })
      → open_outpath os folder filename (header_node (is_train folder) size w1 n) ≡ (
        some fd,
        record (header_node (is_train folder) size w1 n) {
          world = w2;
          shared_outpath = out_path folder filename;
        },
      )
      → receive_content os size
          (is_train folder)
          fd
          size
          0
          (opened_node (is_train folder) size (out_path folder filename) w2 n)
        ≡ (
          some size,
          progressed
              (is_train folder)
              size
              (opened_node (is_train folder) size (out_path folder filename) w2 n)
              w3,
        )
      → receive_file os n ≡ (
        some tt,
        received_node
            (is_train folder)
            (is_code folder)
            size
            (out_path folder filename)
            (os.send (status_message success) (os.close fd w3)).1
            n,
      )
  unfolding receive_file
  receive_file-eq folder filename size fd n w1 w2 w3 ft nt e1 e2 e3 = ground arith

  -- Stream, file and replies after the file's descriptor is closed and the reply sent.
  finish :
      (fd : ℕ) (path bytes rest : List ℕ) (start w w' : W)
      → v.path_of fd w ≡ path
      → v.file path w ≡ []
      → v.replies w ≡ v.replies start
      → v.incoming w' ≡ rest
      → Appends v fd bytes w w'
      → (v.incoming (os.send (status_message success) (os.close fd w')).1 ≡ rest)
        × (v.file path (os.send (status_message success) (os.close fd w')).1 ≡ bytes)
        × (v.replies (os.send (status_message success) (os.close fd w')).1
            ≡ v.replies start ++ status_message success)
  finish fd path bytes rest start w w' path_eq empty silent stream appended = (
    healthy.send_incoming _ _ ∙ (healthy.close_same fd w').same_incoming ∙ stream,
    healthy.send_files _ path _
        ∙ (healthy.close_same fd w').same_files.files path
        ∙ subst (λ p. v.file p w' ≡ v.file p w ++ bytes) path_eq appended.stored
        ∙ ap (λ f. f ++ bytes) empty,
    healthy.send_appends _ _
        ∙ ap (λ r. r ++ status_message success)
            ((healthy.close_same fd w').same_files.same_replies ∙ appended.same_replies ∙ silent),
  )

  opened-eq :
      (train : Bool) (size : ℕ) (path : List ℕ) (w1 w2 : W) (n : Node W)
      → v.incoming w2 ≡ v.incoming (header_node train size w1 n).world
      → v.replies w2 ≡ v.replies (header_node train size w1 n).world
      → (v.incoming w2 ≡ v.incoming w1) × (v.replies w2 ≡ v.replies w1)
  opened-eq true size path w1 w2 n i r = (i, r)
  opened-eq false size path w1 w2 n i r = (i, r)

  starts_at_zero :
      (train : Bool) (size : ℕ) (path : List ℕ) (w : W) (n : Node W)
      → train ≡ true
      → (opened_node train size path w n).processed_bytes ≡ 0
  starts_at_zero true size path w n h = refl
  starts_at_zero false size path w n h = cc

  -- Where nothing of the system fails, the two names are admitted and the content is below 2^64
  -- bytes: if the stream holds the lengths, the names, the size and the content of a file, then
  -- `receive_file` gives 0, leaves in the stream what follows, stores exactly the content at the
  -- path, replies "Success", and sets of the node's variables the path, for the folder "train" the
  -- file's size, the bytes processed and the second signal, and for "code" the first signal.
  pub receive_file-stores :
      (folder filename bytes rest : List ℕ) (n : Node W)
      → IsAdmitted folder filename
      → length bytes < 2 ^ 64
      → v.incoming n.world ≡ transfer folder filename (to_bytes 8 (length bytes)) (bytes ++ rest)
      → (w' : W) × (receive_file os n ≡ (
        some tt,
        received_node
            (is_train folder)
            (is_code folder)
            (length bytes)
            (out_path folder filename)
            w'
            n,
      ))
        × (v.incoming w' ≡ rest)
        × (v.file (out_path folder filename) w' ≡ bytes)
        × (v.replies w' ≡ v.replies n.world ++ status_message success)
  receive_file-stores folder filename bytes rest n ok small stream =
      let (w1, header, stream1, same1) =
        receive_header_lem os v healthy folder filename (length bytes) (bytes ++ rest) n
          ok.folder_fits ok.filename_fits small stream in
      let opened =
        open_outpath_lem os v healthy folder filename
          (header_node (is_train folder) (length bytes) w1 n) ok in
      let (stream2, silent2) =
        opened-eq (is_train folder) (length bytes) (out_path folder filename) w1 opened.after n
          opened.stream opened.silent in
      let (w3, content, stream3, appended) =
        receive_content_lem os v healthy (length bytes) (is_train folder) opened.fd (length bytes) 0
          (opened_node (is_train folder) (length bytes) (out_path folder filename) opened.after n)
          bytes rest (omega arith) (omega arith) (stream2 ∙ stream1)
          (starts_at_zero (is_train folder) (length bytes) (out_path folder filename) opened.after
            n) in
      let (rest_stream, stored, replied) =
        finish opened.fd (out_path folder filename) bytes rest n.world opened.after w3 opened.path
          opened.empty (silent2 ∙ same1.same_replies) stream3 appended in
      (
        (os.send (status_message success) (os.close opened.fd w3)).1,
        receive_file-eq folder filename (length bytes) opened.fd n w1 opened.after w3 ok.folder_text
            ok.filename_text header opened.result content,
        rest_stream,
        stored,
        replied,
      )
