-- ===== src/ShareFile/Receive.antt =====
-- The receiving side: `create_dirs`, `recv_all` and `receive_file` of
-- src/shareFileService/shareFileServer.cpp. What the code prints is left out, and with it the
-- argument `askclientShareFile`, which decides nothing else.
pub mod All
pub mod Refused
pub mod Content
pub mod Opened
pub mod Confined
pub mod Stored
pub mod Header
use distributed_system_manag.Base.{
  ℕ, zero, suc, ◌+◌, ◌-◌, ◌^◌, min, Bool, true, false, not, ◌||◌, ◌&&◌, Option, none, some, List,
  [], ◌∷◌, ◌++◌, length, take, ltb, leb, ◌==◌, if◌then◌else◌, codes, c_str, str_eq, has_substring,
}
use distributed_system_manag.Status.{status_message, success}
use distributed_system_manag.ThreadSafety.{resume}
use distributed_system_manag.Node.{
  ServerOs, Node, Prog, ◌>>=◌, ◌>>◌, guard, modify, return, outside,
}
use distributed_system_manag.ShareFile.Wire.{of_bytes}

-- `BLOCK_SIZE_`
abbrev pub block_size : ℕ
block_size = 65536

-- `strrchr(filename, '/')`: the part behind the last slash, or all of it.
unfoldable pub base_name_from : List ℕ → List ℕ → List ℕ
base_name_from base [] = base
base_name_from base (c ∷ s) = base_name_from (if c == b'/' then s else base) s

unfoldable pub base_name : List ℕ → List ℕ
unfolding base_name_from
base_name filename = base_name_from filename filename

module _ {W : Type 0} (os : ServerOs W) where
  open os use {send, receive, mkdir, open_output, write, close}

  -- The loop of `create_dirs`: `before` holds the characters that `p` has passed.
  unfoldable pub create_dirs_from : List ℕ → List ℕ → W → W
  create_dirs_from before [] w = mkdir before w
  create_dirs_from before (c ∷ s) w =
      create_dirs_from (before ++ c ∷ []) s (if c == b'/' then mkdir before w else w)

  -- The loop starts at `temp + 1`; no caller passes the empty path.
  unfoldable pub create_dirs_of : List ℕ → W → W
  create_dirs_of [] w = mkdir [] w
  create_dirs_of (c ∷ s) w = create_dirs_from (c ∷ []) s w

  unfoldable pub create_dirs : List ℕ → W → W
  unfolding create_dirs_of
  create_dirs path w = create_dirs_of (take 511 (c_str path)) w

  -- The loop of `recv_all`, with `buf` the bytes so far. Each round reads a byte at least, so `len`
  -- rounds are enough.
  unfoldable pub recv_from : ℕ → ℕ → List ℕ → W → Option (List ℕ) × W
  recv_from zero len buf w = (some buf, w)
  recv_from (suc fuel) len buf w =
      let (bytes, w') = receive len w in
      let rest = recv_from fuel (len - length bytes) (buf ++ bytes) w' in
      if ltb 0 len then (if length bytes == 0 then (none, w') else rest) else (some buf, w)

  unfoldable pub recv_all : ℕ → Prog (Node W) (List ℕ)
  recv_all len n = let r = recv_from len len [] n.world in (r.0, record n { world = r.1 })

  -- The body of the loop over the file's content, behind its test. `train` tells whether the
  -- folder is "train".
  unfoldable pub receive_block : Bool → ℕ → ℕ → ℕ → Prog (Node W) ℕ
  receive_block train file file_size received n =
      let need = min (file_size - received) block_size in
      let (bytes, w) = receive need n.world in
      let (written, w') = write file bytes w in
      let received' = received + length bytes in
      if length bytes == 0
      then (none, record n { world = w })
      else (if not (written == length bytes) then (none, record n { world = close file w' }) else (
        some received',
        if train
            then record n { world = w'; processed_bytes = received' }
            else record n { world = w' },
      ))

  -- The loop itself: at no fuel `received` has reached `file_size`, which is the fuel at the start.
  unfoldable pub receive_content : ℕ → Bool → ℕ → ℕ → ℕ → Prog (Node W) ℕ
  receive_content zero train file file_size received n = (some received, n)
  receive_content (suc fuel) train file file_size received n =
      let more : Option ℕ × Node W =
        (receive_block train file file_size received >>= λ received'.
        receive_content fuel train file file_size received')
          n in
      if ltb received file_size then more else (some received, n)

  -- The part of `receive_file` that reads the two lengths, the two names and the size:
  -- (folder, filename, filesize).
  unfoldable pub receive_header : Prog (Node W) (List ℕ × List ℕ × ℕ)
  receive_header = do
    folder_length ← recv_all 4
    let folderlen = of_bytes folder_length
    guard (not (folderlen == 0 || leb 256 folderlen))
    folder ← recv_all folderlen
    name_length ← recv_all 4
    let namelen = of_bytes name_length
    guard (not (namelen == 0 || leb 256 namelen))
    filename ← recv_all namelen
    file_size ← recv_all 8
    return (folder, filename, of_bytes file_size)

  unfoldable pub open_file : List ℕ → Prog (Node W) ℕ
  open_file path n = let r = open_output path n.world in (r.0, record n { world = r.1 })

  -- The part that chooses the path, makes its folders and opens the file: the file's descriptor.
  unfoldable pub open_outpath : List ℕ → List ℕ → Prog (Node W) ℕ
  open_outpath folder filename = do
    modify (outside (mkdir (codes "received_files")))
    guard (not (has_substring folder (codes "..")))
    let folder_path = take 511 (codes "received_files/" ++ folder)
    modify (outside (create_dirs folder_path))
    let outpath = folder_path ++ b'/' ∷ base_name filename
    modify (λ n. record n { shared_outpath = take 127 outpath })
    guard (ltb (length outpath) 128)
    open_file outpath

  -- `some tt` is the result 0, `none` the result -1. A C string ends at its first NUL.
  unfoldable pub receive_file : Prog (Node W) (Unit {0})
  receive_file = do
    (folder_bytes, name_bytes, file_size) ← receive_header
    let folder = c_str folder_bytes
    let train = str_eq folder (codes "train")
    modify
        (λ n. if train then record n { shared_file_size = file_size; processed_bytes = 0 } else n)
    file ← open_outpath folder (c_str name_bytes)
    modify (λ n. if train then record n { mesh_info_2 = resume n.mesh_info_2 } else n)
    received ← receive_content file_size train file file_size 0
    modify (outside (close file))
    modify (λ n.
        if received == file_size
        then outside (λ w. (send (status_message success) w).1)
            (if str_eq folder (codes "code")
              then record n { mesh_info_1 = resume n.mesh_info_1 }
              else n)
        else n)
