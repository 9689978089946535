-- ===== src/Server/Handlers/Closing/ReceiveFile.antt =====
-- `recvAll` and `receive_file` never close the descriptor of the connection.
use distributed_system_manag.Base.{
  ℕ, zero, suc, ◌-◌, min, length, ◌++◌, ltb, c_str, codes, str_eq, ◌≡◌, ◌≢◌, refl, Bool, true,
  false, Option, some, List, [], ◌==◌, if◌then◌else◌, arith,
}
use distributed_system_manag.Node.{ServerOs, Node, guard, modify, outside}
use distributed_system_manag.ShareFile.Receive.{
  block_size, recv_from, recv_all, receive_block, receive_content, receive_header, receive_file,
}
use distributed_system_manag.Status.{status_message, success}
use distributed_system_manag.ThreadSafety.{resume}
use distributed_system_manag.ShareFile.Wire.{of_bytes}
use distributed_system_manag.Server.Handlers.Closing.{
  CountsCloses, KeepsOpen, then-KeepsOpen, guard-KeepsOpen, return-KeepsOpen, outside-KeepsOpen,
  train-KeepsOpen,
}
use distributed_system_manag.Server.Handlers.Closing.OutPath.{opened-KeepsOpen}

module _ {W : Type 0} (os : ServerOs W) (sock : ℕ) (count : W → ℕ)
    (counts : CountsCloses os sock count) where
  recv_from-count :
      (fuel len : ℕ) (buf : List ℕ) (w : W) → count (recv_from os fuel len buf w).1 ≡ count w
  unfolding recv_from
  recv_from-count zero len buf w = refl
  recv_from-count (suc fuel) len buf w =
      let (bytes, w') = os.receive len w in
      ground (
        arith,
        counts.receive_same len w,
        recv_from-count fuel (len - length bytes) (buf ++ bytes) w',
      )

  pub recv_all-KeepsOpen : (len : ℕ) → KeepsOpen count (recv_all os len)
  unfolding recv_all KeepsOpen
  recv_all-KeepsOpen len n = recv_from-count len len [] n.world

  receive_block-KeepsOpen :
      (train : Bool) (file size received : ℕ)
      → file ≢ sock
      → KeepsOpen count (receive_block os train file size received)
  unfolding receive_block KeepsOpen
  receive_block-KeepsOpen train file size received apart n =
      let need = min (size - received) block_size in
      let (bytes, w) = os.receive need n.world in
      let w' = (os.write file bytes w).1 in
      ground (
        arith,
        counts.receive_same need n.world,
        counts.write_same file bytes w,
        counts.close_other file w' apart,
      )

  receive_content-KeepsOpen :
      (fuel : ℕ) (train : Bool) (file size received : ℕ)
      → file ≢ sock
      → KeepsOpen count (receive_content os fuel train file size received)
  unfolding receive_content KeepsOpen
  receive_content-KeepsOpen zero train file size received apart n = refl
  receive_content-KeepsOpen (suc fuel) train file size received apart n =
      let more =
        then-KeepsOpen count (receive_block os train file size received)
          (λ r. receive_content os fuel train file size r)
          (receive_block-KeepsOpen train file size received apart)
          (λ r. receive_content-KeepsOpen fuel train file size r apart) n in
      kept (ltb received size) _ more
    where
      kept :
          (b : Bool) (r : Option ℕ × Node W)
          → count r.1.world ≡ count n.world
          → count (if b then r else (some received, n)).1.world ≡ count n.world
      kept true r e = e
      kept false r e = refl

  receive_header-KeepsOpen : KeepsOpen count (receive_header os)
  unfolding receive_header
  receive_header-KeepsOpen =
      then-KeepsOpen count (recv_all os 4) _ (recv_all-KeepsOpen 4) (λ folder_length.
        then-KeepsOpen count (guard _) _ (guard-KeepsOpen count _) (λ _.
          then-KeepsOpen count (recv_all os (of_bytes folder_length)) _
            (recv_all-KeepsOpen (of_bytes folder_length))
            (λ folder. then-KeepsOpen count (recv_all os 4) _ (recv_all-KeepsOpen 4) (λ name_length.
              then-KeepsOpen count (guard _) _ (guard-KeepsOpen count _) (λ _.
                then-KeepsOpen count (recv_all os (of_bytes name_length)) _
                  (recv_all-KeepsOpen (of_bytes name_length))
                  (λ filename.
                    then-KeepsOpen count (recv_all os 8) _ (recv_all-KeepsOpen 8)
                      (λ file_size. return-KeepsOpen count _)))))))

  -- The last step of `receive_file`: a signal where the file is code, and the reply.
  abbrev finish : Bool → Bool → Node W → Node W
  finish complete code n =
      if complete
      then outside (λ w. (os.send (status_message success) w).1)
          (if code then record n { mesh_info_1 = resume n.mesh_info_1 } else n)
      else n

  finish-KeepsOpen : (complete code : Bool) → KeepsOpen count (modify (finish complete code))
  unfolding KeepsOpen
  finish-KeepsOpen false code n = refl
  finish-KeepsOpen true true n = counts.send_same (status_message success) n.world
  finish-KeepsOpen true false n = counts.send_same (status_message success) n.world

  pub receive_file-KeepsOpen : KeepsOpen count (receive_file os)
  unfolding receive_file
  receive_file-KeepsOpen =
      then-KeepsOpen count (receive_header os) _ receive_header-KeepsOpen
        (λ (folder_bytes, name_bytes, file_size).
          let folder = c_str folder_bytes in
          let train = str_eq folder (codes "train") in
          then-KeepsOpen count
            (modify (λ n.
              if train then record n { shared_file_size = file_size; processed_bytes = 0 } else n))
            _
            (train-KeepsOpen count train
              (λ n. record n { shared_file_size = file_size; processed_bytes = 0 }) (λ n. refl))
            (λ _. opened-KeepsOpen os sock count counts folder (c_str name_bytes) _ (λ file apart.
              then-KeepsOpen count
                (modify (λ n. if train then record n { mesh_info_2 = resume n.mesh_info_2 } else n))
                _
                (train-KeepsOpen count train (λ n. record n { mesh_info_2 = resume n.mesh_info_2 })
                  (λ n. refl))
                (λ _.
                  then-KeepsOpen count (receive_content os file_size train file file_size 0) _
                    (receive_content-KeepsOpen file_size train file file_size 0 apart)
                    (λ received.
                      then-KeepsOpen count (modify (outside (os.close file))) _
                        (outside-KeepsOpen count (os.close file)
                          (λ w. counts.close_other file w apart))
                        (λ _.
                          finish-KeepsOpen (received == file_size)
                            (str_eq folder (codes "code"))))))))
