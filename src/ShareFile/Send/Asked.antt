-- ===== src/ShareFile/Send/Asked.antt =====
-- What the outer `send_file`, which asks the receiver first, puts on the connection.
use distributed_system_manag.Base.{
  ℕ, ◌+◌, ◌^◌, ◌≤◌, ◌<◌, ◌≡◌, refl, ◌∙◌, ap, Bool, true, false, some, List, [], ◌∷◌, ◌++◌, length,
  take, drop, if◌then◌else◌, codes, c_str, str_eq, ℤ, pos, negsuc, eqb_ℤ, append_assoc, append-nil,
  sym, arith,
}
use distributed_system_manag.Node.{guard, >>=-eq}
use distributed_system_manag.Status.{status_message, success}
use distributed_system_manag.ShareFile.Wire.{to_bytes, transfer}
use distributed_system_manag.ShareFile.Send.{
  ClientOs, send_all_sync, send_file_on, receive_success, connect_to, await_acceptance, send_file,
}
use distributed_system_manag.ShareFile.Send.Healthy.{ClientHealthy}
use distributed_system_manag.ShareFile.Send.Sent.{Puts, send_all_sync-Puts, send_file_on-Puts}

-- The receiver can be reached, and each of its answers is "Success".
pub record Accepts {W : Type 0} (os : ClientOs W) (wire : W → List ℕ) : Type 0 where
  pub connect_wire : (ip : List ℕ) (w : W) → wire (os.connect ip w).1 ≡ wire w
  pub answer : (w : W) → (os.receive 127 w).0 ≡ status_message success
  pub answer_wire : (w : W) → wire (os.receive 127 w).1 ≡ wire w

-- The byte that tells the receiver whether to ask its user.
abbrev pub ask_byte : Bool → ℕ
ask_byte is_cmd = if is_cmd then 1 else 0

chain : (w a b c : List ℕ) → ((w ++ a) ++ b) ++ c ≡ w ++ (a ++ (b ++ c))
chain w a b c = simp append_assoc

module _ {W : Type 0} {os : ClientOs W} {wire : W → List ℕ} {path content : List ℕ}
    (healthy : ClientHealthy os wire path content) (accepts : Accepts os wire) where
  receive_success-eq : (w : W) → receive_success os w ≡ (some true, (os.receive 127 w).1)
  unfolding receive_success str_eq c_str
  receive_success-eq w = rw (accepts.answer w) refl

  await_acceptance-Puts : (is_cmd : Bool) (w : W) → Puts wire (await_acceptance os is_cmd) tt [] w
  unfolding await_acceptance
  await_acceptance-Puts false w = record { after = w; result = refl; put = sym (append-nil _) }
  await_acceptance-Puts true w = record {
    after = (os.receive 127 w).1;
    result = >>=-eq (receive_success os) guard w (receive_success-eq w);
    put = accepts.answer_wire w ∙ sym (append-nil _);
  }

  send_file-eq :
      (folder ip : List ℕ) (is_cmd : Bool) (offset : ℕ) (chunk : ℤ) (w w1 w2 w3 w4 w5 : W)
      → (os.connect ip w).1 ≡ w1
      → send_all_sync os (codes "shareFile") w1 ≡ (some tt, w2)
      → receive_success os w2 ≡ (some true, w3)
      → send_all_sync os (ask_byte is_cmd ∷ []) w3 ≡ (some tt, w4)
      → await_acceptance os is_cmd w4 ≡ (some tt, w5)
      → send_file os path ip folder is_cmd offset chunk w
        ≡ send_file_on os path folder offset chunk w5
  unfolding send_file connect_to
  send_file-eq folder ip is_cmd offset chunk w w1 w2 w3 w4 w5 e1 e2 e3 e4 e5 = ground arith

  -- Where nothing of the system fails and the receiver answers "Success": for an offset and a chunk
  -- inside the file, `send_file` gives 1 and puts on the connection the command, the byte that tells
  -- whether the user is asked, the names, the size and that part of the file.
  pub send_file-Puts :
      (folder ip : List ℕ) (is_cmd : Bool) (offset size : ℕ) (chunk : ℤ) (w : W)
      → (if eqb_ℤ chunk (negsuc 0) then pos (length content) else chunk) ≡ pos size
      → offset + size ≤ length content
      → size < 2 ^ 64
      → Puts wire
          (send_file os path ip folder is_cmd offset chunk)
          tt
          (codes "shareFile"
            ++ (ask_byte is_cmd
                ∷ transfer folder path (to_bytes 8 size) (take size (drop offset content))))
          w
  send_file-Puts folder ip is_cmd offset size chunk w resolved inside small =
      let w1 = (os.connect ip w).1 in
      let command = send_all_sync-Puts healthy (codes "shareFile") w1 in
      let w3 = (os.receive 127 command.after).1 in
      let asked = send_all_sync-Puts healthy (ask_byte is_cmd ∷ []) w3 in
      let accepted = await_acceptance-Puts is_cmd asked.after in
      let sent =
        send_file_on-Puts healthy folder offset size chunk accepted.after resolved inside small in
      let body = transfer folder path (to_bytes 8 size) (take size (drop offset content)) in
      record {
        after = sent.after;
        result =
            send_file-eq folder ip is_cmd offset chunk w w1 command.after w3 asked.after
              accepted.after refl command.result (receive_success-eq command.after) asked.result
              accepted.result
            ∙ sent.result;
        put =
            sent.put
            ∙ ap (λ t. t ++ body)
                (accepted.put
                  ∙ append-nil _
                  ∙ asked.put
                  ∙ ap (λ t. t ++ ask_byte is_cmd ∷ [])
                      (accepts.answer_wire command.after
                        ∙ command.put
                        ∙ ap (λ t. t ++ codes "shareFile") (accepts.connect_wire ip w)))
            ∙ chain (wire w) (codes "shareFile") (ask_byte is_cmd ∷ []) body;
      }
