-- ===== src/ShareFile/Send/Sent.antt =====
-- What `send_file` puts on the connection.
use distributed_system_manag.Base.{
  ℕ, zero, suc, ◌+◌, ◌-◌, ◌%◌, ◌^◌, ◌≤◌, ◌<◌, ◌≡◌, refl, ◌∙◌, ap, sym, false, some, List, [], ◌∷◌,
  ◌++◌, length, take, drop, ltb, ◌==◌, if◌then◌else◌, ℤ, pos, negsuc, ◌+ℤ◌, eqb_ℤ, to_u64,
  append-nil, append_assoc, take-append-drop, take-append-take, drop-drop, Bool-cases, inl, inr,
  ltb→lt, length-drop, lt→ltb, arith,
}
use distributed_system_manag.Node.{Prog}
use distributed_system_manag.ShareFile.Wire.{to_bytes, transfer}
use distributed_system_manag.ShareFile.Send.{
  ClientOs, max_chunk, send_from, send_all_sync, zero_copy_from, send_file_zero_copy, file_size_of,
  send_metadata, send_file_on,
}
use distributed_system_manag.ShareFile.Send.Healthy.{ClientHealthy}

-- The program succeeds and puts these bytes on the connection.
pub record Puts {W A : Type 0} (wire : W → List ℕ) (m : Prog W A) (a : A) (bytes : List ℕ) (w : W)
    : Type 0 where
  pub after : W
  pub result : m w ≡ (some a, after)
  pub put : wire after ≡ wire w ++ bytes

append-take_zero : (xs ys : List ℕ) (k : ℕ) → k ≡ 0 → xs ≡ xs ++ take k ys
append-take_zero xs ys zero e = sym (append-nil xs)
append-take_zero xs ys (suc k) e = absurd (omega arith)

header_then :
    (w : List ℕ) (n : ℕ) (folder : List ℕ) (m : ℕ) (filename : List ℕ) (size : ℕ) (part : List ℕ)
    → (w ++ (to_bytes 4 n ++ (folder ++ (to_bytes 4 m ++ (filename ++ to_bytes 8 size))))) ++ part
      ≡ w ++ (to_bytes 4 n ++ (folder ++ (to_bytes 4 m ++ (filename ++ (to_bytes 8 size ++ part)))))
header_then w n folder m filename size part = simp append_assoc

-- What five messages in a row put.
chain :
    (w a b c d e : List ℕ) {w1 w2 w3 w4 w5 : List ℕ}
    → w1 ≡ w ++ a
    → w2 ≡ w1 ++ b
    → w3 ≡ w2 ++ c
    → w4 ≡ w3 ++ d
    → w5 ≡ w4 ++ e
    → w5 ≡ w ++ (a ++ (b ++ (c ++ (d ++ e))))
chain w a b c d e p1 p2 p3 p4 p5 = p5 ∙ rw (p4, p3, p2, p1) (simp append_assoc)

module _ {W : Type 0} {os : ClientOs W} {wire : W → List ℕ} {path content : List ℕ}
    (healthy : ClientHealthy os wire path content) where
  send_from-Puts :
      (fuel : ℕ) (bytes : List ℕ) (w : W)
      → length bytes ≤ fuel
      → Puts wire (send_from os fuel bytes) tt bytes w
  unfolding send_from
  send_from-Puts zero [] w h = record { after = w; result = refl; put = sym (append-nil _) }
  send_from-Puts zero (b ∷ bytes) w h = absurd (omega arith)
  send_from-Puts (suc fuel) [] w h = record { after = w; result = refl; put = sym (append-nil _) }
  send_from-Puts (suc fuel) (b ∷ bytes) w h =
      let sent = (os.send (b ∷ bytes) w).0 in
      let positive : 0 < sent = healthy.send_progress (b ∷ bytes) w (omega arith) in
      let more : (sent == 0) ≡ false = ground arith in
      let rest =
        send_from-Puts fuel (drop sent (b ∷ bytes)) (os.send (b ∷ bytes) w).1
          (omega (arith, length-drop {0} sent (b ∷ bytes))) in
      record {
        after = rest.after;
        result = rw (lt→ltb 0 (length (b ∷ bytes)) (omega arith), more) rest.result;
        put =
            rest.put
            ∙ ap (λ t. t ++ drop sent (b ∷ bytes)) (healthy.send_wire (b ∷ bytes) w)
            ∙ append_assoc (wire w) (take sent (b ∷ bytes)) (drop sent (b ∷ bytes))
            ∙ ap (◌++◌ (wire w)) (take-append-drop sent (b ∷ bytes));
      }

  pub send_all_sync-Puts : (bytes : List ℕ) (w : W) → Puts wire (send_all_sync os bytes) tt bytes w
  unfolding send_all_sync
  send_all_sync-Puts bytes w =
      let p = send_from-Puts (length bytes) bytes w (omega arith) in
      record { after = p.after; result = p.result; put = p.put }

  send_metadata-eq :
      (folder filename : List ℕ) (size : ℤ) (w w1 w2 w3 w4 w5 : W)
      → send_all_sync os (to_bytes 4 (length folder)) w ≡ (some tt, w1)
      → send_all_sync os folder w1 ≡ (some tt, w2)
      → send_all_sync os (to_bytes 4 (length filename)) w2 ≡ (some tt, w3)
      → send_all_sync os filename w3 ≡ (some tt, w4)
      → send_all_sync os (to_bytes 8 (to_u64 size)) w4 ≡ (some tt, w5)
      → send_metadata os folder filename size w ≡ (some tt, w5)
  unfolding send_metadata
  send_metadata-eq folder filename size w w1 w2 w3 w4 w5 e1 e2 e3 e4 e5 = ground arith

  send_metadata-Puts :
      (folder filename : List ℕ) (size : ℤ) (w : W)
      → Puts wire
          (send_metadata os folder filename size)
          tt
          (to_bytes 4 (length folder)
            ++ (folder ++ (to_bytes 4 (length filename) ++ (filename ++ to_bytes 8 (to_u64 size)))))
          w
  send_metadata-Puts folder filename size w =
      let p1 = send_all_sync-Puts (to_bytes 4 (length folder)) w in
      let p2 = send_all_sync-Puts folder p1.after in
      let p3 = send_all_sync-Puts (to_bytes 4 (length filename)) p2.after in
      let p4 = send_all_sync-Puts filename p3.after in
      let p5 = send_all_sync-Puts (to_bytes 8 (to_u64 size)) p4.after in
      record {
        after = p5.after;
        result =
            send_metadata-eq folder filename size w p1.after p2.after p3.after p4.after p5.after
              p1.result p2.result p3.result p4.result p5.result;
        put =
            chain (wire w) (to_bytes 4 (length folder)) folder (to_bytes 4 (length filename))
              filename (to_bytes 8 (to_u64 size)) p1.put p2.put p3.put p4.put p5.put;
      }

  abbrev chunk_of : ℕ → ℕ
  chunk_of remaining = if ltb max_chunk remaining then max_chunk else remaining

  -- The part of the file from `offset` to `end`.
  zero_copy_from-Puts :
      (fuel fd offset end : ℕ) (w : W)
      → end - offset ≤ fuel
      → end ≤ length content
      → Puts wire
          (zero_copy_from os fuel fd offset end)
          tt
          (take (end - offset) (drop offset content))
          w
  unfolding zero_copy_from
  zero_copy_from-Puts zero fd offset end w h inside = record {
    after = w;
    result = refl;
    put = append-take_zero (wire w) (drop offset content) (end - offset) (omega arith);
  }
  zero_copy_from-Puts (suc fuel) fd offset end w h inside = elim (Bool-cases (ltb offset end)) [
    | inr ended ↦ record {
      after = w;
      result = rw ended;
      put = append-take_zero (wire w) (drop offset content) (end - offset) (ground (arith, ended));
    }
    | inl going ↦
        let below : offset < end = ltb→lt offset end going in
        let chunk = chunk_of (end - offset) in
        let some_bytes : 0 < chunk = ground arith in
        let few : chunk ≤ end - offset = ground arith in
        let sent = (os.send_file fd offset chunk w).0 in
        let next = (os.send_file fd offset chunk w).1 in
        let positive : 0 < sent =
          healthy.send_file_progress fd offset chunk w some_bytes (omega arith) in
        let at_most : sent ≤ chunk = healthy.send_file_at_most fd offset chunk w in
        let more : (sent == 0) ≡ false = ground arith in
        let rest = zero_copy_from-Puts fuel fd (offset + sent) end next (omega arith) inside in
        record {
          after = rest.after;
          result = rw (going, more) rest.result;
          put =
              rest.put
              ∙ ap (λ t. t ++ take (end - (offset + sent)) (drop (offset + sent) content))
                  (healthy.send_file_wire fd offset chunk w)
              ∙ append_assoc (wire w) (take sent (drop offset content)) _
              ∙ ap
                  (λ t.
                    wire w ++ (take sent (drop offset content) ++ take (end - (offset + sent)) t))
                  (sym (drop-drop offset sent content))
              ∙ ap (◌++◌ (wire w)) (
                  take-append-take sent (end - (offset + sent)) (end - offset) (drop offset content)
                    (omega arith));
        }
  ]

  -- What `send_file` sends of the content for an offset and a chunk: the rest of the file for -1.
  send_file_on-eq :
      (folder filename : List ℕ) (offset : ℕ) (chunk : ℤ) (fd size end : ℕ) (w w1 w2 : W)
      → (os.open_input filename w).0 ≡ some fd
      → (os.fstat fd (os.open_input filename w).1).0 ≡ some (length content)
      → (if eqb_ℤ chunk (negsuc 0) then pos (length content) else chunk) ≡ pos size
      → pos offset +ℤ pos size ≡ pos end
      → send_metadata os folder filename (pos size) (os.fstat fd (os.open_input filename w).1).1
        ≡ (some tt, w1)
      → send_file_zero_copy os fd offset (pos end) w1 ≡ (some tt, w2)
      → send_file_on os filename folder offset chunk w ≡ (some tt, w2)
  unfolding send_file_on file_size_of
  send_file_on-eq folder filename offset chunk fd size end w w1 w2 e1 e2 e3 e4 e5 e6 = ground arith

  -- Where nothing of the system fails: for an offset and a chunk inside the file, `send_file` gives
  -- 1 and puts on the connection the names, the size and that part of the file.
  pub send_file_on-Puts :
      (folder : List ℕ) (offset size : ℕ) (chunk : ℤ) (w : W)
      → (if eqb_ℤ chunk (negsuc 0) then pos (length content) else chunk) ≡ pos size
      → offset + size ≤ length content
      → size < 2 ^ 64
      → Puts wire
          (send_file_on os path folder offset chunk)
          tt
          (transfer folder path (to_bytes 8 size) (take size (drop offset content)))
          w
  unfolding send_file_zero_copy ◌+ℤ◌
  send_file_on-Puts folder offset size chunk w resolved inside small =
      let part = take size (drop offset content) in
      let whole : offset + size - offset ≡ size = omega arith in
      let fits : size % 2 ^ 64 ≡ size = omega arith in
      let header =
        to_bytes 4 (length folder)
        ++ (folder ++ (to_bytes 4 (length path) ++ (path ++ to_bytes 8 (size % 2 ^ 64)))) in
      let opened = healthy.open_some w in
      let w0 = (os.open_input path w).1 in
      let w1 = (os.fstat opened.0 w0).1 in
      let metadata = send_metadata-Puts folder path (pos size) w1 in
      let body =
        zero_copy_from-Puts (offset + size - offset) opened.0 offset (offset + size) metadata.after
          (omega arith) inside in
      record {
        after = body.after;
        result =
            send_file_on-eq folder path offset chunk opened.0 size (offset + size) w metadata.after
              body.after opened.1 (healthy.fstat_size opened.0 w0) resolved (ground arith)
              metadata.result body.result;
        put =
            body.put
            ∙ ap (λ k. wire metadata.after ++ take k (drop offset content)) whole
            ∙ ap (λ t. t ++ part) metadata.put
            ∙ ap (λ t. t ++ header ++ part) (healthy.fstat_wire opened.0 w0 ∙ healthy.open_wire w)
            ∙ header_then (wire w) (length folder) folder (length path) path (size % 2 ^ 64) part
            ∙ ap (λ k. wire w ++ transfer folder path (to_bytes 8 k) part) fits;
      }
