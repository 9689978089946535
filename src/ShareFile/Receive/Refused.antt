-- ===== src/ShareFile/Receive/Refused.antt =====
-- The headers that `receive_file` does not take.
use distributed_system_manag.Base.{
  subst, ℕ, zero, suc, ◌+◌, ◌-◌, ◌≤◌, ◌<◌, ◌≡◌, refl, sym, ap, ◌∙◌, ◌⊎◌, inl, inr, none, some, List,
  [], ◌++◌, length, length-append, arith, ◌==◌, Bool-cases, leb, Bool, true, false, not, ◌||◌,
  lt→ltb,
}
use distributed_system_manag.Node.{ServerOs, Node, Prog, ◌>>=◌, ◌>>◌, guard, return, >>=-eq}
use distributed_system_manag.ShareFile.Wire.{to_bytes, of_bytes, length-to_bytes}
use distributed_system_manag.ShareFile.Healthy.{
  View, Healthy, SameFiles, SameFiles-trans, SameFiles-refl,
}
use distributed_system_manag.ShareFile.Receive.{recv_from, recv_all, receive_header, receive_file}
use distributed_system_manag.ShareFile.Receive.All.{recv_all_lem}
use distributed_system_manag.ShareFile.Receive.Header.{Fits, of_length, length_admitted}

-- A length and a text of that length that cannot be read: the stream ends within one of them, or the
-- length is 0 or above 255.
pub data BadText (stream : List ℕ) : Type 0 where
  length_ends : length stream < 4 → BadText stream
  bad_length :
      (bytes rest : List ℕ)
      → length bytes ≡ 4
      → stream ≡ bytes ++ rest
      → (of_bytes bytes ≡ 0) ⊎ (256 ≤ of_bytes bytes)
      → BadText stream
  text_ends :
      (bytes rest : List ℕ)
      → length bytes ≡ 4
      → stream ≡ bytes ++ rest
      → length rest < of_bytes bytes
      → BadText stream

-- A header that is not read to its end.
pub data BadHeader (stream : List ℕ) : Type 0 where
  bad_folder : BadText stream → BadHeader stream
  bad_filename :
      (folder rest : List ℕ)
      → Fits folder
      → stream ≡ to_bytes 4 (length folder) ++ (folder ++ rest)
      → BadText rest
      → BadHeader stream
  size_ends :
      (folder filename rest : List ℕ)
      → Fits folder
      → Fits filename
      → stream
        ≡ to_bytes 4 (length folder)
          ++ (folder ++ (to_bytes 4 (length filename) ++ (filename ++ rest)))
      → length rest < 8
      → BadHeader stream

module _ {W : Type 0} (os : ServerOs W) (v : View W) (healthy : Healthy os v) where
  recv_from-short :
      (fuel len : ℕ) (buf : List ℕ) (w : W)
      → len ≤ fuel
      → length (v.incoming w) < len
      → (w' : W) × (recv_from os fuel len buf w ≡ (none, w')) × SameFiles v w w'
  unfolding recv_from
  recv_from-short zero len buf w le short = absurd (omega arith)
  recv_from-short (suc fuel) len buf w le short =
      let read = os.receive len w in
      let bytes = read.0 in
      let left : length bytes + length (v.incoming read.1) ≡ length (v.incoming w) =
        sym (length-append bytes (v.incoming read.1))
        ∙ ap (λ (s : List ℕ). length s) (healthy.receive_prefix len w) in
      let positive = lt→ltb 0 len (omega arith) in
      elim (Bool-cases (length bytes == 0)) [
        | inl nothing ↦ (read.1, rw (positive, nothing) refl, healthy.receive_files len w)
        | inr something ↦
            let some_bytes : 0 < length bytes = ground (arith, something) in
            let (w', e, same) =
              recv_from-short fuel (len - length bytes) (buf ++ bytes) read.1 (omega arith)
                (omega (arith, left, short)) in
            (w', rw (positive, something) e, SameFiles-trans (healthy.receive_files len w) same)
      ]

  -- Nothing is given, and no file, reply or variable changes.
  Refuses : {A : Type 0} → Prog (Node W) A → Node W → Type 0
  Refuses m n = (w' : W) × (m n ≡ (none, record n { world = w' })) × SameFiles v n.world w'

  recv_all-short :
      (len : ℕ) (n : Node W) → length (v.incoming n.world) < len → Refuses (recv_all os len) n
  unfolding recv_all Refuses
  recv_all-short len n short =
      let (w', e, same) = recv_from-short len len [] n.world (omega arith) short in
      (w', ap (λ r. (r.0, record n { world = r.1 })) e, same)

  -- A length and a text, read as `receive_file` reads them, and what follows.
  abbrev read_text_of : {A : Type 0} → (List ℕ → Prog (Node W) A) → List ℕ → Prog (Node W) A
  read_text_of k bytes =
      guard (not (of_bytes bytes == 0 || leb 256 (of_bytes bytes)))
      >> (recv_all os (of_bytes bytes) >>= k)

  abbrev read_text : {A : Type 0} → (List ℕ → Prog (Node W) A) → Prog (Node W) A
  read_text k = recv_all os 4 >>= read_text_of k

  >>=-none :
      {A B : Type 0} (m : Prog (Node W) A) (f : A → Prog (Node W) B) (n : Node W) {n' : Node W}
      → m n ≡ (none, n')
      → (m >>= f) n ≡ (none, n')
  >>=-none m f n e = rw (◌>>=◌, e) (ap (λ r. (none, r.1)) e)

  -- A step that gives none, or that gives a value and leaves the rest to a program that refuses.
  stops :
      {A B : Type 0} (m : Prog (Node W) A) (f : A → Prog (Node W) B) (n : Node W)
      → Refuses m n
      → Refuses (m >>= f) n
  unfolding Refuses
  stops m f n (w', e, same) = (w', >>=-none m f n e, same)

  goes_on :
      {A B : Type 0} (m : Prog (Node W) A) (f : A → Prog (Node W) B) (n : Node W) (a : A) (w : W)
      → m n ≡ (some a, record n { world = w })
      → SameFiles v n.world w
      → Refuses (f a) (record n { world = w })
      → Refuses (m >>= f) n
  unfolding Refuses
  goes_on m f n a w e same (w', e', same') = (w', >>=-eq m f n e ∙ e', SameFiles-trans same same')

  guarded :
      {A : Type 0} (b : Bool) (k : Prog (Node W) A) (n : Node W)
      → (b ≡ false) ⊎ ((b ≡ true) × Refuses k n)
      → Refuses (guard b >> k) n
  unfolding Refuses
  guarded true k n (inl e) = cc e
  guarded true k n (inr (e, refuses)) = refuses
  guarded false k n h = (n.world, refl, SameFiles-refl)

  read_text-Refuses :
      {A : Type 0} (k : List ℕ → Prog (Node W) A) (n : Node W)
      → BadText (v.incoming n.world)
      → Refuses (read_text k) n
  read_text-Refuses k n (length_ends short) =
      stops (recv_all os 4) (read_text_of k) n (recv_all-short 4 n short)
  read_text-Refuses k n (bad_length bytes rest four stream bad) =
      let (w1, e1, s1, same1) = recv_all_lem os v healthy 4 n bytes rest four stream in
      goes_on (recv_all os 4) (read_text_of k) n bytes w1 e1 same1 (
        guarded _ (recv_all os (of_bytes bytes) >>= k) (record n { world = w1 })
          (inl (refused bytes bad)))
    where
      refused :
          (bytes : List ℕ)
          → (of_bytes bytes ≡ 0) ⊎ (256 ≤ of_bytes bytes)
          → not (of_bytes bytes == 0 || leb 256 (of_bytes bytes)) ≡ false
      refused bytes (inl e) = ground (arith, e)
      refused bytes (inr le) = ground (arith, le)
  read_text-Refuses k n (text_ends bytes rest four stream short) =
      let (w1, e1, s1, same1) = recv_all_lem os v healthy 4 n bytes rest four stream in
      let n1 : Node W = record n { world = w1 } in
      let stopped = stops (recv_all os (of_bytes bytes)) k n1 (
        recv_all-short (of_bytes bytes) n1
          (omega (arith, short, ap (λ (t : List ℕ). length t) s1))) in
      let valid = not (of_bytes bytes == 0 || leb 256 (of_bytes bytes)) in
      goes_on (recv_all os 4) (read_text_of k) n bytes w1 e1 same1 (
        guarded valid (recv_all os (of_bytes bytes) >>= k) n1
          (elim (Bool-cases valid) [ inl e ↦ inr (e, stopped) | inr e ↦ inl e ]))

  -- A text that is read leaves the rest to what follows.
  read_text-goes_on :
      {A : Type 0} (k : List ℕ → Prog (Node W) A) (n : Node W) (text rest : List ℕ)
      → Fits text
      → v.incoming n.world ≡ to_bytes 4 (length text) ++ (text ++ rest)
      → ((w : W)
          → v.incoming w ≡ rest
          → SameFiles v n.world w
          → Refuses (k text) (record n { world = w }))
      → Refuses (read_text k) n
  read_text-goes_on k n text rest (lo, hi) stream refuses =
      let (w1, e1, s1, same1) =
        recv_all_lem os v healthy 4 n (to_bytes 4 (length text)) (text ++ rest)
          (length-to_bytes 4 _) stream in
      let n1 : Node W = record n { world = w1 } in
      let count = of_length (length text) hi in
      let (w2, e2, s2, same2) = recv_all_lem os v healthy (length text) n1 text rest refl s1 in
      goes_on (recv_all os 4) (read_text_of k) n (to_bytes 4 (length text)) w1 e1 same1 (
        guarded _ (recv_all os (of_bytes (to_bytes 4 (length text))) >>= k) n1 (
          inr (
            rw count (length_admitted (length text) lo hi),
            rw count (
                goes_on (recv_all os (length text)) k n1 text w2 e2 same2
                  (refuses w2 s2 (SameFiles-trans same1 same2))),
          )))

  size_of : List ℕ → List ℕ → Prog (Node W) (List ℕ × List ℕ × ℕ)
  size_of folder filename = do
    file_size ← recv_all os 8
    return (folder, filename, of_bytes file_size)

  receive_header-Refuses :
      (n : Node W) → BadHeader (v.incoming n.world) → Refuses (receive_header os) n
  unfolding receive_header size_of
  receive_header-Refuses n (bad_folder bad) =
      read_text-Refuses (λ folder. read_text (size_of folder)) n bad
  receive_header-Refuses n (bad_filename folder rest fits stream bad) =
      read_text-goes_on (λ folder. read_text (size_of folder)) n folder rest fits stream
        (λ w s same.
          read_text-Refuses (size_of folder) (record n { world = w }) (subst BadText (sym s) bad))
  receive_header-Refuses n (size_ends folder filename rest fits fits' stream short) =
      read_text-goes_on (λ f. read_text (size_of f)) n folder _ fits stream
        (λ w s same.
          read_text-goes_on (size_of folder) (record n { world = w }) filename rest fits' s
            (λ w' s' same'.
              stops (recv_all os 8) (λ bytes. return (folder, filename, of_bytes bytes))
                (record n { world = w' })
                (recv_all-short 8 (record n { world = w' })
                  (omega (arith, short, ap (λ (t : List ℕ). length t) s')))))

  -- Where nothing of the system fails and the stream begins with a header that is not taken (a length
  -- of 0 or above 255, or the stream's end before the header's), `receive_file` gives -1, and no
  -- file, no reply and none of the node's variables changes.
  pub receive_file-Refused :
      (n : Node W)
      → BadHeader (v.incoming n.world)
      → (w' : W) × (receive_file os n ≡ (none, record n { world = w' })) × SameFiles v n.world w'
  unfolding receive_file Refuses
  receive_file-Refused n bad =
      let (w', e, same) = receive_header-Refuses n bad in (w', ground (arith, e), same)
