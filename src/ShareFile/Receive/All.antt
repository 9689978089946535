-- ===== src/ShareFile/Receive/All.antt =====
-- `recv_all` over a stream that holds enough bytes.
use distributed_system_manag.Base.{
  ℕ, zero, suc, ◌+◌, ◌-◌, ◌≤◌, ◌<◌, ◌≡◌, refl, ◌∙◌, ap, sym, some, List, [], ◌∷◌, ◌++◌, length,
  arith, append-nil, append_assoc, length-append, le→ltb, lt→ltb, ◌==◌, false,
}
use distributed_system_manag.Node.{ServerOs, Node}
use distributed_system_manag.ShareFile.Healthy.{
  View, Healthy, SameFiles, SameFiles-refl, SameFiles-trans,
}
use distributed_system_manag.ShareFile.Receive.{recv_from, recv_all}

-- Of two ways to split a list, the shorter first part is a prefix of the longer.
pub append_split :
    (bs a xs rest : List ℕ)
    → bs ++ a ≡ xs ++ rest
    → length bs ≤ length xs
    → (xs' : List ℕ) × (xs ≡ bs ++ xs') × (a ≡ xs' ++ rest)
append_split [] a xs rest e h = (xs, refl, e)
append_split (b ∷ bs) a [] rest e h = absurd (omega arith)
append_split (b ∷ bs) a (x ∷ xs) rest e h =
    let (xs', p, q) = append_split bs a xs rest (cc) (omega arith) in (xs', cc, q)

module _ {W : Type 0} (os : ServerOs W) (v : View W) (healthy : Healthy os v) where
  -- With this fuel, `len` bytes that the stream holds are read.
  abbrev Reads : ℕ → Type 0
  Reads fuel =
      (len : ℕ) (buf : List ℕ) (w : W) (xs rest : List ℕ)
      → len ≤ fuel
      → length xs ≡ len
      → v.incoming w ≡ xs ++ rest
      → (w' : W) × (recv_from os fuel len buf w ≡ (some (buf ++ xs), w'))
        × (v.incoming w' ≡ rest)
        × SameFiles v w w'

  recv_from-suc :
      (fuel : ℕ)
      → Reads fuel
      → (len : ℕ) (buf : List ℕ) (w : W) (x : ℕ) (xs rest : List ℕ) → len ≤ suc fuel
      → length (x ∷ xs) ≡ len
      → v.incoming w ≡ x ∷ xs ++ rest
      → (w' : W) × (recv_from os (suc fuel) len buf w ≡ (some (buf ++ x ∷ xs), w'))
        × (v.incoming w' ≡ rest)
        × SameFiles v w w'
  unfolding recv_from
  recv_from-suc fuel ih len buf w x xs rest le e stream = (
    w',
    rw (lt→ltb 0 len (omega arith), some_read) (e' ∙ ap (λ t. (some t, w')) joined),
    stream',
    SameFiles-trans (healthy.receive_files len w) same,
  )
    where
      bytes : List ℕ
      bytes = (os.receive len w).0

      positive : 0 < length bytes
      positive = healthy.receive_progress len w (omega arith) (λ empty. cc (empty, stream))

      some_read : (length bytes == 0) ≡ false
      some_read = ground (arith, positive)

      split :
          (xs' : List ℕ) × (x ∷ xs ≡ bytes ++ xs') × (v.incoming (os.receive len w).1 ≡ xs' ++ rest)
      split =
          append_split bytes (v.incoming (os.receive len w).1) (x ∷ xs) rest
            (healthy.receive_prefix len w ∙ stream) (omega (arith, healthy.receive_at_most len w))

      lengths : length bytes + length split.0 ≡ len
      lengths = omega (arith, ap length split.1, length-append bytes split.0)

      rest_read :
          (w' : W) × (recv_from os fuel (len - length bytes) (buf ++ bytes) (os.receive len w).1
            ≡ (some ((buf ++ bytes) ++ split.0), w'))
          × (v.incoming w' ≡ rest)
          × SameFiles v (os.receive len w).1 w'
      rest_read =
          ih (len - length bytes) (buf ++ bytes) (os.receive len w).1 split.0 rest
            (omega (arith, positive)) (omega (arith, lengths)) split.2

      w' : W
      w' = rest_read.0

      e' :
          recv_from os fuel (len - length bytes) (buf ++ bytes) (os.receive len w).1
          ≡ (some ((buf ++ bytes) ++ split.0), w')
      e' = rest_read.1

      stream' : v.incoming w' ≡ rest
      stream' = rest_read.2

      same : SameFiles v (os.receive len w).1 w'
      same = rest_read.3

      joined : (buf ++ bytes) ++ split.0 ≡ buf ++ x ∷ xs
      joined = append_assoc buf bytes split.0 ∙ ap (◌++◌ buf) (sym split.1)

  recv_from_lem : (fuel : ℕ) → Reads fuel
  unfolding recv_from
  recv_from_lem zero len buf w [] rest le e stream =
      (w, ap (λ t. (some t, w)) (sym (append-nil buf)), stream, SameFiles-refl)
  recv_from_lem zero len buf w (x ∷ xs) rest le e stream = absurd (omega arith)
  recv_from_lem (suc fuel) len buf w [] rest le e stream = (
    w,
    rw (le→ltb 0 len (omega arith)) (ap (λ t. (some t, w)) (sym (append-nil buf))),
    stream,
    SameFiles-refl,
  )
  recv_from_lem (suc fuel) len buf w (x ∷ xs) rest le e stream =
      recv_from-suc fuel (recv_from_lem fuel) len buf w x xs rest le e stream

  -- Where the stream begins with the `len` bytes `xs`, `recv_all` gives them, and the rest of the
  -- stream is still to come.
  pub recv_all_lem :
      (len : ℕ) (n : Node W) (xs rest : List ℕ)
      → length xs ≡ len
      → v.incoming n.world ≡ xs ++ rest
      → (w' : W) × (recv_all os len n ≡ (some xs, record n { world = w' }))
        × (v.incoming w' ≡ rest)
        × SameFiles v n.world w'
  unfolding recv_all
  recv_all_lem len n xs rest e stream =
      let (w', r, stream', same) =
        recv_from_lem len len [] n.world xs rest (omega arith) e stream in
      (w', ap (λ t. (t.0, record n { world = t.1 })) r, stream', same)
