-- ===== src/Distribute/Local/Feed.antt =====
-- What the compiled program is given to read.
use distributed_system_manag.Base.{
  ℕ, zero, suc, ◌+◌, ◌-◌, min, ◌≤◌, ◌<◌, ◌≡◌, refl, sym, ap, ap₂, ◌∙◌, false, some, List, [], ◌∷◌,
  ◌++◌, append_assoc, append-nil, length, take, drop, length-drop, drop-drop, take-append-take,
  take-append-drop, arith, ◌==◌, lt→ltb, pos,
}
use distributed_system_manag.ShareFile.Send.Sent.{Puts}
use distributed_system_manag.Distribute.Local.{ComputeOs, write_from, feed_from, feed, buffer_size}

-- Documented behaviour of `write` to a pipe whose reader lives, and of `pread` on a regular file:
-- `sent w` are the bytes that the pipe `fd` has taken, the file `file` holds `content`.
pub record PipeHealthy {W : Type 0} (os : ComputeOs W) (sent : W → List ℕ) (file fd : ℕ)
    (content : List ℕ) : Type 0 where
  pub write_sent :
      (bs : List ℕ) (w : W) → sent (os.write fd bs w).1 ≡ sent w ++ take (os.write fd bs w).0 bs
  pub write_progress : (bs : List ℕ) (w : W) → 0 < length bs → 0 < (os.write fd bs w).0
  pub write_at_most : (bs : List ℕ) (w : W) → (os.write fd bs w).0 ≤ length bs
  pub pread_sent : (n p : ℕ) (w : W) → sent (os.pread file n p w).1 ≡ sent w
  pub pread_prefix :
      (n p : ℕ) (w : W)
      → (os.pread file n p w).0 ≡ take (length (os.pread file n p w).0) (drop p content)
  pub pread_at_most : (n p : ℕ) (w : W) → length (os.pread file n p w).0 ≤ n
  pub pread_progress :
      (n p : ℕ) (w : W) → 0 < n → p < length content → 0 < length (os.pread file n p w).0

module _ {W : Type 0} (os : ComputeOs W) (sent : W → List ℕ) (file fd : ℕ) (content : List ℕ)
    (healthy : PipeHealthy os sent file fd content) where
  write_from-Puts :
      (fuel : ℕ) (bytes : List ℕ) (w : W)
      → length bytes ≤ fuel
      → Puts sent (write_from os fuel fd bytes) tt bytes w
  unfolding write_from
  write_from-Puts zero [] w h = record { after = w; result = refl; put = sym (append-nil _) }
  write_from-Puts zero (b ∷ bytes) w h = absurd (omega arith)
  write_from-Puts (suc fuel) [] w h = record { after = w; result = refl; put = sym (append-nil _) }
  write_from-Puts (suc fuel) (b ∷ bytes) w h =
      let written = (os.write fd (b ∷ bytes) w).0 in
      let positive : 0 < written = healthy.write_progress (b ∷ bytes) w (omega arith) in
      let more : (written == 0) ≡ false = ground arith in
      let rest =
        write_from-Puts fuel (drop written (b ∷ bytes)) (os.write fd (b ∷ bytes) w).1
          (omega (arith, length-drop {0} written (b ∷ bytes))) in
      record {
        after = rest.after;
        result = rw (lt→ltb 0 (length (b ∷ bytes)) (omega arith), more) rest.result;
        put =
            rest.put
            ∙ ap (λ t. t ++ drop written (b ∷ bytes)) (healthy.write_sent (b ∷ bytes) w)
            ∙ append_assoc (sent w) (take written (b ∷ bytes)) (drop written (b ∷ bytes))
            ∙ ap (◌++◌ (sent w)) (take-append-drop written (b ∷ bytes));
      }

  -- One round that reads bytes and writes them.
  feed_from-step :
      (fuel remaining offset : ℕ) (w w' : W)
      → 0 < remaining
      → 0 < length (os.pread file (min buffer_size remaining) offset w).0
      → write_from os
          (length (os.pread file (min buffer_size remaining) offset w).0)
          fd
          (os.pread file (min buffer_size remaining) offset w).0
          (os.pread file (min buffer_size remaining) offset w).1
        ≡ (some tt, w')
      → feed_from os (suc fuel) file fd remaining offset w
        ≡ feed_from os fuel file fd
            (remaining - length (os.pread file (min buffer_size remaining) offset w).0)
            (offset + length (os.pread file (min buffer_size remaining) offset w).0)
            w'
  unfolding feed_from
  feed_from-step fuel remaining offset w w' more reads e = ground (arith, more, reads, e)

  feed_from-Puts :
      (fuel remaining offset : ℕ) (w : W)
      → remaining ≤ fuel
      → offset + remaining ≤ length content
      → Puts sent
          (feed_from os fuel file fd remaining offset)
          tt
          (take remaining (drop offset content))
          w
  unfolding feed_from
  feed_from-Puts zero zero offset w h inside = record {
    after = w;
    result = refl;
    put = sym (append-nil _);
  }
  feed_from-Puts zero (suc r) offset w h inside = absurd (omega arith)
  feed_from-Puts (suc fuel) zero offset w h inside = record {
    after = w;
    result = refl;
    put = sym (append-nil _);
  }
  feed_from-Puts (suc fuel) (suc r) offset w h inside =
      let remaining = suc r in
      let read = os.pread file (min buffer_size remaining) offset w in
      let n = length read.0 in
      let positive : 0 < n =
        healthy.pread_progress (min buffer_size remaining) offset w (omega arith) (omega arith) in
      let small : n ≤ min buffer_size remaining =
        healthy.pread_at_most (min buffer_size remaining) offset w in
      let written = write_from-Puts n read.0 read.1 (omega arith) in
      let rest =
        feed_from-Puts fuel (remaining - n) (offset + n) written.after (omega arith)
          (omega arith) in
      record {
        after = rest.after;
        result =
            feed_from-step fuel remaining offset w written.after (omega arith) positive
              written.result
            ∙ rest.result;
        put =
            rest.put
            ∙ ap (λ t. t ++ take (remaining - n) (drop (offset + n) content))
                (written.put
                  ∙ ap₂ (λ s t. s ++ t) (healthy.pread_sent (min buffer_size remaining) offset w)
                      (healthy.pread_prefix (min buffer_size remaining) offset w))
            ∙ append_assoc (sent w) (take n (drop offset content))
                (take (remaining - n) (drop (offset + n) content))
            ∙ ap (λ t. sent w ++ (take n (drop offset content) ++ take (remaining - n) t))
                (sym (drop-drop {0} offset n content))
            ∙ ap (◌++◌ (sent w)) (
                take-append-take {0} n (remaining - n) remaining (drop offset content)
                  (omega arith));
      }

-- On a pipe and a file that work, the loop of `distributiveComputingLocal` over its chunk ends
-- without a failure and gives the program the bytes of the chunk, in order, where the file holds the
-- chunk.
pub feed-Puts :
    {W : Type 0} (os : ComputeOs W) (sent : W → List ℕ) (file fd : ℕ) (content : List ℕ)
    → PipeHealthy os sent file fd content
    → (size offset : ℕ) (w : W) → offset + size ≤ length content
    → Puts sent (feed os file fd (pos size) offset) tt (take size (drop offset content)) w
unfolding feed
feed-Puts os sent file fd content healthy size offset w inside =
    let p =
      feed_from-Puts os sent file fd content healthy size size offset w (omega arith) inside in
    record { after = p.after; result = p.result; put = p.put }
