-- ===== src/Windows/Feed/Posix.antt =====
-- The Windows loops beside those of the Linux client.
use distributed_system_manag.Base.{
  ℕ, zero, suc, ◌+◌, ◌-◌, min, ◌<◌, ◌≡◌, refl, sym, ◌∙◌, none, some, List, [], ◌∷◌, length, drop,
  arith, ℤ, pos, negsuc,
}
use distributed_system_manag.Node.{Prog}
use distributed_system_manag.Distribute.Local
use distributed_system_manag.Distribute.Local.{ComputeOs}
use distributed_system_manag.Windows.System.{WindowsOs, pread_windows}
use distributed_system_manag.Windows.Feed.{
  write_from, write_all, write_once, bytes_read, feed_from, feed, feed_chunk, feed_part,
}

-- `linux` reads and writes as `os` does, where a call that fails gives nothing.
pub record Emulates {W : Type 0} (os : WindowsOs W) (linux : ComputeOs W) : Type 0 where
  pub read :
      (file n offset : ℕ) (w : W)
      → linux.pread file n offset w
        ≡ (bytes_read (pread_windows os file n offset w).0, (pread_windows os file n offset w).1)
  pub write :
      (h : ℕ) (bytes : List ℕ) (w : W)
      → linux.write h bytes w
        ≡ (elim (os.write_file h bytes w).0 [ none ↦ 0 | some n ↦ n ], (os.write_file h bytes w).1)

drop-length : (xs : List ℕ) → drop (length xs) xs ≡ []
drop-length [] = refl
drop-length (x ∷ xs) = drop-length xs

module _ {W : Type 0} (os : WindowsOs W) (linux : ComputeOs W) (emulates : Emulates os linux) where
  write_from-linux :
      (fuel h : ℕ) (bytes : List ℕ) (w : W)
      → write_from os fuel h bytes w ≡ Local.write_from linux fuel h bytes w
  unfolding write_from Local.write_from
  write_from-linux zero h bytes w = refl
  write_from-linux (suc fuel) h bytes w =
      let e = emulates.write h bytes w in let ih = write_from-linux fuel h in rw (e, ih) refl

  write_from-nil : (fuel h : ℕ) (w : W) → Local.write_from linux fuel h [] w ≡ (some tt, w)
  unfolding Local.write_from
  write_from-nil zero h w = refl
  write_from-nil (suc fuel) h w = refl

  module _ (write : ℕ → List ℕ → Prog W (Unit {0}))
      (same : (h : ℕ) (bytes : List ℕ) (w : W)
        → 0 < length bytes
        → write h bytes w ≡ Local.write_from linux (length bytes) h bytes w) where
    feed_from-linux :
        (fuel file h remaining offset : ℕ) (w : W)
        → feed_from os write file h fuel remaining offset w
          ≡ Local.feed_from linux fuel file h remaining offset w
    unfolding feed_from Local.feed_from
    feed_from-linux zero file h remaining offset w = refl
    feed_from-linux (suc fuel) file h remaining offset w =
        let read = pread_windows os file (min Local.buffer_size remaining) offset w in
        let bytes = bytes_read read.0 in
        let e = emulates.read file (min Local.buffer_size remaining) offset w in
        let now = same h bytes read.1 in
        let ih =
          feed_from-linux fuel file h (remaining - length bytes) (offset + length bytes)
            (write h bytes read.1).1 in
        ground (arith, e, now, ih)

    feed-linux :
        (file h : ℕ) (size : ℤ) (offset : ℕ) (w : W)
        → feed os write file h size offset w ≡ Local.feed linux file h size offset w
    unfolding feed Local.feed
    feed-linux file h (pos n) offset w = feed_from-linux n file h n offset w
    feed-linux file h (negsuc n) offset w = refl

  write_all-linux :
      (h : ℕ) (bytes : List ℕ) (w : W)
      → 0 < length bytes
      → write_all os h bytes w ≡ Local.write_from linux (length bytes) h bytes w
  unfolding write_all
  write_all-linux h bytes w some_bytes = write_from-linux (length bytes) h bytes w

  -- A `WriteFile` that takes all bytes is the loop's only one.
  write_once-linux :
      ((h : ℕ) (bytes : List ℕ) (w : W) → (os.write_file h bytes w).0 ≡ some (length bytes))
      → (h : ℕ) (bytes : List ℕ) (w : W) → 0 < length bytes
      → write_once os h bytes w ≡ Local.write_from linux (length bytes) h bytes w
  unfolding write_once Local.write_from
  write_once-linux takes h [] w some_bytes = absurd (omega arith)
  write_once-linux takes h (b ∷ bytes) w some_bytes =
      let e = emulates.write h (b ∷ bytes) w in
      let all = takes h (b ∷ bytes) w in
      let ended = write_from-nil (length bytes) h (os.write_file h (b ∷ bytes) w).1 in
      let empty = drop-length (b ∷ bytes) in ground (arith, e, all, ended, empty)

-- The loop of `distributiveComputingLocal` over its chunk does on Windows what it does on Linux, on
-- the calls of both that read and write alike: the same calls in the same order, the same failures.
pub feed_chunk-linux :
    {W : Type 0} (os : WindowsOs W) (linux : ComputeOs W)
    → Emulates os linux
    → (file h : ℕ) (size : ℤ) (offset : ℕ) (w : W)
    → feed_chunk os file h size offset w ≡ Local.feed linux file h size offset w
unfolding feed_chunk
feed_chunk-linux os linux emulates file h size offset w =
    feed-linux os linux emulates (write_all os) (write_all-linux os linux emulates) file h size
      offset w

-- The server's loop on Windows looks at no count of bytes written; it does what the client's does
-- where each `WriteFile` that succeeds takes all bytes, and none fails.
feed_part-chunk :
    {W : Type 0} (os : WindowsOs W) (linux : ComputeOs W)
    → Emulates os linux
    → ((h : ℕ) (bytes : List ℕ) (w : W) → (os.write_file h bytes w).0 ≡ some (length bytes))
    → (file h : ℕ) (size : ℤ) (offset : ℕ) (w : W)
    → feed_part os file h size offset w ≡ feed_chunk os file h size offset w
unfolding feed_part
feed_part-chunk os linux emulates takes file h size offset w =
    feed-linux os linux emulates (write_once os) (write_once-linux os linux emulates takes) file h
      size offset w
    ∙ sym (feed_chunk-linux os linux emulates file h size offset w)
