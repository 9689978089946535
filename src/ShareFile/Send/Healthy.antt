-- ===== src/ShareFile/Send/Healthy.antt =====
-- What the sending side relies on of the operating system when nothing fails: the documented
-- behaviour of `send`, `open`, `fstat` and `sendfile`.
use distributed_system_manag.Base.{ℕ, ◌-◌, ◌≤◌, ◌<◌, ◌≡◌, some, List, ◌++◌, length, take, drop}
use distributed_system_manag.ShareFile.Send.{ClientOs}

-- `wire w` are the bytes put on the connection so far; the file at `path` holds `content`.
pub record ClientHealthy {W : Type 0} (os : ClientOs W) (wire : W → List ℕ) (path content : List ℕ)
    : Type 0 where
  -- `send` takes a prefix of the bytes, one byte at least if there is one.
  pub send_wire : (bs : List ℕ) (w : W) → wire (os.send bs w).1 ≡ wire w ++ take (os.send bs w).0 bs
  pub send_progress : (bs : List ℕ) (w : W) → 0 < length bs → 0 < (os.send bs w).0
  pub send_at_most : (bs : List ℕ) (w : W) → (os.send bs w).0 ≤ length bs
  -- `open` finds the file, and `fstat` its size.
  pub open_some : (w : W) → (fd : ℕ) × ((os.open_input path w).0 ≡ some fd)
  pub open_wire : (w : W) → wire (os.open_input path w).1 ≡ wire w
  pub fstat_size : (fd : ℕ) (w : W) → (os.fstat fd w).0 ≡ some (length content)
  pub fstat_wire : (fd : ℕ) (w : W) → wire (os.fstat fd w).1 ≡ wire w
  -- `sendfile` sends a part of the file from the offset on, `count` bytes at most, and one byte at
  -- least before the file's end.
  pub send_file_wire :
      (fd offset count : ℕ) (w : W)
      → wire (os.send_file fd offset count w).1
        ≡ wire w ++ take (os.send_file fd offset count w).0 (drop offset content)
  pub send_file_progress :
      (fd offset count : ℕ) (w : W)
      → 0 < count
      → offset < length content
      → 0 < (os.send_file fd offset count w).0
  pub send_file_at_most : (fd offset count : ℕ) (w : W) → (os.send_file fd offset count w).0 ≤ count
  -- It sends no byte that the file does not hold.
  pub send_file_inside :
      (fd offset count : ℕ) (w : W) → (os.send_file fd offset count w).0 ≤ length content - offset
