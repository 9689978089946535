-- ===== src/Sockets/Windows/Rest.antt =====
-- How much `sendFile` sends on Windows.
use distributed_system_manag.Base.{ℕ, ◌+◌, ◌-◌, ◌≡◌, Option, some, List, ◌++◌, length, take, drop}
use distributed_system_manag.Sockets.Windows.{FileOs}

-- Documented behaviour of the calls on a regular file that holds `content` and on a connection that
-- works: `at w` is the file's position, and `sent w` are the bytes sent. `_read` gives fewer bytes
-- than asked for only at the file's end, and `send` on a blocking socket takes all bytes.
pub record Works {W : Type 0} (os : FileOs W) (at : W → ℕ) (sent : W → List ℕ) (filefd : ℕ)
    (content : List ℕ) : Type 0 where
  pub lseek_at : (p : ℕ) (w : W) → at (os.lseek filefd p w) ≡ p
  pub lseek_sent : (p : ℕ) (w : W) → sent (os.lseek filefd p w) ≡ sent w
  pub read_bytes : (n : ℕ) (w : W) → (os.read filefd n w).0 ≡ take n (drop (at w) content)
  pub read_at : (n : ℕ) (w : W) → at (os.read filefd n w).1 ≡ at w + length (os.read filefd n w).0
  pub read_sent : (n : ℕ) (w : W) → sent (os.read filefd n w).1 ≡ sent w
  pub send_all : (bytes : List ℕ) (w : W) → (os.send bytes w).0 ≡ some (length bytes)
  pub send_at : (bytes : List ℕ) (w : W) → at (os.send bytes w).1 ≡ at w
  pub send_sent : (bytes : List ℕ) (w : W) → sent (os.send bytes w).1 ≡ sent w ++ bytes

-- The loop ends with the file's end: all that stood behind the position is sent and counted.
pub record SendsRest {W : Type 0} (at : W → ℕ) (sent : W → List ℕ) (content : List ℕ)
    (total_sent offset : ℕ) (w : W) (r : (Option ℕ × ℕ) × W) : Type 0 where
  pub result : r.0 ≡ (some (total_sent + (length content - offset)), length content)
  pub put : sent r.1 ≡ sent w ++ drop offset content
