-- ===== src/ShareFile/Healthy.antt =====
-- What the receiving side relies on of the operating system when nothing fails: the documented
-- behaviour of `recv` on a stream that holds bytes, and of `open`, `write`, `mkdir` and `close`.
use distributed_system_manag.Base.{ℕ, ◌≤◌, ◌<◌, ◌≡◌, ◌≢◌, refl, ◌∙◌, some, List, [], ◌++◌, length}
use distributed_system_manag.Node.{ServerOs}

-- The state of the system, seen as: the bytes that the peer has sent and nobody has read, the bytes
-- of the file at each path, the path that a descriptor was opened at, and the bytes sent back.
pub record View (W : Type 0) : Type 0 where
  pub incoming : W → List ℕ
  pub file : List ℕ → W → List ℕ
  pub path_of : ℕ → W → List ℕ
  pub replies : W → List ℕ

-- The files and the replies are as they were.
pub record SameFiles {W : Type 0} (v : View W) (w w' : W) : Type 0 where
  pub files : (path : List ℕ) → v.file path w' ≡ v.file path w
  pub paths : (fd : ℕ) → v.path_of fd w' ≡ v.path_of fd w
  pub same_replies : v.replies w' ≡ v.replies w

pub SameFiles-refl : {W : Type 0} {v : View W} {w : W} → SameFiles v w w
SameFiles-refl = record { files = λ p. refl; paths = λ fd. refl; same_replies = refl }

pub SameFiles-trans :
    {W : Type 0} {v : View W} {a b c : W} → SameFiles v a b → SameFiles v b c → SameFiles v a c
SameFiles-trans s t = record {
  files = λ p. t.files p ∙ s.files p;
  paths = λ fd. t.paths fd ∙ s.paths fd;
  same_replies = t.same_replies ∙ s.same_replies;
}

-- Nothing that the view shows has changed.
pub record SameView {W : Type 0} (v : View W) (w w' : W) : Type 0 where
  pub same_files : SameFiles v w w'
  pub same_incoming : v.incoming w' ≡ v.incoming w

pub record Healthy {W : Type 0} (os : ServerOs W) (v : View W) : Type 0 where
  -- `recv` gives a prefix of the stream, of `n` bytes at most, and a byte at least if there is one.
  pub receive_prefix :
      (n : ℕ) (w : W) → (os.receive n w).0 ++ v.incoming (os.receive n w).1 ≡ v.incoming w
  pub receive_at_most : (n : ℕ) (w : W) → length (os.receive n w).0 ≤ n
  pub receive_progress : (n : ℕ) (w : W) → 0 < n → v.incoming w ≢ [] → 0 < length (os.receive n w).0
  pub receive_files : (n : ℕ) (w : W) → SameFiles v w (os.receive n w).1
  -- `open` with `O_CREAT | O_TRUNC` gives a descriptor of an empty file.
  pub open_some :
      (path : List ℕ) (w : W)
      → (fd : ℕ) × ((os.open_output path w).0 ≡ some fd)
        × (v.path_of fd (os.open_output path w).1 ≡ path)
  pub open_empty : (path : List ℕ) (w : W) → v.file path (os.open_output path w).1 ≡ []
  pub open_incoming : (path : List ℕ) (w : W) → v.incoming (os.open_output path w).1 ≡ v.incoming w
  pub open_replies : (path : List ℕ) (w : W) → v.replies (os.open_output path w).1 ≡ v.replies w
  -- `write` takes all bytes and appends them.
  pub write_all : (fd : ℕ) (bs : List ℕ) (w : W) → (os.write fd bs w).0 ≡ length bs
  pub write_appends :
      (fd : ℕ) (bs : List ℕ) (w : W)
      → v.file (v.path_of fd w) (os.write fd bs w).1 ≡ v.file (v.path_of fd w) w ++ bs
  pub write_paths :
      (fd fd' : ℕ) (bs : List ℕ) (w : W) → v.path_of fd' (os.write fd bs w).1 ≡ v.path_of fd' w
  pub write_incoming :
      (fd : ℕ) (bs : List ℕ) (w : W) → v.incoming (os.write fd bs w).1 ≡ v.incoming w
  pub write_replies : (fd : ℕ) (bs : List ℕ) (w : W) → v.replies (os.write fd bs w).1 ≡ v.replies w
  -- `send` takes all bytes of a short reply.
  pub send_appends : (bs : List ℕ) (w : W) → v.replies (os.send bs w).1 ≡ v.replies w ++ bs
  pub send_incoming : (bs : List ℕ) (w : W) → v.incoming (os.send bs w).1 ≡ v.incoming w
  pub send_files :
      (bs : List ℕ) (path : List ℕ) (w : W) → v.file path (os.send bs w).1 ≡ v.file path w
  -- Folders and open descriptors are not in the view.
  pub mkdir_same : (path : List ℕ) (w : W) → SameView v w (os.mkdir path w)
  pub close_same : (fd : ℕ) (w : W) → SameView v w (os.close fd w)
