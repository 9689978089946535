-- ===== src/Server/Handlers/Closing.antt =====
-- How often a program of the server closes the descriptor of its connection.
pub mod OutPath
pub mod ReceiveFile
pub mod Served
use distributed_system_manag.Base.{
  ℕ, zero, suc, ◌+◌, ◌-◌, min, length, ◌++◌, ltb, take, c_str, codes, ap, str_eq, not,
  has_substring, ◌≡◌, ◌≢◌, refl, ◌∙◌, Bool, true, false, Option, none, some, List, [], ◌∷◌, ◌==◌,
  if◌then◌else◌, arith, Option-cases, inl, inr,
}
use distributed_system_manag.Node.{
  ServerOs, Node, Prog, guard, modify, return, outside, ◌>>=◌, ◌>>◌,
}
use distributed_system_manag.ShareFile.Receive.{
  base_name, block_size, recv_from, recv_all, receive_block, receive_content, receive_header,
  open_file, open_outpath, receive_file, create_dirs_from, create_dirs_of, create_dirs,
}
use distributed_system_manag.Status.{status_message, success}
use distributed_system_manag.ThreadSafety.{resume}
use distributed_system_manag.ShareFile.Wire.{of_bytes}
use distributed_system_manag.Server.Listener.{ServerCommand}
use distributed_system_manag.Sockets.Descriptors.{closes}
use distributed_system_manag.Server.Handlers.Flag.{Request, serve}

-- `count w` is how often `close` has been called on `sock`. A file that is opened gets another
-- descriptor.
pub record CountsCloses {W : Type 0} (os : ServerOs W) (sock : ℕ) (count : W → ℕ) : Type 0 where
  pub close_sock : (w : W) → count (os.close sock w) ≡ suc (count w)
  pub close_other : (fd : ℕ) (w : W) → fd ≢ sock → count (os.close fd w) ≡ count w
  pub send_same : (bs : List ℕ) (w : W) → count (os.send bs w).1 ≡ count w
  pub receive_same : (n : ℕ) (w : W) → count (os.receive n w).1 ≡ count w
  pub mkdir_same : (path : List ℕ) (w : W) → count (os.mkdir path w) ≡ count w
  pub open_same : (path : List ℕ) (w : W) → count (os.open_output path w).1 ≡ count w
  pub open_apart : (path : List ℕ) (w : W) → (os.open_output path w).0 ≢ some sock
  pub write_same : (fd : ℕ) (bs : List ℕ) (w : W) → count (os.write fd bs w).1 ≡ count w

-- `count w` as above.
module _ {W : Type 0} (count : W → ℕ) where
  -- A program closes the connection's descriptor not once.
  unfoldable pub KeepsOpen : {A : Type 0} → Prog (Node W) A → Type 0
  KeepsOpen m = (n : Node W) → count (m n).1.world ≡ count n.world

  pub then-KeepsOpen :
      {A B : Type 0} (m : Prog (Node W) A) (f : A → Prog (Node W) B)
      → KeepsOpen m
      → ((a : A) → KeepsOpen (f a))
      → KeepsOpen (m >>= f)
  unfolding KeepsOpen
  then-KeepsOpen {A} {B} m f first next n = go (m n) (first n)
    where
      go :
          (r : Option A × Node W)
          → count r.1.world ≡ count n.world
          → count
              (elim r.0 as (λ x. Option B × Node W) [
                | none ↦ (none, r.1)
                | some a ↦ f a r.1
              ]).1.world
            ≡ count n.world
      go (none, n') e = e
      go (some a, n') e = next a n' ∙ e

  pub guard-KeepsOpen : (b : Bool) → KeepsOpen (guard b)
  unfolding KeepsOpen
  guard-KeepsOpen true n = refl
  guard-KeepsOpen false n = refl

  pub return-KeepsOpen : {A : Type 0} (a : A) → KeepsOpen (return a)
  unfolding KeepsOpen
  return-KeepsOpen a n = refl

  pub outside-KeepsOpen :
      (f : W → W) → ((w : W) → count (f w) ≡ count w) → KeepsOpen (modify (outside f))
  unfolding KeepsOpen
  outside-KeepsOpen f same n = same n.world

  -- What changes variables only.
  pub modify-KeepsOpen :
      (f : Node W → Node W) → ((n : Node W) → (f n).world ≡ n.world) → KeepsOpen (modify f)
  unfolding KeepsOpen
  modify-KeepsOpen f same n = ap count (same n)

  -- Variables that are set for training data only.
  pub train-KeepsOpen :
      (train : Bool) (f : Node W → Node W)
      → ((n : Node W) → (f n).world ≡ n.world)
      → KeepsOpen (modify (λ n. if train then f n else n))
  unfolding KeepsOpen
  train-KeepsOpen true f same n = ap count (same n)
  train-KeepsOpen false f same n = refl
