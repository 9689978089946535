-- ===== src/ShareFile/Receive/Content.antt =====
-- The loop over the file's content, over a stream that holds it.
use distributed_system_manag.Base.{
  ℕ, zero, suc, ◌+◌, ◌-◌, ◌≤◌, ◌<◌, ◌≡◌, refl, ◌∙◌, ap, sym, subst, Bool, Option, some, List, [],
  ◌∷◌, ◌++◌, length, arith, append-nil, append_assoc, length-append, le→ltb, lt→ltb, ◌==◌, ==_iff,
  true, false, min, if◌then◌else◌,
}
use distributed_system_manag.Node.{ServerOs, Node, >>=-eq}
use distributed_system_manag.ShareFile.Healthy.{View, Healthy, SameFiles}
use distributed_system_manag.ShareFile.Receive.{receive_block, receive_content, block_size}
use distributed_system_manag.ShareFile.Receive.All.{append_split}

-- `bs` has been appended to the file at `fd`, and nothing sent.
pub record Appends {W : Type 0} (v : View W) (fd : ℕ) (bs : List ℕ) (w w' : W) : Type 0 where
  pub stored : v.file (v.path_of fd w) w' ≡ v.file (v.path_of fd w) w ++ bs
  pub same_path : v.path_of fd w' ≡ v.path_of fd w
  pub same_replies : v.replies w' ≡ v.replies w

Appends-nil : {W : Type 0} {v : View W} {fd : ℕ} {w : W} → Appends v fd [] w w
Appends-nil = record { stored = sym (append-nil _); same_path = refl; same_replies = refl }

Appends-trans :
    {W : Type 0} {v : View W} {fd : ℕ} (xs ys : List ℕ) {w w' w'' : W}
    → Appends v fd xs w w'
    → Appends v fd ys w' w''
    → Appends v fd (xs ++ ys) w w''
Appends-trans {v} {fd} xs ys {w} {w'} {w''} s t = record {
  stored =
      ap (λ p. v.file p w'') (sym s.same_path)
      ∙ t.stored
      ∙ ap (λ p. v.file p w' ++ ys) s.same_path
      ∙ ap (λ f. f ++ ys) s.stored
      ∙ append_assoc _ xs ys;
  same_path = t.same_path ∙ s.same_path;
  same_replies = t.same_replies ∙ s.same_replies;
}

-- The node after `received` bytes of the content.
abbrev pub progressed : {W : Type 0} → Bool → ℕ → Node W → W → Node W
progressed train received n w =
    if train then record n { world = w; processed_bytes = received } else record n { world = w }

module _ {W : Type 0} where
  progressed_self :
      (train : Bool) (received : ℕ) (n : Node W)
      → (train ≡ true → n.processed_bytes ≡ received)
      → n ≡ progressed train received n n.world
  progressed_self true received n h = ap (λ p. record n { processed_bytes = p }) (h refl)
  progressed_self false received n h = refl

  progressed-progressed :
      (train : Bool) (r r' : ℕ) (n : Node W) (w w' : W)
      → progressed train r' (progressed train r n w) w' ≡ progressed train r' n w'
  progressed-progressed true r r' n w w' = refl
  progressed-progressed false r r' n w w' = refl

  progressed_world :
      (train : Bool) (r : ℕ) (n : Node W) (w : W) → (progressed train r n w).world ≡ w
  progressed_world true r n w = refl
  progressed_world false r n w = refl

  progressed_bytes :
      (train : Bool) (r : ℕ) (n : Node W) (w : W)
      → train ≡ true
      → (progressed train r n w).processed_bytes ≡ r
  progressed_bytes true r n w h = refl
  progressed_bytes false r n w h = cc

module _ {W : Type 0} (os : ServerOs W) (v : View W) (healthy : Healthy os v) where
  -- One round takes a part of the stream, one byte at least, to the end of the file.
  record Round (train : Bool) (fd file_size received : ℕ) (n : Node W) (bytes rest : List ℕ)
      : Type 0 where
    taken : List ℕ
    left : List ℕ
    after : W
    split : bytes ≡ taken ++ left
    positive : 0 < length taken
    result :
        receive_block os train fd file_size received n
        ≡ (some (received + length taken), progressed train (received + length taken) n after)
    stream : v.incoming after ≡ left ++ rest
    appended : Appends v fd taken n.world after

  receive_block_lem :
      (train : Bool) (fd file_size received : ℕ) (n : Node W) (b : ℕ) (bytes rest : List ℕ)
      → length (b ∷ bytes) + received ≡ file_size
      → v.incoming n.world ≡ b ∷ bytes ++ rest
      → Round train fd file_size received n (b ∷ bytes) rest
  unfolding receive_block
  receive_block_lem train fd file_size received n b bytes rest size stream = record {
    taken = taken;
    left = split.0;
    after = after;
    split = split.1;
    positive = positive;
    result = rw (some_read, all_written);
    stream = healthy.write_incoming fd taken read ∙ split.2;
    appended = appended;
  }
    where
      need : ℕ
      need = min (file_size - received) block_size

      taken : List ℕ
      taken = (os.receive need n.world).0

      read : W
      read = (os.receive need n.world).1

      after : W
      after = (os.write fd taken read).1

      positive : 0 < length taken
      positive = healthy.receive_progress need n.world (omega arith) (λ empty. cc (empty, stream))

      some_read : (length taken == 0) ≡ false
      some_read = ground (arith, positive)

      all_written : ((os.write fd taken read).0 == length taken) ≡ true
      all_written = (==_iff _ _).1 (healthy.write_all fd taken read)

      split : (left : List ℕ) × (b ∷ bytes ≡ taken ++ left) × (v.incoming read ≡ left ++ rest)
      split =
          append_split taken (v.incoming read) (b ∷ bytes) rest
            (healthy.receive_prefix need n.world ∙ stream)
            (omega (arith, healthy.receive_at_most need n.world))

      same : SameFiles v n.world read
      same = healthy.receive_files need n.world

      appended : Appends v fd taken n.world after
      appended = record {
        stored =
            ap (λ p. v.file p after) (sym (same.paths fd))
            ∙ healthy.write_appends fd taken read
            ∙ ap (λ p. v.file p read ++ taken) (same.paths fd)
            ∙ ap (λ f. f ++ taken) (same.files _);
        same_path = healthy.write_paths fd fd taken read ∙ same.paths fd;
        same_replies = healthy.write_replies fd taken read ∙ same.same_replies;
      }

  -- With this fuel the loop stores the content that the stream holds.
  abbrev Receives : ℕ → Type 0
  Receives fuel =
      (train : Bool) (fd file_size received : ℕ) (n : Node W) (bytes rest : List ℕ)
      → length bytes ≤ fuel
      → length bytes + received ≡ file_size
      → v.incoming n.world ≡ bytes ++ rest
      → (train ≡ true → n.processed_bytes ≡ received)
      → (w' : W) × (receive_content os fuel train fd file_size received n
          ≡ (some file_size, progressed train file_size n w'))
        × (v.incoming w' ≡ rest)
        × Appends v fd bytes n.world w'

  nothing_left :
      (train : Bool) (file_size received : ℕ) (n : Node W)
      → received ≡ file_size
      → (train ≡ true → n.processed_bytes ≡ received)
      → ◌≡◌ {A = Option ℕ × Node W}
          (some received, n)
          (some file_size, progressed train file_size n n.world)
  nothing_left train file_size received n e h =
      ap (λ m. (some received, m)) (progressed_self train received n h)
      ∙ ap (λ r. (some r, progressed train r n n.world)) e

  receive_content-suc :
      (fuel : ℕ)
      → Receives fuel
      → (train : Bool) (fd file_size received : ℕ) (n : Node W) (b : ℕ) (bytes rest : List ℕ)
      → length (b ∷ bytes) ≤ suc fuel
      → length (b ∷ bytes) + received ≡ file_size
      → v.incoming n.world ≡ b ∷ bytes ++ rest
      → (w' : W) × (receive_content os (suc fuel) train fd file_size received n
          ≡ (some file_size, progressed train file_size n w'))
        × (v.incoming w' ≡ rest)
        × Appends v fd (b ∷ bytes) n.world w'
  unfolding receive_content
  receive_content-suc fuel ih train fd file_size received n b bytes rest le size stream = (
    later.0,
    rw (lt→ltb received file_size (omega arith)) (
        >>=-eq (receive_block os train fd file_size received)
          (receive_content os fuel train fd file_size) n round.result
        ∙ later.1
        ∙ ap (λ m. (some file_size, m))
            (progressed-progressed train _ file_size n round.after later.0)),
    later.2,
    subst (λ t. Appends v fd t n.world later.0) (sym round.split)
        (Appends-trans round.taken round.left round.appended
          (subst (λ m. Appends v fd round.left m later.0) mid_world later.3)),
  )
    where
      round : Round train fd file_size received n (b ∷ bytes) rest
      round = receive_block_lem train fd file_size received n b bytes rest size stream

      mid : Node W
      mid = progressed train (received + length round.taken) n round.after

      mid_world : mid.world ≡ round.after
      mid_world = progressed_world train (received + length round.taken) n round.after

      lengths : length round.taken + length round.left ≡ length (b ∷ bytes)
      lengths = omega (arith, ap length round.split, length-append round.taken round.left)

      later :
          (w' : W) × (receive_content os fuel train fd file_size (received + length round.taken) mid
            ≡ (some file_size, progressed train file_size mid w'))
          × (v.incoming w' ≡ rest)
          × Appends v fd round.left mid.world w'
      later =
          ih train fd file_size (received + length round.taken) mid round.left rest
            (omega (arith, lengths, round.positive)) (omega (arith, lengths))
            (ap v.incoming mid_world ∙ round.stream)
            (progressed_bytes train (received + length round.taken) n round.after)

  pub receive_content_lem : (fuel : ℕ) → Receives fuel
  unfolding receive_content
  receive_content_lem zero train fd file_size received n [] rest le size stream h =
      (n.world, nothing_left train file_size received n (omega arith) h, stream, Appends-nil)
  receive_content_lem zero train fd file_size received n (b ∷ bytes) rest le size stream h =
      absurd (omega arith)
  receive_content_lem (suc fuel) train fd file_size received n [] rest le size stream h = (
    n.world,
    rw (le→ltb received file_size (omega arith))
        (nothing_left train file_size received n (omega arith) h),
    stream,
    Appends-nil,
  )
  receive_content_lem (suc fuel) train fd file_size received n (b ∷ bytes) rest le size stream h =
      receive_content-suc fuel (receive_content_lem fuel) train fd file_size received n b bytes rest
        le size stream
