-- ===== src/Node.antt =====
-- A node as its server threads see it: the global variables of src/serverService.cpp and
-- src/threadSafety.cpp, beside the operating system, and programs over them that may return early.
use distributed_system_manag.Base.{ℕ, ◌≡◌, ap, Bool, true, false, Option, none, some, List}
use distributed_system_manag.ThreadSafety.{SharedData}

-- The operating system's calls on the connection at hand and on files, over the states `W` of all
-- that lies outside the program. `receive n` is `recv` with room for `n` bytes: the bytes read, and
-- `[]` for a result of 0 or less. `send` and `write` give the count of bytes taken, 0 for a failure.
pub record ServerOs (W : Type 0) : Type 0 where
  pub send : List ℕ → W → ℕ × W
  pub receive : ℕ → W → List ℕ × W
  pub mkdir : List ℕ → W → W
  pub open_output : List ℕ → W → Option ℕ × W
  pub write : ℕ → List ℕ → W → ℕ × W
  pub close : ℕ → W → W

pub record Node (W : Type 0) : Type 0 where
  pub world : W
  pub open_receive_file_connection : ℕ
  pub shared_file_size : ℕ
  pub processed_bytes : ℕ
  pub shared_outpath : List ℕ
  pub mesh_info_1 : SharedData
  pub mesh_info_2 : SharedData

-- `none` is an early return.
abbrev pub Prog : Type 0 → Type 0 → Type 0
Prog S A = S → Option A × S

infixl 5 ◌>>=◌ ◌>>◌
abbrev pub ◌>>=◌ : {S A B : Type 0} → Prog S A → (A → Prog S B) → Prog S B
◌>>=◌ m f s = let r = m s in elim r.0 [ none ↦ (none, r.1) | some a ↦ f a r.1 ]

abbrev pub ◌>>◌ : {S B : Type 0} → Prog S (Unit {0}) → Prog S B → Prog S B
m >> k = m >>= λ _. k

abbrev pub guard : {S : Type 0} → Bool → Prog S (Unit {0})
guard true s = (some tt, s)
guard false s = (none, s)

abbrev pub modify : {S : Type 0} → (S → S) → Prog S (Unit {0})
modify f s = (some tt, f s)

abbrev pub return : {S A : Type 0} → A → Prog S A
return a s = (some a, s)

-- A call of the system that gives no result.
abbrev pub outside : {W : Type 0} → (W → W) → Node W → Node W
outside f n = record n { world = f n.world }

-- A step that succeeds hands its result to what follows.
pub >>=-eq :
    {S A B : Type 0} (m : Prog S A) (f : A → Prog S B) (s : S) {a : A} {s' : S}
    → m s ≡ (some a, s')
    → (m >>= f) s ≡ f a s'
>>=-eq m f s {a} e = rw (◌>>=◌, e) (ap (λ r. f a r.1) e)
