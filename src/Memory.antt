-- ===== src/Memory.antt =====
-- The memory of the client: what `malloc` gives and `free` takes back, and programs that stop at a
-- use of memory that is not theirs.
pub mod Laws
use distributed_system_manag.Base.{
  ℕ, suc, Bool, true, false, Option, none, some, List, ◌==◌, if◌then◌else◌, get_elem?, set, length,
  ltb, ℤ,
}
use mathlib.Core.Option

-- `unset` is what `malloc` leaves in an array.
pub data Pointer : Type 0 where
  unset null : Pointer
  at : ℕ → Pointer

abbrev pub is_null : Pointer → Bool
is_null null = true
is_null p = false

-- `numbers none` is an array of integers as `malloc` left it. The members of `arguments`, a structure
-- of arguments, are not kept.
pub data Block : Type 0 where
  pointers : List Pointer → Block
  string : List ℕ → Block
  numbers : Option (List ℤ) → Block
  arguments : Block

-- An address is given once: a block that has been freed stays free.
pub record Memory : Type 0 where
  pub next : ℕ
  pub block : ℕ → Option Block

abbrev pub update : (ℕ → Option Block) → ℕ → Option Block → ℕ → Option Block
update blocks a b a' = if a' == a then b else blocks a'

unfoldable pub alloc : Block → Memory → Memory
alloc b m = record { next = suc m.next; block = update m.block m.next (some b) }

-- `none`: a pointer that nothing has set, or a block that is not there.
unfoldable pub free : Pointer → Memory → Option Memory
free unset m = none
free null m = some m
free (at a) m = Option.map (λ _. record m { block = update m.block a none }) (m.block a)

unfoldable pub block_at : Pointer → Memory → Option Block
block_at (at a) m = m.block a
block_at p m = none

abbrev pub entry_of : ℕ → Block → Option Pointer
entry_of i (pointers ps) = get_elem? ps i
entry_of i b = none

abbrev pub text_of : Block → Option (List ℕ)
text_of (string s) = some s
text_of b = none

abbrev pub number_of : ℕ → Block → Option ℤ
number_of i (numbers (some zs)) = get_elem? zs i
number_of i b = none

abbrev pub filled_with : List ℤ → Block → Option Block
filled_with zs (numbers old) = some (numbers (some zs))
filled_with zs b = none

abbrev pub set_of : ℕ → Pointer → Block → Option Block
set_of i p (pointers ps) = if ltb i (length ps) then some (pointers (set ps i p)) else none
set_of i p b = none

-- `list[i]`.
unfoldable pub load : Pointer → ℕ → Memory → Option Pointer
unfolding block_at
load list i m = elim (block_at list m) [ none ↦ none | some b ↦ entry_of i b ]

-- The string that `list[i]` points to.
unfoldable pub load_text : Pointer → Memory → Option (List ℕ)
unfolding block_at
load_text p m = elim (block_at p m) [ none ↦ none | some b ↦ text_of b ]

-- `list[i] = p`.
unfoldable pub store : Pointer → ℕ → Pointer → Memory → Option Memory
store unset i p m = none
store null i p m = none
store (at a) i p m = elim (m.block a) [
  | none ↦ none
  | some b ↦ Option.map (λ b'. record m { block = update m.block a (some b') }) (set_of i p b)
]

-- `numbers[i]`, where it has been set.
unfoldable pub load_number : Pointer → ℕ → Memory → Option ℤ
unfolding block_at
load_number p i m = elim (block_at p m) [ none ↦ none | some b ↦ number_of i b ]

-- The integers of an array are set, one after another.
unfoldable pub store_numbers : Pointer → List ℤ → Memory → Option Memory
store_numbers unset zs m = none
store_numbers null zs m = none
store_numbers (at a) zs m = elim (m.block a) [
  | none ↦ none
  | some b ↦ Option.map (λ b'. record m { block = update m.block a (some b') }) (filled_with zs b)
]

-- Programs on a state with a memory. `none` is a use of memory that is not the program's: what
-- follows is undefined.
abbrev pub Cmd : Type 0 → Type 0 → Type 0
Cmd S A = S → Option (A × S)

infixl 5 ◌>>=◌ ◌>>◌
abbrev pub ◌>>=◌ : {S A B : Type 0} → Cmd S A → (A → Cmd S B) → Cmd S B
◌>>=◌ m f s = elim (m s) [ none ↦ none | some (a, s') ↦ f a s' ]

abbrev pub ◌>>◌ : {S B : Type 0} → Cmd S (Unit {0}) → Cmd S B → Cmd S B
m >> k = m >>= λ _. k

abbrev pub return : {S A : Type 0} → A → Cmd S A
return a s = some (a, s)
