-- ===== src/Memory/Laws.antt =====
-- What single uses of the memory give.
use distributed_system_manag.Base.{
  ℕ, ℤ, ◌<◌, ◌≡◌, ◌≢◌, refl, ap, Option, none, some, List, [], ◌∷◌, ◌++◌, length, set, get_elem?,
  arith,
}
use distributed_system_manag.Memory.{
  Pointer, Block, pointers, string, numbers, load_number, store_numbers, Memory, update, Cmd, ◌>>=◌,
  free, load, load_text, store,
}

pub set-append {ℓ} :
    {A : Type ℓ} (xs : List A) (a b : A) (ys : List A)
    → set (xs ++ (a ∷ ys)) (length xs) b ≡ xs ++ (b ∷ ys)
set-append [] a b ys = refl
set-append (x ∷ xs) a b ys = ap (◌∷◌ x) (set-append xs a b ys)

pub get_elem?-append {ℓ} :
    {A : Type ℓ} (xs : List A) (a : A) (ys : List A)
    → get_elem? (xs ++ (a ∷ ys)) (length xs) ≡ some a
get_elem?-append [] a ys = refl
get_elem?-append (x ∷ xs) a ys = get_elem?-append xs a ys

pub length-lt-append {ℓ} :
    {A : Type ℓ} (xs : List A) (a : A) (ys : List A) → length xs < length (xs ++ (a ∷ ys))
length-lt-append [] a ys = omega arith
length-lt-append (x ∷ xs) a ys = omega (arith, length-lt-append xs a ys)

pub update_self : (blocks : ℕ → Option Block) (a : ℕ) (b : Option Block) → update blocks a b a ≡ b
update_self blocks a b = ground arith

pub update_ne :
    (blocks : ℕ → Option Block) (a a' : ℕ) (b : Option Block)
    → a' ≢ a
    → update blocks a b a' ≡ blocks a'
update_ne blocks a a' b ne = ground arith

pub >>=-some :
    {S A B : Type 0} (m : Cmd S A) (f : A → Cmd S B) (s : S) {a : A} {s' : S}
    → m s ≡ some (a, s')
    → (m >>= f) s ≡ f a s'
>>=-some m f s e = rw (e, ◌>>=◌)

pub >>=-none :
    {S A B : Type 0} (m : Cmd S A) (f : A → Cmd S B) (s : S) → m s ≡ none → (m >>= f) s ≡ none
>>=-none m f s e = rw (e, ◌>>=◌)

module _ (a : ℕ) (m : Memory) where
  pub load-entry :
      (xs : List Pointer) (p : Pointer) (ys : List Pointer) (i : ℕ)
      → i ≡ length xs
      → m.block a ≡ some (pointers (xs ++ (p ∷ ys)))
      → load (Pointer.at a) i m ≡ some p
  unfolding load
  load-entry xs p ys i same e = rw same (rw (load, e) (get_elem?-append xs p ys))

  pub load_text-string :
      (s : List ℕ) → m.block a ≡ some (string s) → load_text (Pointer.at a) m ≡ some s
  unfolding load_text
  load_text-string s e = rw (load_text, e)

  pub free-some :
      (b : Block)
      → m.block a ≡ some b
      → free (Pointer.at a) m ≡ some (record m { block = update m.block a none })
  unfolding free
  free-some b e = rw e

  pub free-none : m.block a ≡ none → free (Pointer.at a) m ≡ none
  unfolding free
  free-none e = rw e

  pub store-entry :
      (xs : List Pointer) (p q : Pointer) (ys : List Pointer) (i : ℕ)
      → i ≡ length xs
      → m.block a ≡ some (pointers (xs ++ (p ∷ ys)))
      → store (Pointer.at a) i q m
        ≡ some (record m { block = update m.block a (some (pointers (xs ++ (q ∷ ys)))) })
  unfolding store
  store-entry xs p q ys i same e =
      rw same (ground (arith, e, set-append xs p q ys, length-lt-append xs p ys))

  pub load_number-entry :
      (xs : List ℤ) (z : ℤ) (zs : List ℤ) (i : ℕ)
      → i ≡ length xs
      → m.block a ≡ some (numbers (some (xs ++ (z ∷ zs))))
      → load_number (Pointer.at a) i m ≡ some z
  unfolding load_number
  load_number-entry xs z zs i same e = rw same (rw (load_number, e) (get_elem?-append xs z zs))

  pub store_numbers-some :
      (old : Option (List ℤ)) (zs : List ℤ)
      → m.block a ≡ some (numbers old)
      → store_numbers (Pointer.at a) zs m
        ≡ some (record m { block = update m.block a (some (numbers (some zs))) })
  unfolding store_numbers
  store_numbers-some old zs e = rw (store_numbers, e)
