-- ===== src/ClientCommands/Levenshtein/Distance.antt =====
-- The edit distance of two texts by its recurrence, and as the least count of edits.
use native.Mathlib.Decide.{dec_le}
use distributed_system_manag.Base.{
  ℕ, zero, suc, ◌+◌, ◌≤◌, ◌<◌, ◌≡◌, refl, ap, ap₂, Bool-cases, ◌==◌, ==_iff, subst, min, List, [],
  ◌∷◌, ◌++◌, length, get_or, take, drop, append-nil, take_of_le, length-take, arith, inl, inr,
}
use distributed_system_manag.ClientCommands.Levenshtein.{substitution_cost}

-- `Edits s t n`: reading from the left, `n` changes, removals and insertions of a character turn
-- `s` into `t`.
pub data Edits : List ℕ → List ℕ → ℕ → Type 0 where
  done : Edits [] [] 0
  keep : {s t : List ℕ} {n : ℕ} (c : ℕ) → Edits s t n → Edits (c ∷ s) (c ∷ t) n
  change : {s t : List ℕ} {n : ℕ} (c d : ℕ) → Edits s t n → Edits (c ∷ s) (d ∷ t) (suc n)
  remove : {s t : List ℕ} {n : ℕ} (c : ℕ) → Edits s t n → Edits (c ∷ s) t (suc n)
  insert : {s t : List ℕ} {n : ℕ} (c : ℕ) → Edits s t n → Edits s (c ∷ t) (suc n)

module _ (s1 s2 : List ℕ) where
  abbrev pub cost : ℕ → ℕ → ℕ
  cost i j = substitution_cost (get_or s1 i 0) (get_or s2 j 0)

  -- The recurrence: between the first `i` characters of `s1` and the first `j` of `s2`.
  unfoldable pub dist : ℕ → ℕ → ℕ
  dist zero j = j
  dist (suc i) zero = suc i
  dist (suc i) (suc j) = min (dist i (suc j) + 1) (min (dist (suc i) j + 1) (dist i j + cost i j))

  dist-zero : (i : ℕ) → dist i 0 ≡ i
  unfolding dist
  dist-zero zero = refl
  dist-zero (suc i) = refl

  dist-remove : (i j : ℕ) → dist (suc i) j ≤ dist i j + 1
  unfolding dist
  dist-remove i zero = omega (arith, dist-zero i)
  dist-remove i (suc j) = omega arith

  dist-insert : (i j : ℕ) → dist i (suc j) ≤ dist i j + 1
  unfolding dist
  dist-insert zero j = omega arith
  dist-insert (suc i) j = omega arith

  dist-change : (i j : ℕ) → dist (suc i) (suc j) ≤ dist i j + cost i j
  unfolding dist
  dist-change i j = omega arith

cost-le-one : (a b : ℕ) → substitution_cost a b ≤ 1
unfolding substitution_cost
cost-le-one a b = ground arith

cost_self : (a : ℕ) → substitution_cost a a ≡ 0
unfolding substitution_cost
cost_self a = ground arith

drop-cons :
    (i : ℕ) (xs : List ℕ) {c : ℕ} {rest : List ℕ}
    → drop i xs ≡ c ∷ rest
    → (get_or xs i 0 ≡ c) × (drop (suc i) xs ≡ rest)
drop-cons zero [] e = cc
drop-cons (suc i) [] e = cc
drop-cons zero (x ∷ xs) e = ground arith
drop-cons (suc i) (x ∷ xs) e = drop-cons i xs e

module _ (s1 s2 : List ℕ) where
  -- A run of edits from a pair of positions on does not cost less than the distance grows by.
  dist-Edits :
      {s t : List ℕ} {n : ℕ}
      → Edits s t n
      → (i j i' j' : ℕ) → i + length s ≡ i'
      → j + length t ≡ j'
      → drop i s1 ≡ s
      → drop j s2 ≡ t
      → dist s1 s2 i' j' ≤ dist s1 s2 i j + n
  dist-Edits done i j i' j' e f p q = omega (arith, ap₂ (dist s1 s2) (right i e) (right j f))
    where
      right : (k : ℕ) {k' : ℕ} → k + 0 ≡ k' → k' ≡ k
      right k e = omega arith
  dist-Edits (keep {s} {t} {n} c h) i j i' j' e f p q =
      let (a, p') = drop-cons i s1 p in
      let (b, q') = drop-cons j s2 q in
      omega (
        arith,
        dist-Edits h (suc i) (suc j) i' j' (omega arith) (omega arith) p' q',
        dist-change s1 s2 i j,
        ap₂ substitution_cost a b,
        cost_self c,
      )
  dist-Edits (change {s} {t} {n} c d h) i j i' j' e f p q = omega (
    arith,
    dist-Edits h (suc i) (suc j) i' j' (omega arith) (omega arith) (drop-cons i s1 p).1
        (drop-cons j s2 q).1,
    dist-change s1 s2 i j,
    cost-le-one (get_or s1 i 0) (get_or s2 j 0),
  )
  dist-Edits (remove {s} {t} {n} c h) i j i' j' e f p q = omega (
    arith,
    dist-Edits h (suc i) j i' j' (omega arith) f (drop-cons i s1 p).1 q,
    dist-remove s1 s2 i j,
  )
  dist-Edits (insert {s} {t} {n} c h) i j i' j' e f p q = omega (
    arith,
    dist-Edits h i (suc j) i' j' e (omega arith) p (drop-cons j s2 q).1,
    dist-insert s1 s2 i j,
  )

  pub dist-le : {n : ℕ} → Edits s1 s2 n → dist s1 s2 (length s1) (length s2) ≤ n
  unfolding dist
  dist-le h =
      omega (arith, dist-Edits h 0 0 (length s1) (length s2) (omega arith) (omega arith) refl refl)

-- Edits of first parts and of second parts, one after the other.
Edits-append :
    {s t s' t' : List ℕ} {n m : ℕ} → Edits s t n → Edits s' t' m → Edits (s ++ s') (t ++ t') (n + m)
Edits-append done h = subst (Edits _ _) (omega arith) h
Edits-append (keep c g) h = keep c (Edits-append g h)
Edits-append (change c d g) h = subst (Edits _ _) (omega arith) (change c d (Edits-append g h))
Edits-append (remove c g) h = subst (Edits _ _) (omega arith) (remove c (Edits-append g h))
Edits-append (insert c g) h = subst (Edits _ _) (omega arith) (insert c (Edits-append g h))

insert_all : (t : List ℕ) → Edits [] t (length t)
insert_all [] = done
insert_all (c ∷ t) = insert c (insert_all t)

remove_all : (s : List ℕ) → Edits s [] (length s)
remove_all [] = done
remove_all (c ∷ s) = remove c (remove_all s)

-- One character for another, for the cost of the substitution.
substitute : (a b : ℕ) → Edits (a ∷ []) (b ∷ []) (substitution_cost a b)
unfolding substitution_cost
substitute a b = elim (Bool-cases (a == b)) [
  | inl same ↦ rw same (subst (λ c. Edits (a ∷ []) (c ∷ []) 0) ((==_iff a b).0 same) (keep a done))
  | inr other ↦ rw other (change a b done)
]

Edits-min : {s t : List ℕ} (n m : ℕ) → Edits s t n → Edits s t m → Edits s t (min n m)
Edits-min {s} {t} n m g h = elim (dec_le n m) [
  | yes le ↦ subst (Edits s t) (omega arith) g
  | no gt ↦ subst (Edits s t) (omega arith) h
]

take-suc : (i : ℕ) (xs : List ℕ) → i < length xs → take (suc i) xs ≡ take i xs ++ get_or xs i 0 ∷ []
take-suc i [] h = absurd (omega arith)
take-suc zero (x ∷ xs) h = refl
take-suc (suc i) (x ∷ xs) h = ap (◌∷◌ x) (take-suc i xs (omega arith))

length-take_of_le : (i : ℕ) (xs : List ℕ) → i ≤ length xs → length (take i xs) ≡ i
length-take_of_le i xs h = omega (arith, length-take {0} i xs)

module _ (s1 s2 : List ℕ) where
  abbrev Reached : ℕ → ℕ → ℕ → Type 0
  Reached i j n = Edits (take i s1) (take j s2) n

  Edits-last :
      (i j n : ℕ)
      → i < length s1
      → j < length s2
      → Reached i j n
      → Reached (suc i) (suc j) (n + cost s1 s2 i j)
  Edits-last i j n hi hj h =
      rw (take-suc i s1 hi, take-suc j s2 hj)
        (Edits-append h (substitute (get_or s1 i 0) (get_or s2 j 0)))

  Edits-remove : (i j n : ℕ) → i < length s1 → Reached i j n → Reached (suc i) j (n + 1)
  Edits-remove i j n hi h = rw (take-suc i s1 hi) (
      subst (λ t. Edits (take i s1 ++ get_or s1 i 0 ∷ []) t (n + 1)) (append-nil (take j s2))
        (Edits-append h (remove (get_or s1 i 0) done)))

  Edits-insert : (i j n : ℕ) → j < length s2 → Reached i j n → Reached i (suc j) (n + 1)
  Edits-insert i j n hj h = rw (take-suc j s2 hj) (
      subst (λ t. Edits t (take j s2 ++ get_or s2 j 0 ∷ []) (n + 1)) (append-nil (take i s1))
        (Edits-append h (insert (get_or s2 j 0) done)))

  dist-Reached : (i j : ℕ) → i ≤ length s1 → j ≤ length s2 → Reached i j (dist s1 s2 i j)
  unfolding dist
  dist-Reached zero j hi hj =
      subst (Edits [] (take j s2)) (length-take_of_le j s2 hj) (insert_all (take j s2))
  dist-Reached (suc i) zero hi hj =
      subst (Edits (take (suc i) s1) []) (length-take_of_le (suc i) s1 hi)
        (remove_all (take (suc i) s1))
  dist-Reached (suc i) (suc j) hi hj =
      Edits-min _ _
        (Edits-remove i (suc j) _ (omega arith) (dist-Reached i (suc j) (omega arith) hj))
        (Edits-min _ _
          (Edits-insert (suc i) j _ (omega arith) (dist-Reached (suc i) j hi (omega arith)))
          (Edits-last i j _ (omega arith) (omega arith)
            (dist-Reached i j (omega arith) (omega arith))))

  pub dist-Edits_exist : Edits s1 s2 (dist s1 s2 (length s1) (length s2))
  dist-Edits_exist =
      subst (λ s. Edits s s2 (dist s1 s2 (length s1) (length s2)))
        (take_of_le (length s1) s1 (omega arith))
        (subst (λ t. Edits (take (length s1) s1) t (dist s1 s2 (length s1) (length s2)))
          (take_of_le (length s2) s2 (omega arith))
          (dist-Reached (length s1) (length s2) (omega arith) (omega arith)))
