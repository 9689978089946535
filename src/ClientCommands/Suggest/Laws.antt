-- ===== src/ClientCommands/Suggest/Laws.antt =====
-- What `find_closest_command` suggests.
use mathlib.Core.Option.{some-injective}
use distributed_system_manag.Base.{
  ℕ, ◌≤◌, ◌<◌, ◌≡◌, ◌∙◌, ap, sym, subst, inl, inr, true, false, Option, none, some, List, [], ◌∷◌,
  All, arith, Bool-cases, Option-cases, has_substring, leb, leb→le, not_leb→lt,
}
use distributed_system_manag.ClientCommands.Levenshtein.{Table}
use distributed_system_manag.ClientCommands.Table.{
  Entry, Listed, client_dispatch_table, to_lowercase,
}
use distributed_system_manag.ClientCommands.Suggest.{
  Best, start, distance_to, find_containing, find_nearest, threshold, find_closest_in,
  find_closest_command,
}
use distributed_system_manag.ClientCommands.Suggest.Nearest.{
  NoneContains, find_containing-some, find_containing-none, find_nearest-Nearest,
}

-- What makes a name a good suggestion: it is a command's; and either it contains the input, both in
-- lower case, or no name does, and its distance from the input is at most the threshold and the
-- least of all.
pub data Suggests (fresh : List ℕ → Table) (input name : List ℕ) : Type 0 where
  containing :
      Listed name client_dispatch_table
      → has_substring (to_lowercase name) (to_lowercase input) ≡ true
      → Suggests fresh input name
  nearest :
      Listed name client_dispatch_table
      → All
          (λ (e : Entry). has_substring (to_lowercase e.0) (to_lowercase input) ≡ false)
          client_dispatch_table
      → distance_to fresh (to_lowercase input) name ≤ threshold input
      → All
          (λ (e : Entry).
            distance_to fresh (to_lowercase input) name
            ≤ distance_to fresh (to_lowercase input) e.0)
          client_dispatch_table
      → Suggests fresh input name

module _ (fresh : List ℕ → Table) (input : List ℕ) where
  abbrev text : List ℕ
  text = to_lowercase input

  abbrev best : Best
  best = find_nearest fresh text start client_dispatch_table

  best_least :
      {d : ℕ}
      → best.min_dist ≡ d
      → (table : List Entry) → All (λ (e : Entry). best.min_dist ≤ distance_to fresh text e.0) table
      → All (λ (e : Entry). d ≤ distance_to fresh text e.0) table
  best_least e [] h = tt
  best_least e (entry ∷ table) (h, hs) = (omega (arith, h, e), best_least e table hs)

  -- The loop over the table started with no match: a match is a listed name at the least distance.
  best-Listed :
      (name : List ℕ)
      → best.best_match ≡ some name
      → Listed name client_dispatch_table × (best.min_dist ≡ distance_to fresh text name)
  best-Listed name e =
      let near = find_nearest-Nearest fresh text client_dispatch_table start in
      elim near.found [
        | inl same ↦ cc (sym (ap (λ (b : Best). b.best_match) same) ∙ e)
        | inr (n, m, d, l) ↦
            let names : n ≡ name = some-injective _ _ (sym m ∙ e) in
            (
              subst (λ x. Listed x client_dispatch_table) names l,
              d ∙ ap (distance_to fresh text) names,
            )
      ]

  near-All : All (λ (e : Entry). best.min_dist ≤ distance_to fresh text e.0) client_dispatch_table
  near-All = (find_nearest-Nearest fresh text client_dispatch_table start).least

  -- Once the least distance is below 1000, a match stands.
  no_match : threshold input < 1000 → best.min_dist ≤ threshold input → best.best_match ≡ none → ⊥
  no_match small le absent =
      let near = find_nearest-Nearest fresh text client_dispatch_table start in
      elim near.found [
        | inl same ↦ omega (arith, small, le, ap (λ (b : Best). b.min_dist) same)
        | inr (n, m, d, l) ↦ cc (absent, m)
      ]

  far-All :
      threshold input < best.min_dist
      → (table : List Entry) → All (λ (e : Entry). best.min_dist ≤ distance_to fresh text e.0) table
      → NoneContains fresh text table
      → All
          (λ (e : Entry).
            (has_substring (to_lowercase e.0) text ≡ false)
            × (threshold input < distance_to fresh text e.0))
          table
  far-All lt [] h k = tt
  far-All lt (entry ∷ table) (h, hs) (k, ks) = ((k, omega (arith, h, lt)), far-All lt table hs ks)

module _ (fresh : List ℕ → Table) (table : List Entry) (input : List ℕ) where
  find_closest_in-containing :
      (name : List ℕ)
      → find_containing (to_lowercase input) table ≡ some name
      → find_closest_in fresh table input ≡ some name
  unfolding find_closest_in
  find_closest_in-containing name e = ground (arith, e)

  find_closest_in-near :
      find_containing (to_lowercase input) table ≡ none
      → leb (find_nearest fresh (to_lowercase input) start table).min_dist (threshold input) ≡ true
      → find_closest_in fresh table input
        ≡ (find_nearest fresh (to_lowercase input) start table).best_match
  unfolding find_closest_in
  find_closest_in-near e l = ground (arith, e, l)

  find_closest_in-far :
      find_containing (to_lowercase input) table ≡ none
      → leb (find_nearest fresh (to_lowercase input) start table).min_dist (threshold input) ≡ false
      → find_closest_in fresh table input ≡ none
  unfolding find_closest_in
  find_closest_in-far e l = ground (arith, e, l)

find_closest-Suggests :
    (fresh : List ℕ → Table) (input name : List ℕ)
    → find_closest_command fresh input ≡ some name
    → Suggests fresh input name
unfolding find_closest_command
find_closest-Suggests fresh input name e =
    elim (Option-cases (find_containing (to_lowercase input) client_dispatch_table)) [
      | inr (n, contains) ↦
          let same : n ≡ name =
            some-injective _ _
              (sym (find_closest_in-containing fresh client_dispatch_table input n contains) ∙ e) in
          let (listed, holds) =
            find_containing-some fresh (to_lowercase input) client_dispatch_table n contains in
          subst (Suggests fresh input) same (containing listed holds)
      | inl absent ↦ elim (Bool-cases (leb (best fresh input).min_dist (threshold input))) [
        | inl near ↦
            let (listed, d) =
              best-Listed fresh input name
                (sym (find_closest_in-near fresh client_dispatch_table input absent near) ∙ e) in
            nearest listed
              (find_containing-none fresh (to_lowercase input) client_dispatch_table absent)
              (subst (λ x. x ≤ threshold input) d (leb→le _ _ near))
              (best_least fresh input d client_dispatch_table (near-All fresh input))
        | inr far ↦ cc (e, find_closest_in-far fresh client_dispatch_table input absent far)
      ]
    ]

find_closest-none :
    (fresh : List ℕ → Table) (input : List ℕ)
    → threshold input < 1000
    → find_closest_command fresh input ≡ none
    → All
        (λ (e : Entry).
          (has_substring (to_lowercase e.0) (to_lowercase input) ≡ false)
          × (threshold input < distance_to fresh (to_lowercase input) e.0))
        client_dispatch_table
unfolding find_closest_command
find_closest-none fresh input small e =
    elim (Option-cases (find_containing (to_lowercase input) client_dispatch_table)) [
      | inr (n, contains) ↦
          cc (e, find_closest_in-containing fresh client_dispatch_table input n contains)
      | inl absent ↦ elim (Bool-cases (leb (best fresh input).min_dist (threshold input))) [
        | inl near ↦ absurd (
            no_match fresh input small (leb→le _ _ near)
              (sym (find_closest_in-near fresh client_dispatch_table input absent near) ∙ e))
        | inr far ↦
            far-All fresh input (not_leb→lt _ _ far) client_dispatch_table (near-All fresh input)
              (find_containing-none fresh (to_lowercase input) client_dispatch_table absent)
      ]
    ]

-- What a suggestion, or none, is for the input.
abbrev pub IsClosest : (List ℕ → Table) → List ℕ → Option (List ℕ) → Type 0
IsClosest fresh input (some name) = Suggests fresh input name
IsClosest fresh input none =
    All
      (λ (e : Entry).
        (has_substring (to_lowercase e.0) (to_lowercase input) ≡ false)
        × (threshold input < distance_to fresh (to_lowercase input) e.0))
      client_dispatch_table

-- With a threshold below 1000, which an input below 2000 bytes has: what `find_closest_command`
-- suggests is the name of a command and contains the input, both in lower case; or no command's name
-- contains the input, and the suggested one is as near to it as any other by the edit distance, at
-- most the threshold away. If it suggests nothing, then no command's name contains the input, and
-- each is further from it than the threshold.
pub find_closest_command-IsClosest :
    (fresh : List ℕ → Table) (input : List ℕ)
    → threshold input < 1000
    → IsClosest fresh input (find_closest_command fresh input)
find_closest_command-IsClosest fresh input small =
    elim (Option-cases (find_closest_command fresh input)) [
      | inl e ↦ subst (IsClosest fresh input) (sym e) (find_closest-none fresh input small e)
      | inr (name, e) ↦
          subst (IsClosest fresh input) (sym e) (find_closest-Suggests fresh input name e)
    ]
