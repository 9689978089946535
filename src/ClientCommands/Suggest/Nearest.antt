-- ===== src/ClientCommands/Suggest/Nearest.antt =====
-- The two loops of `find_closest_command` over the table.
use distributed_system_manag.Base.{
  ℕ, ◌≤◌, ◌<◌, ◌≡◌, refl, ◌∙◌, ap, ◌⊎◌, inl, inr, true, false, none, some, List, [], ◌∷◌, All,
  arith, Bool-cases, has_substring,
}
use distributed_system_manag.ClientCommands.Levenshtein.{Table}
use distributed_system_manag.ClientCommands.Table.{Entry, Listed, to_lowercase}
use distributed_system_manag.ClientCommands.Suggest.{
  Best, distance_to, improve, find_containing, find_nearest,
}

module _ (fresh : List ℕ → Table) (text : List ℕ) where
  -- No name of the table contains the input.
  abbrev pub NoneContains : List Entry → Type 0
  NoneContains table = All (λ (e : Entry). has_substring (to_lowercase e.0) text ≡ false) table

  pub find_containing-some :
      (table : List Entry) (name : List ℕ)
      → find_containing text table ≡ some name
      → Listed name table × (has_substring (to_lowercase name) text ≡ true)
  unfolding find_containing
  find_containing-some [] name e = cc
  find_containing-some ((other, h) ∷ table) name e =
      elim (Bool-cases (has_substring (to_lowercase other) text)) [
        | inl here ↦ let same : name ≡ other = ground (arith, here, e) in (inl same, rw same here)
        | inr elsewhere ↦
            let (listed, contains) =
              find_containing-some table name (ground (arith, elsewhere, e)) in
            (inr listed, contains)
      ]

  pub find_containing-none :
      (table : List Entry) → find_containing text table ≡ none → NoneContains table
  unfolding find_containing
  find_containing-none [] e = tt
  find_containing-none ((other, h) ∷ table) e = ground (arith, find_containing-none table)

  -- The loop's result is the start or a listed name at its distance, and no distance is smaller.
  pub record Nearest (best result : Best) (table : List Entry) : Type 0 where
    pub at_most : result.min_dist ≤ best.min_dist
    pub least : All (λ (e : Entry). result.min_dist ≤ distance_to fresh text e.0) table
    pub found :
        (result ≡ best)
        ⊎ ((name : List ℕ) × (result.best_match ≡ some name)
            × (result.min_dist ≡ distance_to fresh text name)
            × Listed name table)

  improve-cases :
      (best : Best) (name : List ℕ)
      → ((improve fresh text best name ≡ best) × (best.min_dist ≤ distance_to fresh text name))
        ⊎ ((improve fresh text best name
              ≡ record { min_dist = distance_to fresh text name; best_match = some name })
            × (distance_to fresh text name < best.min_dist))
  unfolding improve
  improve-cases best name = ground arith

  pub find_nearest-Nearest :
      (table : List Entry) (best : Best) → Nearest best (find_nearest fresh text best table) table
  unfolding find_nearest
  find_nearest-Nearest [] best = record { at_most = omega arith; least = tt; found = inl refl }
  find_nearest-Nearest ((name, h) ∷ table) best =
      let rest = find_nearest-Nearest table (improve fresh text best name) in
      elim (improve-cases best name) [
        | inl (kept, le) ↦
            let lower : (find_nearest fresh text (improve fresh text best name) table).min_dist
                ≤ best.min_dist =
              omega (arith, rest.at_most, ap (λ (b : Best). b.min_dist) kept) in
            record {
              at_most = lower;
              least = (omega (arith, lower, le), rest.least);
              found = elim rest.found [
                | inl same ↦ inl (same ∙ kept)
                | inr (n, m, d, l) ↦ inr (n, m, d, inr l)
              ];
            }
        | inr (taken, lt) ↦
            let lower : (find_nearest fresh text (improve fresh text best name) table).min_dist
                ≤ distance_to fresh text name =
              omega (arith, rest.at_most, ap (λ (b : Best). b.min_dist) taken) in
            record {
              at_most = omega (arith, lower, lt);
              least = (lower, rest.least);
              found = elim rest.found [
                | inl same ↦ inr (
                  name,
                  ap (λ (b : Best). b.best_match) (same ∙ taken),
                  ap (λ (b : Best). b.min_dist) (same ∙ taken),
                  inl refl,
                )
                | inr (n, m, d, l) ↦ inr (n, m, d, inr l)
              ];
            }
      ]
