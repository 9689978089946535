-- ===== src/ClientCommands/Suggest.antt =====
-- `find_closest_command`.
pub mod Nearest
pub mod Laws
use distributed_system_manag.Base.{
  ℕ, ◌/◌, max, Option, none, some, List, [], ◌∷◌, ltb, leb, if◌then◌else◌, length, has_substring,
}
use distributed_system_manag.ClientCommands.Levenshtein.{Table, levenshtein}
use distributed_system_manag.ClientCommands.Table.{Entry, client_dispatch_table, to_lowercase}

-- The first loop: the first name that contains the input.
unfoldable pub find_containing : List ℕ → List Entry → Option (List ℕ)
find_containing input_copy [] = none
find_containing input_copy ((name, _) ∷ table) =
    if has_substring (to_lowercase name) input_copy
    then some name
    else find_containing input_copy table

-- `min_dist` and `best_match`.
pub record Best : Type 0 where
  pub min_dist : ℕ
  pub best_match : Option (List ℕ)

abbrev pub start : Best
start = record { min_dist = 1000; best_match = none }

-- The distance of a name from the input; `fresh name` is the memory that `levenshtein` is given.
unfoldable pub distance_to : (fresh : List ℕ → Table) → List ℕ → List ℕ → ℕ
distance_to fresh input_copy name = levenshtein input_copy (to_lowercase name) (fresh name)

-- The body of the second loop.
unfoldable pub improve : (fresh : List ℕ → Table) → List ℕ → Best → List ℕ → Best
improve fresh input_copy best name =
    let dist = distance_to fresh input_copy name in
    if ltb dist best.min_dist then record { min_dist = dist; best_match = some name } else best

unfoldable pub find_nearest : (fresh : List ℕ → Table) → List ℕ → Best → List Entry → Best
find_nearest fresh input_copy best [] = best
find_nearest fresh input_copy best ((name, _) ∷ table) =
    find_nearest fresh input_copy (improve fresh input_copy best name) table

unfoldable pub threshold : List ℕ → ℕ
threshold input = max 3 (length input / 2)

unfoldable pub find_closest_in : (fresh : List ℕ → Table) → List Entry → List ℕ → Option (List ℕ)
find_closest_in fresh table input =
    let input_copy = to_lowercase input in
    let best = find_nearest fresh input_copy start table in
    elim (find_containing input_copy table) [
      | some name ↦ some name
      | none ↦ if leb best.min_dist (threshold input) then best.best_match else none
    ]

unfoldable pub find_closest_command : (fresh : List ℕ → Table) → List ℕ → Option (List ℕ)
unfolding find_closest_in
find_closest_command fresh input = find_closest_in fresh client_dispatch_table input
