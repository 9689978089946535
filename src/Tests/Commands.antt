-- ===== src/Tests/Commands.antt =====
-- The client's command line.
use distributed_system_manag.Base.{ℕ, ◌≤◌, ◌<◌, List, [], ◌∷◌, arith, codes}
use distributed_system_manag.ClientCommands.Levenshtein.{Table, levenshtein}
use distributed_system_manag.ClientCommands.Levenshtein.Distance.{Edits}
use distributed_system_manag.ClientCommands.Levenshtein.Table.{levenshtein-IsLeast}
use distributed_system_manag.ClientCommands.Table.{ClientCommand}
use distributed_system_manag.ClientCommands.Suggest.{find_closest_command, threshold}
use distributed_system_manag.ClientCommands.Suggest.Laws.{IsClosest, find_closest_command-IsClosest}

-- Memory that happens to hold 7 everywhere.
abbrev memory : Table
memory = λ i j. 7

levenshtein-IsLeast_example :
    Edits (codes "exti") (codes "exit") (levenshtein (codes "exti") (codes "exit") memory)
    × ((n : ℕ)
        → Edits (codes "exti") (codes "exit") n
        → levenshtein (codes "exti") (codes "exit") memory ≤ n)
levenshtein-IsLeast_example = levenshtein-IsLeast (codes "exti") (codes "exit") memory

below : threshold (codes "lst") < 1000
unfolding threshold
below = omega arith

find_closest_command-IsClosest_example :
    IsClosest (λ name. memory) (codes "lst") (find_closest_command (λ name. memory) (codes "lst"))
find_closest_command-IsClosest_example =
    find_closest_command-IsClosest (λ name. memory) (codes "lst") below

abbrev entered : List (List ℕ × ClientCommand)
entered =
    (codes "STATUS", ClientCommand.status)
    ∷ (codes "Exit", ClientCommand.exit)
    ∷ (codes "STATUS", ClientCommand.status)
    ∷ []
