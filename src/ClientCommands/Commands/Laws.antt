-- ===== src/ClientCommands/Commands/Laws.antt =====
-- What a sequence of typed commands does.
use distributed_system_manag.Base.{
  ℕ, ◌<◌, ◌≡◌, true, Option, none, some, List, [], ◌∷◌, ◌++◌, length, str_case_eq,
}
use mathlib.Core.Option
use distributed_system_manag.ClientCommands.Levenshtein.{Table}
use distributed_system_manag.ClientCommands.Table.{
  ClientCommand, client_dispatch_table, find_handler,
}
use distributed_system_manag.ClientCommands.Shell.Laws.{IsLine}

-- The text is a line that spells the name of the handler's command, in upper or lower case.
abbrev pub Spells : List ℕ × ClientCommand → Type 0
Spells (text, handler) =
    IsLine text
    × (length text < 8191)
    × ((name : List ℕ) × (find_handler name client_dispatch_table ≡ some handler)
        × (str_case_eq text name ≡ true))

-- The lines as they are typed, before the rest of the input.
abbrev pub typed : List (List ℕ × ClientCommand) → List ℕ → List ℕ
typed [] rest = rest
typed ((text, handler) ∷ entries) rest = text ++ (10 ∷ typed entries rest)

-- The handlers one after another, up to the first "exit".
abbrev pub act_all :
    {W : Type 0} → (ClientCommand → W → W) → List (List ℕ × ClientCommand) → W → Option W
act_all act [] w = some w
act_all act ((text, ClientCommand.exit) ∷ entries) w = none
act_all act ((text, handler) ∷ entries) w = act_all act entries (act handler w)

module _ {W : Type 0} (act : ClientCommand → W → W) (fresh : List ℕ → Table) (memory : ℕ → ℕ) where
  abbrev quiet : ClientCommand → List ℕ × W → List ℕ × W
  quiet handler (input, w) = (input, act handler w)
