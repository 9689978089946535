-- ===== src/ClientCommands/Table.antt =====
-- `client_dispatch_table`, its end marker left out, and `to_lowercase`.
use distributed_system_manag.Base.{
  ℕ, Option, none, some, List, [], ◌∷◌, codes, map, to_lower, str_case_eq, if◌then◌else◌, ◌≡◌, ◌⊎◌,
}

-- The handlers of the table.
pub data ClientCommand : Type 0 where
  list_connections status exit connect send_file receive_file distributive_systems : ClientCommand

abbrev pub Entry : Type 0
Entry = List ℕ × ClientCommand

abbrev pub client_dispatch_table : List Entry
client_dispatch_table =
    (codes "listConnections", ClientCommand.list_connections)
    ∷ (codes "status", ClientCommand.status)
    ∷ (codes "exit", ClientCommand.exit)
    ∷ (codes "connect", ClientCommand.connect)
    ∷ (codes "sendFile", ClientCommand.send_file)
    ∷ (codes "receiveFile", ClientCommand.receive_file)
    ∷ (codes "runDistributiveSystems", ClientCommand.distributive_systems)
    ∷ []

unfoldable pub to_lowercase : List ℕ → List ℕ
unfolding to_lower
to_lowercase s = map to_lower s

-- The loops of `commands` over the table, by `strcasecmp`.
unfoldable pub find_handler : List ℕ → List Entry → Option ClientCommand
find_handler text [] = none
find_handler text ((name, handler) ∷ table) =
    if str_case_eq text name then some handler else find_handler text table

-- The name stands in the table.
abbrev pub Listed : List ℕ → List Entry → Type 0
Listed name [] = ⊥
Listed name ((other, _) ∷ table) = (name ≡ other) ⊎ Listed name table
