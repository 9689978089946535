-- ===== src/ClientCommands/Commands.antt =====
-- The loop of `commands`, with `handle_exit` of `Clients Commands/exit.cpp`.
pub mod Laws
use distributed_system_manag.Base.{ℕ, zero, suc, Option, none, some, List}
use distributed_system_manag.ClientCommands.Levenshtein.{Table}
use distributed_system_manag.ClientCommands.Table.{ClientCommand}
use distributed_system_manag.ClientCommands.Shell.{Round, call, round}

-- `run` is what each handler but `handle_exit` does to the input that is left and to all else.
module _ {W : Type 0} (run : ClientCommand → List ℕ × W → List ℕ × W) where
  -- `none`: the process has ended.
  unfoldable pub run_handler : ClientCommand → List ℕ × W → Option (List ℕ × W)
  run_handler ClientCommand.exit s = none
  run_handler handler s = some (run handler s)

  unfoldable pub end_round : Round → List ℕ × W → Option (List ℕ × W)
  unfolding run_handler
  end_round (call handler) s = run_handler handler s
  end_round r s = some s

  -- The first rounds of the loop, which does not end. `memory` is what `choice` holds in each before it
  -- is read.
  unfoldable pub commands :
      (fresh : List ℕ → Table) (memory : ℕ → ℕ) (rounds : ℕ) → List ℕ × W → Option (List ℕ × W)
  unfolding end_round round
  commands fresh memory zero s = some s
  commands fresh memory (suc rounds) (input, w) =
      let (r, rest) = round fresh (memory rounds) input in
      elim (end_round r (rest, w)) [ none ↦ none | some s ↦ commands fresh memory rounds s ]
