-- ===== src/ClientCommands/Shell.antt =====
-- One round of the loop of `commands`, over the bytes that standard input still holds. What it
-- prints is left out.
pub mod Laws
use distributed_system_manag.Base.{
  ℕ, zero, suc, Bool, ◌||◌, ◌&&◌, true, false, Option, none, some, List, [], ◌∷◌, leb, ◌==◌,
  if◌then◌else◌, drop, c_str, chomp,
}
use distributed_system_manag.ClientCommands.Levenshtein.{Table}
use distributed_system_manag.ClientCommands.Table.{
  ClientCommand, client_dispatch_table, find_handler,
}
use distributed_system_manag.ClientCommands.Suggest.{find_closest_command}

-- The bytes that `fgets` takes with room for `room` of them, and what is left: it stops behind a
-- newline.
unfoldable pub take_line : (room : ℕ) → List ℕ → List ℕ × List ℕ
take_line zero input = ([], input)
take_line (suc room) [] = ([], [])
take_line (suc room) (c ∷ input) =
    let rest = take_line room input in if c == 10 then (c ∷ [], input) else (c ∷ rest.0, rest.1)

-- `fgets(command, sizeof(command), stdin)` and the cut at the newline; `none` at the input's end.
unfoldable pub read_command : List ℕ → Option (List ℕ) × List ℕ
unfolding take_line c_str chomp
read_command [] = (none, [])
read_command (c ∷ input) =
    let line = take_line 8191 (c ∷ input) in (some (c_str (chomp line.0)), line.1)

unfoldable pub is_space : ℕ → Bool
is_space c = c == 32 || (leb 9 c && leb c 13)

-- `scanf(" %c", &choice)` and `getchar()`. At the input's end `choice` keeps what its memory held.
unfoldable pub read_choice : (memory : ℕ) → List ℕ → ℕ × List ℕ
unfolding is_space
read_choice memory [] = (memory, [])
read_choice memory (c ∷ input) =
    let rest = read_choice memory input in if is_space c then rest else (c, drop 1 input)

-- What a round comes to: a handler's call, or none.
pub data Round : Type 0 where
  call : ClientCommand → Round
  aborted unknown_command ignored end_of_input : Round
  -- The line that was read in place of the first one.
  reentered : Option (List ℕ) → Round

-- The answer to "Did you mean", with the suggestion at hand.
unfoldable pub answer : (suggestion : List ℕ) → ℕ × List ℕ → Round × List ℕ
unfolding read_command find_handler
answer suggestion (choice, input) =
    let line = read_command input in
    if choice == b'y'
    then (
      elim (find_handler suggestion client_dispatch_table) [
        | some handler ↦ call handler
        | none ↦ ignored
      ],
      input,
    )
    else (if choice == b'n'
        then (aborted, input)
        else (if choice == b'e' then (reentered line.0, line.1) else (ignored, input)))

-- By the suggestion for a command that is not in the table.
unfoldable pub suggest : (memory : ℕ) → Option (List ℕ) → List ℕ → Round × List ℕ
unfolding answer read_choice
suggest memory none input = (unknown_command, input)
suggest memory (some suggestion) input = answer suggestion (read_choice memory input)

-- By the command's handler.
unfoldable pub run_command :
    (fresh : List ℕ → Table) (memory : ℕ) (command : List ℕ)
    → Option ClientCommand
    → List ℕ
    → Round × List ℕ
unfolding suggest find_closest_command
run_command fresh memory command (some handler) input = (call handler, input)
run_command fresh memory command none input =
    suggest memory (find_closest_command fresh command) input

-- By the line that was read.
unfoldable pub round_on :
    (fresh : List ℕ → Table) (memory : ℕ) → Option (List ℕ) × List ℕ → Round × List ℕ
unfolding run_command find_handler
round_on fresh memory (none, rest) = (end_of_input, rest)
round_on fresh memory (some command, rest) =
    run_command fresh memory command (find_handler command client_dispatch_table) rest

unfoldable pub round : (fresh : List ℕ → Table) (memory : ℕ) → List ℕ → Round × List ℕ
unfolding round_on read_command
round fresh memory input = round_on fresh memory (read_command input)
