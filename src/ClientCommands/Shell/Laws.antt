-- ===== src/ClientCommands/Shell/Laws.antt =====
-- Which handler a typed line runs.
use distributed_system_manag.Base.{
  ℕ, zero, suc, ◌<◌, ◌≡◌, ◌≢◌, refl, ap, ap₂, ◌∙◌, true, Option, some, List, [], ◌∷◌, ◌++◌, map,
  All, arith, length, c_str, chomp, str_eq, str_case_eq, to_lower, if◌then◌else◌,
}
use distributed_system_manag.ClientCommands.Levenshtein.{Table}
use distributed_system_manag.ClientCommands.Table.{
  ClientCommand, Entry, client_dispatch_table, find_handler,
}
use distributed_system_manag.ClientCommands.Shell.{
  take_line, read_command, call, run_command, round_on, round,
}

-- Text that a user can type on one line.
abbrev pub IsLine : List ℕ → Type 0
IsLine text = All (λ c. (c ≢ 10) × (c ≢ 0)) text

take_line-append :
    (room : ℕ) (text rest : List ℕ)
    → IsLine text
    → length text < room
    → take_line room (text ++ (10 ∷ rest)) ≡ (text ++ (10 ∷ []), rest)
unfolding take_line
take_line-append zero text rest h lt = absurd (omega arith)
take_line-append (suc room) [] rest h lt = ground arith
take_line-append (suc room) (c ∷ text) rest (h, hs) lt =
    let ih = take_line-append room text rest hs (omega arith) in ground (arith, ih, h)

chomp-append : (text : List ℕ) → IsLine text → c_str (chomp (text ++ (10 ∷ []))) ≡ text
unfolding c_str chomp
chomp-append [] h = ground arith
chomp-append (c ∷ text) (h, hs) = let ih = chomp-append text hs in ground (arith, ih, h)

read_command-append :
    (text rest : List ℕ)
    → IsLine text
    → length text < 8191
    → read_command (text ++ (10 ∷ rest)) ≡ (some text, rest)
unfolding read_command
read_command-append [] rest h lt = refl
read_command-append (c ∷ text) rest h lt =
    ap (λ (l : List ℕ × List ℕ). (some (c_str (chomp l.0)), l.1))
      (take_line-append 8191 (c ∷ text) rest h lt)
    ∙ ap (λ (t : List ℕ). (some t, rest)) (chomp-append (c ∷ text) h)

-- Equal in lower case, two texts find the same handler.
str_eq→≡ : (a b : List ℕ) → str_eq a b ≡ true → a ≡ b
unfolding str_eq
str_eq→≡ [] [] e = refl
str_eq→≡ [] (y ∷ b) e = cc
str_eq→≡ (x ∷ a) [] e = cc
str_eq→≡ (x ∷ a) (y ∷ b) e = ground (arith, str_eq→≡ a b)

find_handler-same :
    (a b : List ℕ) (table : List Entry)
    → map to_lower a ≡ map to_lower b
    → find_handler a table ≡ find_handler b table
unfolding find_handler str_case_eq
find_handler-same a b [] e = refl
find_handler-same a b ((name, h) ∷ table) e =
    let ih = find_handler-same a b table e in
    ap₂
      (λ (lowered : List ℕ) (found : Option ClientCommand).
        if str_eq lowered (map to_lower name) then some h else found)
      e ih

lowered : (a b : List ℕ) → str_case_eq a b ≡ true → map to_lower a ≡ map to_lower b
unfolding str_case_eq
lowered a b e = str_eq→≡ _ _ e

round-eq :
    (fresh : List ℕ → Table) (memory : ℕ) (input text rest : List ℕ) (handler : ClientCommand)
    → read_command input ≡ (some text, rest)
    → find_handler text client_dispatch_table ≡ some handler
    → round fresh memory input ≡ (call handler, rest)
unfolding round round_on run_command
round-eq fresh memory input text rest handler e found =
    ap (round_on fresh memory) e
    ∙ ap (λ (f : Option ClientCommand). run_command fresh memory text f rest) found

-- A line that spells a command of the table, in upper or lower case, runs that command's handler,
-- and no other; the input behind the line stays.
pub round-runs :
    (fresh : List ℕ → Table) (memory : ℕ) (text rest : List ℕ) (name : List ℕ)
    (handler : ClientCommand)
    → IsLine text
    → length text < 8191
    → find_handler name client_dispatch_table ≡ some handler
    → str_case_eq text name ≡ true
    → round fresh memory (text ++ (10 ∷ rest)) ≡ (call handler, rest)
unfolding round
round-runs fresh memory text rest name handler h lt e same =
    let found : find_handler text client_dispatch_table ≡ some handler =
      find_handler-same text name client_dispatch_table (lowered text name same) ∙ e in
    round-eq fresh memory (text ++ (10 ∷ rest)) text rest handler
      (read_command-append text rest h lt) found
