-- ===== src/Discovery/Lists/Left.antt =====
-- The list that `sendRequest` leaves in the client's memory, and that it is the one without pointers.
pub mod Steps
pub mod Search
use distributed_system_manag.Base.{
  ℕ, zero, suc, ◌+◌, ◌*◌, ◌<◌, ◌≤◌, ◌≡◌, ◌≢◌, refl, sym, ap, subst, ◌∙◌, Bool, true, false, Option,
  none, some, List, [], ◌∷◌, ◌++◌, map, length, replicate, take, arith, set, codes, lt→ltb,
}
use mathlib.Core.Option
use mathlib.Core.Option.{some-injective}
use distributed_system_manag.Discovery
use distributed_system_manag.Discovery.Laws
use distributed_system_manag.Discovery.{
  DiscoveryOs, Slot, text, Found, max_ips, no_servers, leave_list, await_answers, entries,
}
use distributed_system_manag.Memory.{
  Pointer, unset, null, Block, pointers, Memory, alloc, update, ◌>>=◌, ◌>>◌,
}
use distributed_system_manag.Memory.Laws.{>>=-some, store-entry, update_ne, update_self}
use distributed_system_manag.Discovery.Lists.{
  Client, malloc, collect, close, terminate, fill_lists, receive_answers, send_request,
}
use distributed_system_manag.Discovery.Lists.Collected.{addresses, Strings, Arrays, malloc-has}
use distributed_system_manag.Discovery.Lists.Filled.Loop.{collect-Collected}
use distributed_system_manag.Discovery.Lists.Filled.{slot_of, Ready, Collected}

-- No block stands where `malloc` will give one.
abbrev pub IsFresh : Memory → Type 0
IsFresh m = (a : ℕ) → m.next ≤ a → m.block a ≡ none

-- The two arrays from the address `base` on, with the answers' strings behind them; below `base`
-- the blocks are as before.
pub record Listing {W : Type 0} (base : ℕ) (answers : List (List ℕ × List ℕ))
    (before : ℕ → Option Block) (s : Client W) : Type 0 where
  pub left : ℕ
  pub rooms : length answers + suc left ≡ max_ips
  pub arrays :
      Arrays base
        (suc base)
        (addresses (suc (suc (suc base))) answers ++ (null ∷ replicate left unset))
        (addresses (suc (suc base)) answers ++ (null ∷ replicate left unset))
        s
  pub strings : Strings s.memory.block (suc (suc base)) answers
  pub older : (a : ℕ) → a < base → s.memory.block a ≡ before a
  pub newer : (a : ℕ) → suc (suc base) + 2 * length answers ≤ a → s.memory.block a ≡ none

abbrev pub ip_of : List ℕ × List ℕ → List ℕ
ip_of (status, ip) = take 15 ip

-- What `sendRequest` gives where it leaves fewer than 300 answers, beside the list without pointers.
pub record Left {W : Type 0} (base : ℕ) (before : ℕ → Option Block) (f : Found)
    (out : Option (Unit {0} × Client W)) : Type 0 where
  pub answers : List (List ℕ × List ℕ)
  pub end : Client W
  pub result : out ≡ some (tt, end)
  pub listing : Listing base answers before end
  pub grown : suc (suc base) + 2 * length answers ≤ end.memory.next
  pub same_ips : entries f.ip_list ≡ some (map ip_of answers)

pub entries-slots :
    (answers : List (List ℕ × List ℕ)) (rest : List Slot)
    → entries (map slot_of answers ++ (Slot.null ∷ rest)) ≡ some (map ip_of answers)
unfolding entries
entries-slots [] rest = refl
entries-slots (a ∷ answers) rest = ap (Option.map (◌∷◌ (ip_of a))) (entries-slots answers rest)

pub length-addresses :
    (a : ℕ) (answers : List (List ℕ × List ℕ)) → length (addresses a answers) ≡ length answers
length-addresses a [] = refl
length-addresses a (_ ∷ answers) = ap suc (length-addresses (suc (suc a)) answers)

pub Strings-update :
    (blocks : ℕ → Option Block) (k a : ℕ) (b : Option Block) (answers : List (List ℕ × List ℕ))
    → k < a
    → Strings blocks a answers
    → Strings (update blocks k b) a answers
Strings-update blocks k a b [] h strings = tt
Strings-update blocks k a b ((status, ip) ∷ answers) h (s, i, rest) = (
  update_ne blocks k a b (λ x. absurd (omega (arith, x, h))) ∙ s,
  update_ne blocks k (suc a) b (λ x. absurd (omega (arith, x, h))) ∙ i,
  Strings-update blocks k (suc (suc a)) b answers (omega (arith, h)) rest,
)

-- Where fewer than 300 answers came, the list of texts ends behind them.
pub terminated-entries :
    (answers : List (List ℕ × List ℕ)) (left : ℕ) (f : Found)
    → f.count < max_ips
    → f.count ≡ length answers
    → f.ip_list ≡ map slot_of answers ++ replicate (suc left) Slot.unset
    → entries (Discovery.terminate f).ip_list ≡ some (map ip_of answers)
unfolding Discovery.terminate
terminated-entries answers left f below same list =
    rw (lt→ltb f.count max_ips below, same, list, set-slots answers)
      (entries-slots answers (replicate left Slot.unset))
  where
    set-slots :
        (answers : List (List ℕ × List ℕ))
        → set (map slot_of answers ++ replicate (suc left) Slot.unset) (length answers) Slot.null
          ≡ map slot_of answers ++ (Slot.null ∷ replicate left Slot.unset)
    set-slots [] = refl
    set-slots (a ∷ answers) = ap (◌∷◌ (slot_of a)) (set-slots answers)
