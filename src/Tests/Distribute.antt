-- ===== src/Tests/Distribute.antt =====
-- Files divided among nodes, and a node's work.
use mathlib.Core.List.Permᴰ.{swap}
use distributed_system_manag.Base.{
  ℕ, zero, suc, ◌+◌, ◌*◌, ◌/◌, ◌<◌, ◌≡◌, refl, ◌⊎◌, All, none, some, List, [], ◌∷◌, length,
  replicate, drop, arith, codes, pos, negsuc, true, false,
}
use distributed_system_manag.Distribute.Align.{find_newline}
use distributed_system_manag.Distribute.Chunks.{Chunk, divide_file_into_chunks}
use distributed_system_manag.Distribute.Chunks.Lines.{ShortLines, IsWhole}
use distributed_system_manag.Distribute.Chunks.Coverage.{all_bytes, divide-IsWhole}
use distributed_system_manag.Distribute.Chunks.Overrun.{divide-overrun}
use distributed_system_manag.ShareFile.Send.Sent.{Puts}
use distributed_system_manag.Distribute.Local.{feed}
use distributed_system_manag.Distribute.Local.Feed.{feed-Puts}
use distributed_system_manag.Distribute.Run.{final_result}
use distributed_system_manag.Distribute.Run.Order.{final_result-Perm}
use distributed_system_manag.Discovery.{
  entries, DiscoveryOs, Found, text, null, unset, max_ips, send_request, find_total_connections,
}
use distributed_system_manag.Discovery.Laws.{send_request-Counted}
use distributed_system_manag.Tests.Systems.{
  file_pread, file_pread-ReadsFile, compute, compute-PipeHealthy,
}

-- `k` lines of a digit.
pub lines : ℕ → List ℕ
lines zero = []
lines (suc k) = b'7' ∷ 10 ∷ lines k

newline_lines :
    (k p : ℕ)
    → p < length (lines k)
    → (d : ℕ) × (find_newline (drop p (lines k)) ≡ some d) × (d < 2)
unfolding lines find_newline
newline_lines zero p h = absurd (omega arith)
newline_lines (suc k) zero h = (1, refl, omega arith)
newline_lines (suc k) (suc zero) h = (0, refl, omega arith)
newline_lines (suc k) (suc (suc p)) h = newline_lines k p (omega arith)

pub lines-ShortLines : ShortLines 2 (lines 6)
lines-ShortLines = record { limit = omega arith; newline = newline_lines 6 }

pub room : 1 * 2 < length (lines 6) / (1 + 3)
unfolding lines
room = omega arith

divide-IsWhole_example :
    (chunks : List Chunk) × (divide_file_into_chunks
        (file_pread (lines 6))
        true
        (some (length (lines 6)))
        2
      ≡ some chunks)
    × All (IsWhole (lines 6)) chunks
    × (all_bytes (lines 6) chunks ≡ lines 6)
divide-IsWhole_example =
    divide-IsWhole (file_pread (lines 6)) (lines 6) 2 1 (file_pread-ReadsFile (lines 6))
      lines-ShortLines room

abbrev one_line : List ℕ
one_line = codes "1234\n"

one_newline : find_newline one_line ≡ some 4
unfolding find_newline
one_newline = refl

divide-overrun_example :
    divide_file_into_chunks (file_pread one_line) true (some 5) 3
    ≡ some (
        record { offset = 0; size = pos 5 }
        ∷ record { offset = 5; size = pos 1 }
        ∷ record { offset = 6; size = negsuc 0 }
        ∷ [])
divide-overrun_example =
    divide-overrun (file_pread one_line) one_line 1 (file_pread-ReadsFile one_line) (omega arith)
      refl one_newline (omega arith)

third_newline : find_newline (drop 3 one_line) ≡ some 1
unfolding find_newline
third_newline = refl

feed-Puts_example : Puts (λ w. w) (feed (compute one_line) 5 4 (pos 4) 1) tt (codes "234\n") []
feed-Puts_example =
    feed-Puts (compute one_line) (λ w. w) 5 4 one_line (compute-PipeHealthy one_line) 4 1 []
      (omega arith)

final_result-Perm_example :
    final_result (pos 5 ∷ negsuc 0 ∷ []) ≡ final_result (negsuc 0 ∷ pos 5 ∷ [])
final_result-Perm_example =
    final_result-Perm (pos 5 ∷ negsuc 0 ∷ []) (negsuc 0 ∷ pos 5 ∷ []) (swap refl refl)

-- A network on which as many servers answer as the number says; at none the socket cannot be set.
abbrev pub network : DiscoveryOs ℕ
network = record {
  set_broadcast = λ w. elim w [ zero ↦ (false, zero) | suc k ↦ (true, suc k) ];
  set_timeout = λ w. (true, w);
  send_to = λ bs w. (true, w);
  malloc = λ w. (true, w);
  receive_from =
      λ w. elim w [ zero ↦ (none, zero) | suc k ↦ (some (codes "1", codes "10.0.0.7"), k) ];
  close = λ w. w;
}

abbrev pub two_found : Found
two_found = record {
  ip_list = text (codes "10.0.0.7") ∷ text (codes "10.0.0.7") ∷ null ∷ replicate 297 unset;
  ip_status = text (codes "1") ∷ text (codes "1") ∷ null ∷ replicate 297 unset;
  count = 2;
}

pub network_found : (send_request network 2).0 ≡ some two_found
unfolding send_request
network_found = refl

send_request-Counted_example :
    ((2 < max_ips) × (find_total_connections two_found.ip_list ≡ some 2))
    ⊎ ((2 ≡ max_ips) × (find_total_connections two_found.ip_list ≡ none))
send_request-Counted_example = send_request-Counted network 2 two_found network_found

pub two_listed : entries two_found.ip_list ≡ some (codes "10.0.0.7" ∷ codes "10.0.0.7" ∷ [])
unfolding entries
two_listed = refl
