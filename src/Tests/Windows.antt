-- ===== src/Tests/Windows.antt =====
-- A Windows system small enough to compute with, and the theorems on it at inputs.
use distributed_system_manag.Base.{
  ℕ, ◌+◌, ◌≡◌, ◌<◌, refl, arith, Option, none, some, List, [], ◌∷◌, ◌++◌, length, take, drop, min,
  codes, true, pos, ap,
}
use distributed_system_manag.Node.{ServerOs, Node}
use distributed_system_manag.Discovery.{Found, text, null}
use distributed_system_manag.Distribute.Chunks
use distributed_system_manag.Distribute.Local
use distributed_system_manag.Distribute.Local.{ComputeOs, Pipe, wait_failed}
use distributed_system_manag.Distribute.Run
use distributed_system_manag.Windows.System.{
  WindowsOs, Overlapped, overlapped, close_handles, pread_windows,
}
use distributed_system_manag.Windows.System.Pread.{position}
use distributed_system_manag.Windows.System.Handles.{Counts}
use distributed_system_manag.Windows.Feed.{feed_chunk, bytes_read}
use distributed_system_manag.Windows.Feed.Posix.{Emulates, feed_chunk-linux}
use distributed_system_manag.Windows.Child.{distributive_computing}
use distributed_system_manag.Windows.Child.Handles.{distributive_computing-Counts}
use distributed_system_manag.Windows.Session.{await_train}
use distributed_system_manag.Windows.Session.Flag.{await_train-flag}

-- What the program has been given and has yet to print, and the handles given and closed.
pub record World : Type 0 where
  input : List ℕ
  output : List ℕ
  opened : ℕ
  closed : ℕ

abbrev pub start : World
start = record { input = []; output = codes "42"; opened = 0; closed = 0 }

abbrev text_read : List ℕ → Option Overlapped → ℕ → World → Option (List ℕ) × World
text_read content (some ov) n w = (some (take (min n 5) (drop (position ov) content)), w)
text_read content none n w = (some (take n w.output), record w { output = drop n w.output })

-- The one file is read five bytes at a time.
abbrev pub windows : List ℕ → WindowsOs World
windows content = record {
  create_pipe =
      λ w. (some (record { read_end = 3; write_end = 4 }), record w { opened = w.opened + 2 });
  set_handle_information = λ h w. w;
  create_process = λ command handles w.
      (some (record { h_process = 6; h_thread = 7 }), record w { opened = w.opened + 2 });
  wait_for_single_object = λ h w. w;
  get_exit_code_process = λ h w. (0, w);
  create_file = λ path w. (some 5, w);
  get_file_size_ex = λ h w. (some (length content), w);
  read_file = λ h n ov w. text_read content ov n w;
  write_file = λ h bytes w. (some (length bytes), record w { input = w.input ++ bytes });
  close_handle = λ h w. record w { closed = w.closed + 1 };
}

abbrev pub lines : List ℕ
lines = codes "12\n34\n56\n78\n90\n"

file_read : ℕ → ℕ → ℕ → World → Option (List ℕ) × World
file_read file n p w = (some (take (min n 5) (drop p lines)), w)

-- The calls of a Linux system that the loops make, done by the Windows one.
abbrev linux : ComputeOs World
linux = record {
  pipe = λ w. (none, w);
  spawn = λ arguments pipes w. (true, w);
  dup2 = λ a b w. (true, w);
  access = λ p w. (true, w);
  exec = λ p w. (true, w);
  wait_child = λ w. (wait_failed, w);
  open_input = λ p w. (none, w);
  pread = λ file n offset w. (
    bytes_read (pread_windows (windows lines) file n offset w).0,
    (pread_windows (windows lines) file n offset w).1,
  );
  write = λ h bytes w. (length bytes, record w { input = w.input ++ bytes });
  read = λ fd n w. ([], w);
  close = λ fd w. w;
}

linux-Emulates : Emulates (windows lines) linux
linux-Emulates = record { read = λ file n offset w. refl; write = λ h bytes w. refl }

feed_chunk-linux_example :
    feed_chunk (windows lines) 5 4 (pos 6) 3 start ≡ Local.feed linux 5 4 (pos 6) 3 start
feed_chunk-linux_example = feed_chunk-linux (windows lines) linux linux-Emulates 5 4 (pos 6) 3 start

text_read_opened :
    (o : Option Overlapped) (n : ℕ) (w : World) → (text_read lines o n w).1.opened ≡ w.opened
text_read_opened none n w = refl
text_read_opened (some ov) n w = refl

text_read_closed :
    (o : Option Overlapped) (n : ℕ) (w : World) → (text_read lines o n w).1.closed ≡ w.closed
text_read_closed none n w = refl
text_read_closed (some ov) n w = refl

windows-Counts : Counts (windows lines) (λ w. w.opened) (λ w. w.closed)
windows-Counts = record {
  pipe_opened = λ w. refl;
  pipe_closed = λ w. refl;
  process_opened = λ c hs w. refl;
  process_closed = λ c hs w. refl;
  close_opened = λ h w. refl;
  close_closed = λ h w. omega arith;
  inherit_same = λ h w. refl;
  inherit_closed = λ h w. refl;
  wait_opened = λ h w. refl;
  wait_closed = λ h w. refl;
  exit_opened = λ h w. refl;
  exit_closed = λ h w. refl;
  read_opened = λ h n o w. text_read_opened o n w;
  read_closed = λ h n o w. text_read_closed o n w;
  write_opened = λ h bs w. refl;
  write_closed = λ h bs w. refl;
}

computed : (distributive_computing (windows lines) 2 3 (pos 6) 5 start).0 ≡ some (pos 42)
unfolding distributive_computing close_handles
computed = refl

distributive_computing-Counts_example :
    (distributive_computing (windows lines) 2 3 (pos 6) 5 start).1.opened + start.closed
    ≡ start.opened + (distributive_computing (windows lines) 2 3 (pos 6) 5 start).1.closed
distributive_computing-Counts_example =
    distributive_computing-Counts (windows lines) (λ w. w.opened) (λ w. w.closed) windows-Counts
      (λ w e. cc e) (λ h bytes w e. cc e) 2 3 (pos 6) 5 start (pos 42) computed

abbrev pub line_reads : ℕ → ℕ → List ℕ
line_reads n p = take (min n 5) (drop p lines)

line_position : (p : ℕ) → p < 15 → position (overlapped p) ≡ p
unfolding overlapped
line_position p h = omega arith

pub reads :
    (p : ℕ) (w : World)
    → p < 15
    → bytes_read (pread_windows (windows lines) 5 4096 p w).0 ≡ line_reads 4096 p
unfolding pread_windows bytes_read
reads p w h = ap (λ q. line_reads 4096 q) (line_position p h)

abbrev two_servers : Found
two_servers = record {
  ip_list = text (codes "127.0.0.1") ∷ text (codes "10.0.0.2") ∷ null ∷ [];
  ip_status = [];
  count = 2;
}

abbrev unopened : WindowsOs World
unopened = record (windows lines) { create_file = λ path w. (none, w) }

abbrev quiet : ServerOs World
quiet = record {
  send = λ bs w. (length bs, w);
  receive = λ n w. ([], w);
  mkdir = λ path w. w;
  open_output = λ path w. (none, w);
  write = λ fd bs w. (length bs, w);
  close = λ fd w. w;
}

abbrev signalled : Node World
signalled = record {
  world = start;
  open_receive_file_connection = 1;
  shared_file_size = 15;
  processed_bytes = 15;
  shared_outpath = [];
  mesh_info_1 = record { flag = 0 };
  mesh_info_2 = record { flag = 1 };
}

abbrev left : Node World
left = record signalled { mesh_info_2 = record { flag = 0 } }

await_train-flag_example : left.open_receive_file_connection ≡ 1
unfolding await_train
await_train-flag_example = await_train-flag quiet unopened 9 3 (15 ∷ []) signalled left refl
