-- ===== src/Tests/Network.antt =====
-- A node that answers nothing to the end, and the theorem on its connection there.
use distributed_system_manag.Base.{ℕ, ◌+◌, true, none, List, [], ◌∷◌, codes, length, pos}
use distributed_system_manag.Status.{status_message, open_sharefile_connection}
use distributed_system_manag.ShareFile.Send.{ClientOs, send_file}
use distributed_system_manag.Distribute.Local.{Args}

-- How often the connection was closed, and the texts that the node has yet to send.
record Asked : Type 0 where
  closed : ℕ
  texts : List (List ℕ)

abbrev receive_text : List (List ℕ) → Asked → List ℕ × Asked
receive_text [] w = ([], w)
receive_text (text ∷ texts) w = (text, record w { texts = texts })

abbrev node : ClientOs Asked
node = record {
  connect = λ ip w. (true, w);
  send = λ bytes w. (length bytes, w);
  receive = λ n w. receive_text w.texts w;
  open_input = λ path w. (none, w);
  fstat = λ fd w. (none, w);
  send_file = λ fd offset n w. (0, w);
  close = λ fd w. w;
}

-- It takes no file.
abbrev refusing : ClientOs Asked
refusing = record node { send = λ bytes w. (0, w) }

abbrev in_turn : List (Asked → Asked) → Asked → Asked
in_turn [] w = w
in_turn (thread ∷ threads) w = in_turn threads (thread w)

abbrev close_node : Asked → Asked
close_node w = record w { closed = w.closed + 1 }

abbrev task : Args
task = record {
  code_path = codes "a.cpp";
  train_file_path = codes "t.csv";
  train_offset = 0;
  train_chunk_size = pos 5;
}

abbrev start : Asked
start = record { closed = 0; texts = status_message open_sharefile_connection ∷ [] }
