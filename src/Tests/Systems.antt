-- ===== src/Tests/Systems.antt =====
-- Systems small enough to compute with: a server that reads three bytes at a time, a client that
-- sends two, a pipe that takes three.
use distributed_system_manag.Base.{
  ℕ, zero, suc, ◌-◌, min, ◌<◌, ◌≡◌, ◌≢◌, refl, sym, ap, true, none, some, List, [], ◌∷◌, ◌++◌,
  length, take, drop, length-take, length-drop, take-append-drop, arith, str_eq, if◌then◌else◌,
  codes,
}
use distributed_system_manag.Node.{ServerOs}
use distributed_system_manag.ShareFile.Healthy.{View, Healthy, SameFiles-refl}
use distributed_system_manag.ShareFile.Send.{ClientOs}
use distributed_system_manag.ShareFile.Send.Healthy.{ClientHealthy}
use distributed_system_manag.Distribute.Align.Laws.{ReadsFile}
use distributed_system_manag.Distribute.Local.{ComputeOs, exited}
use distributed_system_manag.Distribute.Local.Feed.{PipeHealthy}

str_eq_refl : (s : List ℕ) → str_eq s s ≡ true
unfolding str_eq
str_eq_refl [] = refl
str_eq_refl (c ∷ s) = ground (arith, str_eq_refl s)

take-length-take : (k : ℕ) (s : List ℕ) → take (length (take k s)) s ≡ take k s
take-length-take zero s = refl
take-length-take (suc k) [] = refl
take-length-take (suc k) (c ∷ s) = ap (◌∷◌ c) (take-length-take k s)

pub record ServerWorld : Type 0 where
  pub stream : List ℕ
  pub stored : List ℕ → List ℕ
  pub current : List ℕ
  pub replies : List ℕ

abbrev pub put : List ℕ → List ℕ → ServerWorld → ServerWorld
put path bytes w = record w { stored = λ p. if str_eq p path then bytes else w.stored p }

abbrev pub server : ServerOs ServerWorld
server = record {
  send = λ bs w. (length bs, record w { replies = w.replies ++ bs });
  receive = λ n w. (take (min n 3) w.stream, record w { stream = drop (min n 3) w.stream });
  mkdir = λ path w. w;
  open_output = λ path w. (some 5, put path [] (record w { current = path }));
  write = λ fd bs w. (length bs, put w.current (w.stored w.current ++ bs) w);
  close = λ fd w. w;
}

abbrev pub server_view : View ServerWorld
server_view = record {
  incoming = λ w. w.stream;
  file = λ path w. w.stored path;
  path_of = λ fd w. w.current;
  replies = λ w. w.replies;
}

putting : (path bytes : List ℕ) (w : ServerWorld) → (put path bytes w).stored path ≡ bytes
putting path bytes w = ap (λ b. if b then bytes else w.stored path) (str_eq_refl path)

receiving : (n : ℕ) (s : List ℕ) → 0 < n → s ≢ [] → 0 < length (take (min n 3) s)
receiving n [] h more = absurd (more refl)
receiving n (c ∷ s) h more = omega (arith, length-take {0} (min n 3) (c ∷ s))

pub server-Healthy : Healthy server server_view
server-Healthy = record {
  receive_prefix = λ n w. take-append-drop (min n 3) w.stream;
  receive_at_most = λ n w. omega (arith, length-take {0} (min n 3) w.stream);
  receive_progress = λ n w h more. receiving n w.stream h more;
  receive_files = λ n w. record { files = λ p. refl; paths = λ fd. refl; same_replies = refl };
  open_some = λ path w. (5, refl, refl);
  open_empty = λ path w. putting path [] w;
  open_incoming = λ path w. refl;
  open_replies = λ path w. refl;
  write_all = λ fd bs w. refl;
  write_appends = λ fd bs w. putting w.current (w.stored w.current ++ bs) w;
  write_paths = λ fd fd' bs w. refl;
  write_incoming = λ fd bs w. refl;
  write_replies = λ fd bs w. refl;
  send_appends = λ bs w. refl;
  send_incoming = λ bs w. refl;
  send_files = λ bs path w. refl;
  mkdir_same = λ path w. record { same_files = SameFiles-refl; same_incoming = refl };
  close_same = λ fd w. record { same_files = SameFiles-refl; same_incoming = refl };
}

-- The client's world is what its connection has carried.
module _ (path content : List ℕ) where
  abbrev pub sendable : ℕ → ℕ → ℕ
  sendable offset count = min (min count 4) (length content - offset)

  abbrev pub client : ClientOs (List ℕ)
  client = record {
    connect = λ ip w. (true, w);
    send = λ bs w. (min 2 (length bs), w ++ take (min 2 (length bs)) bs);
    receive = λ n w. (take n (codes "Success"), w);
    open_input = λ p w. ((if str_eq p path then some 5 else none), w);
    fstat = λ fd w. (some (length content), w);
    send_file = λ fd offset count w.
        (sendable offset count, w ++ take (sendable offset count) (drop offset content));
    close = λ fd w. w;
  }

  pub client-Healthy : ClientHealthy client (λ w. w) path content
  client-Healthy = record {
    send_wire = λ bs w. refl;
    send_progress = λ bs w h. omega arith;
    send_at_most = λ bs w. omega arith;
    open_some = λ w. (5, ap (λ b. if b then some 5 else none) (str_eq_refl path));
    open_wire = λ w. refl;
    fstat_size = λ fd w. refl;
    fstat_wire = λ fd w. refl;
    send_file_wire = λ fd offset count w. refl;
    send_file_progress = λ fd offset count w h lt. omega arith;
    send_file_at_most = λ fd offset count w. omega arith;
    send_file_inside = λ fd offset count w. omega arith;
  }

-- A file that is read five bytes at a time.
module _ (content : List ℕ) where
  abbrev pub file_pread : ℕ → ℕ → List ℕ
  file_pread n p = take (min n 5) (drop p content)

  pub file_pread-ReadsFile : ReadsFile file_pread content
  file_pread-ReadsFile = record {
    prefix = λ n p. sym (take-length-take (min n 5) (drop p content));
    at_most = λ n p. omega (arith, length-take {0} (min n 5) (drop p content));
    progress = λ n p h lt.
        omega (arith, length-take {0} (min n 5) (drop p content), length-drop {0} p content);
  }

  -- The world is what the pipe has taken.
  abbrev pub compute : ComputeOs (List ℕ)
  compute = record {
    pipe = λ w. (some (record { read_end = 3; write_end = 4 }), w);
    spawn = λ arguments pipes w. (true, w);
    dup2 = λ a b w. (true, w);
    access = λ p w. (true, w);
    exec = λ p w. (true, w);
    wait_child = λ w. (exited 0, w);
    open_input = λ p w. (some 5, w);
    pread = λ file n p w. (file_pread n p, w);
    write = λ fd bs w. (min 3 (length bs), w ++ take (min 3 (length bs)) bs);
    read = λ fd n w. ([], w);
    close = λ fd w. w;
  }

  pub compute-PipeHealthy : PipeHealthy compute (λ w. w) 5 4 content
  compute-PipeHealthy = record {
    write_sent = λ bs w. refl;
    write_progress = λ bs w h. omega arith;
    write_at_most = λ bs w. omega arith;
    pread_sent = λ n p w. refl;
    pread_prefix = λ n p w. file_pread-ReadsFile.prefix n p;
    pread_at_most = λ n p w. file_pread-ReadsFile.at_most n p;
    pread_progress = λ n p w h lt. file_pread-ReadsFile.progress n p h lt;
  }
