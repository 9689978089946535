-- ===== src/Server/Handlers/Closing/OutPath.antt =====
-- The file that `receive_file` opens is not the connection.
use distributed_system_manag.Base.{
  ℕ, length, ◌++◌, ltb, take, c_str, codes, ap, not, has_substring, ◌≡◌, ◌≢◌, refl, ◌∙◌, Bool, true,
  false, Option, none, some, List, [], ◌∷◌, ◌==◌, if◌then◌else◌,
}
use distributed_system_manag.Node.{ServerOs, Node, Prog, guard, modify, outside, ◌>>=◌}
use distributed_system_manag.ShareFile.Receive.{
  base_name, open_file, open_outpath, create_dirs_from, create_dirs_of, create_dirs,
}
use distributed_system_manag.Server.Handlers.Closing.{
  CountsCloses, KeepsOpen, then-KeepsOpen, guard-KeepsOpen, outside-KeepsOpen, modify-KeepsOpen,
}

module _ {W : Type 0} (os : ServerOs W) (sock : ℕ) (count : W → ℕ)
    (counts : CountsCloses os sock count) where
  create_dirs_from-count :
      (before rest : List ℕ) (w : W) → count (create_dirs_from os before rest w) ≡ count w
  unfolding create_dirs_from
  create_dirs_from-count before [] w = counts.mkdir_same before w
  create_dirs_from-count before (c ∷ s) w =
      create_dirs_from-count (before ++ c ∷ []) s _ ∙ made (c == b'/')
    where
      made : (b : Bool) → count (if b then os.mkdir before w else w) ≡ count w
      made true = counts.mkdir_same before w
      made false = refl

  create_dirs-count : (path : List ℕ) (w : W) → count (create_dirs os path w) ≡ count w
  unfolding create_dirs create_dirs_of
  create_dirs-count path w = go (take 511 (c_str path))
    where
      go : (p : List ℕ) → count (create_dirs_of os p w) ≡ count w
      go [] = counts.mkdir_same [] w
      go (c ∷ s) = create_dirs_from-count (c ∷ []) s w

  open_file-KeepsOpen : (path : List ℕ) → KeepsOpen count (open_file os path)
  unfolding open_file KeepsOpen
  open_file-KeepsOpen path n = counts.open_same path n.world

  -- The steps of `open_outpath` before the last.
  abbrev path_of : List ℕ → List ℕ → List ℕ
  path_of folder filename =
      take 511 (codes "received_files/" ++ folder) ++ b'/' ∷ base_name filename

  abbrev make_base : Prog (Node W) (Unit {0})
  make_base = modify (outside (os.mkdir (codes "received_files")))

  abbrev is_inside : List ℕ → Prog (Node W) (Unit {0})
  is_inside folder = guard (not (has_substring folder (codes "..")))

  abbrev make_folder : List ℕ → Prog (Node W) (Unit {0})
  make_folder folder =
      modify (outside (create_dirs os (take 511 (codes "received_files/" ++ folder))))

  abbrev keep_path : List ℕ → List ℕ → Prog (Node W) (Unit {0})
  keep_path folder filename =
      modify (λ n. record n { shared_outpath = take 127 (path_of folder filename) })

  abbrev is_short : List ℕ → List ℕ → Prog (Node W) (Unit {0})
  is_short folder filename = guard (ltb (length (path_of folder filename)) 128)

  open_outpath-KeepsOpen :
      (folder filename : List ℕ) → KeepsOpen count (open_outpath os folder filename)
  unfolding open_outpath
  open_outpath-KeepsOpen folder filename =
      then-KeepsOpen count make_base _
        (outside-KeepsOpen count (os.mkdir (codes "received_files")) (counts.mkdir_same _))
        (λ _.
          then-KeepsOpen count (is_inside folder) _
            (guard-KeepsOpen count (not (has_substring folder (codes ".."))))
            (λ _.
              then-KeepsOpen count (make_folder folder) _
                (outside-KeepsOpen count
                  (create_dirs os (take 511 (codes "received_files/" ++ folder)))
                  (create_dirs-count _))
                (λ _.
                  then-KeepsOpen count (keep_path folder filename) _
                    (modify-KeepsOpen count
                      (λ n. record n { shared_outpath = take 127 (path_of folder filename) })
                      (λ n. refl))
                    (λ _.
                      then-KeepsOpen count (is_short folder filename) _
                        (guard-KeepsOpen count (ltb (length (path_of folder filename)) 128))
                        (λ _. open_file-KeepsOpen (path_of folder filename))))))

  -- A program does not give the connection's descriptor.
  GivesOther : Prog (Node W) ℕ → Type 0
  GivesOther m = (n : Node W) → (m n).0 ≢ some sock

  then-GivesOther :
      {A : Type 0} (m : Prog (Node W) A) (f : A → Prog (Node W) ℕ)
      → ((a : A) → GivesOther (f a))
      → GivesOther (m >>= f)
  unfolding GivesOther
  then-GivesOther {A} m f next n = go (m n)
    where
      go :
          (r : Option A × Node W)
          → (elim r.0 as (λ x. Option ℕ × Node W) [ none ↦ (none, r.1) | some a ↦ f a r.1 ]).0
            ≢ some sock
      go (none, n') e = cc e
      go (some a, n') e = next a n' e

  open_file-GivesOther : (path : List ℕ) → GivesOther (open_file os path)
  unfolding open_file GivesOther
  open_file-GivesOther path n e = counts.open_apart path n.world e

  open_outpath-GivesOther :
      (folder filename : List ℕ) → GivesOther (open_outpath os folder filename)
  unfolding open_outpath
  open_outpath-GivesOther folder filename = then-GivesOther make_base _ (λ _.
      then-GivesOther (is_inside folder) _ (λ _. then-GivesOther (make_folder folder) _ (λ _.
        then-GivesOther (keep_path folder filename) _ (λ _.
          then-GivesOther (is_short folder filename) _
            (λ _. open_file-GivesOther (path_of folder filename))))))

  given-KeepsOpen :
      (m : Prog (Node W) ℕ) (f : ℕ → Prog (Node W) (Unit {0}))
      → KeepsOpen count m
      → GivesOther m
      → ((fd : ℕ) → fd ≢ sock → KeepsOpen count (f fd))
      → KeepsOpen count (m >>= f)
  unfolding KeepsOpen GivesOther
  given-KeepsOpen m f first other next n = go (m n) (first n) (other n)
    where
      go :
          (r : Option ℕ × Node W)
          → count r.1.world ≡ count n.world
          → r.0 ≢ some sock
          → count
              (elim r.0 as (λ x. Option (Unit {0}) × Node W) [
                | none ↦ (none, r.1)
                | some a ↦ f a r.1
              ]).1.world
            ≡ count n.world
      go (none, n') e apart = e
      go (some fd, n') e apart = next fd (λ same. apart (ap some same)) n' ∙ e

  -- After a file has been opened.
  pub opened-KeepsOpen :
      (folder filename : List ℕ) (f : ℕ → Prog (Node W) (Unit {0}))
      → ((fd : ℕ) → fd ≢ sock → KeepsOpen count (f fd))
      → KeepsOpen count (open_outpath os folder filename >>= f)
  opened-KeepsOpen folder filename f next =
      given-KeepsOpen (open_outpath os folder filename) f (open_outpath-KeepsOpen folder filename)
        (open_outpath-GivesOther folder filename) next
