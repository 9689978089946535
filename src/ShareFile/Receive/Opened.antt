-- ===== src/ShareFile/Receive/Opened.antt =====
-- The folders that `receive_file` makes and the file that it opens.
use distributed_system_manag.Base.{
  ℕ, ◌<◌, ◌≡◌, refl, ◌∙◌, Bool, some, List, [], ◌∷◌, ◌++◌, length, take, take_of_le, arith, ◌==◌,
  true, false, if◌then◌else◌, codes, c_str, has_substring,
}
use distributed_system_manag.Node.{ServerOs, Node}
use distributed_system_manag.ShareFile.Healthy.{
  View, Healthy, SameView, SameFiles-refl, SameFiles-trans,
}
use distributed_system_manag.ShareFile.Receive.{
  base_name, create_dirs_from, create_dirs_of, create_dirs, open_file, open_outpath,
}
use distributed_system_manag.ShareFile.Receive.Header.{Fits}

-- Where a file is stored.
abbrev pub out_path : List ℕ → List ℕ → List ℕ
out_path folder filename = (codes "received_files/" ++ folder) ++ b'/' ∷ base_name filename

-- What `receive_file` asks of the two names: lengths from 1 to 255, no NUL, no ".." in the folder,
-- and a path below 128 bytes.
pub record IsAdmitted (folder filename : List ℕ) : Type 0 where
  pub folder_fits : Fits folder
  pub filename_fits : Fits filename
  pub folder_text : c_str folder ≡ folder
  pub filename_text : c_str filename ≡ filename
  pub inside : has_substring folder (codes "..") ≡ false
  pub short_path : length (out_path folder filename) < 128

module _ {W : Type 0} (os : ServerOs W) (v : View W) (healthy : Healthy os v) where
  SameView-refl : {w : W} → SameView v w w
  SameView-refl = record { same_files = SameFiles-refl; same_incoming = refl }

  SameView-trans : {a b c : W} → SameView v a b → SameView v b c → SameView v a c
  SameView-trans s t = record {
    same_files = SameFiles-trans s.same_files t.same_files;
    same_incoming = t.same_incoming ∙ s.same_incoming;
  }

  create_dirs_from-SameView :
      (before rest : List ℕ) (w : W) → SameView v w (create_dirs_from os before rest w)
  unfolding create_dirs_from
  create_dirs_from-SameView before [] w = healthy.mkdir_same before w
  create_dirs_from-SameView before (c ∷ s) w =
      SameView-trans (made (c == b'/')) (create_dirs_from-SameView (before ++ c ∷ []) s _)
    where
      made : (b : Bool) → SameView v w (if b then os.mkdir before w else w)
      made true = healthy.mkdir_same before w
      made false = SameView-refl

  create_dirs_of-SameView : (path : List ℕ) (w : W) → SameView v w (create_dirs_of os path w)
  unfolding create_dirs_of
  create_dirs_of-SameView [] w = healthy.mkdir_same [] w
  create_dirs_of-SameView (c ∷ s) w = create_dirs_from-SameView (c ∷ []) s w

  create_dirs-SameView : (path : List ℕ) (w : W) → SameView v w (create_dirs os path w)
  unfolding create_dirs
  create_dirs-SameView path w = create_dirs_of-SameView (take 511 (c_str path)) w

  -- The file is open and empty; the stream and the replies are as they were.
  pub record Opened (folder filename : List ℕ) (n : Node W) : Type 0 where
    pub fd : ℕ
    pub after : W
    pub result :
        open_outpath os folder filename n
        ≡ (some fd, record n { world = after; shared_outpath = out_path folder filename })
    pub path : v.path_of fd after ≡ out_path folder filename
    pub empty : v.file (out_path folder filename) after ≡ []
    pub stream : v.incoming after ≡ v.incoming n.world
    pub silent : v.replies after ≡ v.replies n.world

  open_outpath-eq :
      (folder filename : List ℕ) (n : Node W) {fd : ℕ}
      → has_substring folder (codes "..") ≡ false
      → length (out_path folder filename) < 128
      → take 511 (codes "received_files/" ++ folder) ≡ codes "received_files/" ++ folder
      → take 127 (out_path folder filename) ≡ out_path folder filename
      → (os.open_output (out_path folder filename) (
          create_dirs os
            (codes "received_files/" ++ folder)
            (os.mkdir (codes "received_files") n.world))).0
        ≡ some fd
      → open_outpath os folder filename n ≡ (
        some fd,
        record n {
          world =
              (os.open_output (out_path folder filename) (
                create_dirs os
                  (codes "received_files/" ++ folder)
                  (os.mkdir (codes "received_files") n.world))).1;
          shared_outpath = out_path folder filename;
        },
      )
  unfolding open_outpath open_file
  open_outpath-eq folder filename n inside short whole_path whole_outpath opened = ground arith

  pub open_outpath_lem :
      (folder filename : List ℕ) (n : Node W)
      → IsAdmitted folder filename
      → Opened folder filename n
  open_outpath_lem folder filename n ok = record {
    fd = opened.0;
    after = (os.open_output outpath made).1;
    result =
        open_outpath-eq folder filename n ok.inside ok.short_path whole_path whole_outpath opened.1;
    path = opened.2;
    empty = healthy.open_empty outpath made;
    stream = healthy.open_incoming outpath made ∙ same.same_incoming;
    silent = healthy.open_replies outpath made ∙ same.same_files.same_replies;
  }
    where
      outpath : List ℕ
      outpath = out_path folder filename

      made : W
      made =
          create_dirs os (codes "received_files/" ++ folder)
            (os.mkdir (codes "received_files") n.world)

      opened :
          (fd : ℕ) × ((os.open_output outpath made).0 ≡ some fd)
          × (v.path_of fd (os.open_output outpath made).1 ≡ outpath)
      opened = healthy.open_some outpath made

      same : SameView v n.world made
      same =
          SameView-trans (healthy.mkdir_same (codes "received_files") n.world)
            (create_dirs-SameView (codes "received_files/" ++ folder) _)

      whole_path : take 511 (codes "received_files/" ++ folder) ≡ codes "received_files/" ++ folder
      whole_path = take_of_le 511 _ (omega (arith, ok.folder_fits.1))

      whole_outpath : take 127 outpath ≡ outpath
      whole_outpath = take_of_le 127 outpath (omega (arith, ok.short_path))
