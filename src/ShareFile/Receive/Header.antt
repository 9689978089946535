-- ===== src/ShareFile/Receive/Header.antt =====
-- The header of a transfer, read from a stream that holds it.
use distributed_system_manag.Base.{
  ℕ, ◌^◌, ◌<◌, ◌≡◌, refl, some, List, length, arith, ◌==◌, leb, true, not, ◌||◌,
}
use distributed_system_manag.Node.{ServerOs, Node}
use distributed_system_manag.ShareFile.Wire.{
  to_bytes, of_bytes, transfer, length-to_bytes, of_bytes-to_bytes,
}
use distributed_system_manag.ShareFile.Healthy.{View, Healthy, SameFiles, SameFiles-trans}
use distributed_system_manag.ShareFile.Receive.{recv_all, receive_header}
use distributed_system_manag.ShareFile.Receive.All.{recv_all_lem}

-- The names' lengths that the receiver admits.
abbrev pub Fits : List ℕ → Type 0
Fits name = (0 < length name) × (length name < 256)

pub length_admitted : (k : ℕ) → 0 < k → k < 256 → not (k == 0 || leb 256 k) ≡ true
length_admitted k lo hi = ground arith

pub of_length : (k : ℕ) → k < 256 → of_bytes (to_bytes 4 k) ≡ k
of_length k h = of_bytes-to_bytes 4 k (omega arith)

receive_header-eq :
    {W : Type 0} (os : ServerOs W) (folder filename : List ℕ) (size : ℕ) (n : Node W)
    (w1 w2 w3 w4 w5 : W)
    → Fits folder
    → Fits filename
    → size < 2 ^ 64
    → recv_all os 4 n ≡ (some (to_bytes 4 (length folder)), record n { world = w1 })
    → recv_all os (length folder) (record n { world = w1 }) ≡ (some folder, record n { world = w2 })
    → recv_all os 4 (record n { world = w2 })
      ≡ (some (to_bytes 4 (length filename)), record n { world = w3 })
    → recv_all os (length filename) (record n { world = w3 })
      ≡ (some filename, record n { world = w4 })
    → recv_all os 8 (record n { world = w4 }) ≡ (some (to_bytes 8 size), record n { world = w5 })
    → receive_header os n ≡ (some (folder, filename, size), record n { world = w5 })
unfolding receive_header
receive_header-eq os folder filename size n w1 w2 w3 w4 w5 (flo, fhi) (nlo, nhi) small e1 e2 e3 e4
      e5 =
    ground (
      arith,
      of_length (length folder) fhi,
      of_length (length filename) nhi,
      of_bytes-to_bytes 8 size small,
    )

module _ {W : Type 0} (os : ServerOs W) (v : View W) (healthy : Healthy os v) where
  pub receive_header_lem :
      (folder filename : List ℕ) (size : ℕ) (rest : List ℕ) (n : Node W)
      → Fits folder
      → Fits filename
      → size < 2 ^ 64
      → v.incoming n.world ≡ transfer folder filename (to_bytes 8 size) rest
      → (w' : W) × (receive_header os n ≡ (some (folder, filename, size), record n { world = w' }))
        × (v.incoming w' ≡ rest)
        × SameFiles v n.world w'
  unfolding receive_header
  receive_header_lem folder filename size rest n fits_folder fits_name small stream =
      let (w1, e1, s1, f1) =
        recv_all_lem os v healthy 4 n (to_bytes 4 (length folder)) _ (length-to_bytes 4 _) stream in
      let (w2, e2, s2, f2) =
        recv_all_lem os v healthy (length folder) (record n { world = w1 }) folder _ refl s1 in
      let (w3, e3, s3, f3) =
        recv_all_lem os v healthy 4 (record n { world = w2 }) (to_bytes 4 (length filename)) _
          (length-to_bytes 4 _) s2 in
      let (w4, e4, s4, f4) =
        recv_all_lem os v healthy (length filename) (record n { world = w3 }) filename _ refl s3 in
      let (w5, e5, s5, f5) =
        recv_all_lem os v healthy 8 (record n { world = w4 }) (to_bytes 8 size) rest
          (length-to_bytes 8 size) s4 in
      (
        w5,
        receive_header-eq os folder filename size n w1 w2 w3 w4 w5 fits_folder fits_name small e1 e2
            e3 e4 e5,
        s5,
        SameFiles-trans f1 (SameFiles-trans f2 (SameFiles-trans f3 (SameFiles-trans f4 f5))),
      )
