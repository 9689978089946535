-- ===== src/Server/Compute/Parts.antt =====
-- What the server's loop computes over.
use distributed_system_manag.Base.{ℕ, ◌≡◌, Option, some, List, [], ◌∷◌, ℤ}
use distributed_system_manag.Distribute.Chunks.{Chunk}
use distributed_system_manag.Distribute.Chunks.Tiling.{Tiles}
use distributed_system_manag.Distribute.Run.{combine}
use distributed_system_manag.Server.Compute.{process}

-- One call after another gives these values.
pub data Computes {W : Type 0} (compute : ℕ → ℤ → W → Option ℤ × W)
    : List Chunk → List ℤ → W → W → Type 0 where
  computed : {w : W} → Computes compute [] [] w w
  call :
      {c : Chunk} {chunks : List Chunk} {value : ℤ} {values : List ℤ} {w w1 w2 : W}
      → compute c.offset c.size w ≡ (some value, w1)
      → Computes compute chunks values w1 w2
      → Computes compute (c ∷ chunks) (value ∷ values) w w2

-- The loop's parts, from `offset` to the file's size, and their values.
pub record Processed {W : Type 0} (compute : ℕ → ℤ → W → Option ℤ × W) (size offset final : ℕ)
    (processed : List ℕ) (w : W) : Type 0 where
  pub parts : List Chunk
  pub values : List ℤ
  pub after : W
  pub tiles : Tiles offset size parts
  pub computes : Computes compute parts values w after
  pub result : process compute size processed offset final w ≡ (some (combine final values), after)
