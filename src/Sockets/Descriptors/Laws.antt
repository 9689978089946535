-- ===== src/Sockets/Descriptors/Laws.antt =====
-- Whether a handler that has not closed its descriptor yet still owns it.
use distributed_system_manag.Base.{ℕ, suc, ◌≡◌, ◌≢◌, refl, none, some, arith}
use distributed_system_manag.Server.Listener.{ServerCommand}
use distributed_system_manag.Sockets.Descriptors.{
  Stage, waiting, serving, closes, Table, accept, close, initial, Reach, here, next,
}

-- A connection that is served has its own descriptor, to be closed once.
IsOwned : Table → Type 0
IsOwned s = (c fd k : ℕ) → s.stage c ≡ Stage.serving fd (suc k) → (s.owner fd ≡ some c) × (k ≡ 0)

abbrev stage_fd : Stage → ℕ
stage_fd waiting = 0
stage_fd (serving fd k) = fd

abbrev stage_closes : Stage → ℕ
stage_closes waiting = 0
stage_closes (serving fd k) = k

-- A handler that closes its socket twice can close the descriptor of another connection: for any two
-- connections of which the first asks for such a command, there is an interleaving after which the
-- second's handler has yet to close its descriptor, and that is closed already.
pub Reach-closed :
    (commands : ℕ → ServerCommand) (c d fd k : ℕ)
    → d ≢ c
    → closes (commands c) ≡ 2
    → closes (commands d) ≡ suc k
    → (s : Table) × Reach commands initial s
      × (s.stage d ≡ Stage.serving fd (suc k))
      × (s.owner fd ≡ none)
Reach-closed commands c d fd k apart twice more =
    let first = next here (accept c fd refl refl) in
    let closed = next first (close c fd 1 (ground (arith, twice))) in
    let second = next closed (accept d fd (ground (arith, apart)) (ground arith)) in
    let again = next second (close c fd 0 (ground (arith, apart))) in
    (_, again, ground (arith, apart, more), ground arith)
