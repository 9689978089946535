-- ===== src/ShareFile/Receive/Confined.antt =====
-- Where `receive_file` can store a file, whatever the sender sends.
use distributed_system_manag.Base.{ℕ, ◌≢◌, List, All}
use distributed_system_manag.Node.{Node}

-- A name in a folder, not a path.
abbrev pub IsName : List ℕ → Type 0
IsName = All (λ c. c ≢ b'/')
