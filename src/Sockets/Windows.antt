-- ===== src/Sockets/Windows.antt =====
-- The class `Socket` on Windows, where it does other calls: src/Sockets/windowsSockets.cpp. What
-- the code prints is left out.
pub mod Rest
use distributed_system_manag.Base.{
  ℕ, zero, suc, ◌+◌, Bool, Option, none, some, List, [], length, ◌==◌, if◌then◌else◌, ltb, ℤ, pos,
  negsuc, ◌+ℤ◌,
}
use distributed_system_manag.Node.{Prog, ◌>>=◌, ◌>>◌, guard, return}
use distributed_system_manag.Sockets.{SocketOs, Socket, call, inaddr_any}

-- `BUFFER_SIZE`
abbrev pub buffer_size : ℕ
buffer_size = 8192

module _ {W : Type 0} (os : SocketOs W) where
  -- A call whose result is not looked at.
  abbrev pub ignore : (W → ℤ × W) → Prog W (Unit {0})
  ignore c w = (some tt, (c w).1)

  -- `none`: the result is -1.
  unfoldable pub setup_socket : Socket → Prog W ℤ
  setup_socket s = do
    ignore (os.set_reuse_address s.sockfd)
    call os (os.bind s.sockfd (record { sin_addr = inaddr_any; sin_port = 8080 }))
    call os (os.listen s.sockfd 10)
    return s.sockfd

-- The other calls of `sendFile`: `_lseek`; `_read`, which gives `[]` for a result of 0 or less; and
-- `send`, which gives `none` for `SOCKET_ERROR`.
pub record FileOs (W : Type 0) : Type 0 where
  pub lseek : ℕ → ℕ → W → W
  pub read : ℕ → ℕ → W → List ℕ × W
  pub send : List ℕ → W → Option ℕ × W

module _ {W : Type 0} (os : FileOs W) where
  -- The loop, which lasts as long as the file gives bytes, with `total_sent` and the offset that it
  -- counts up: `none` after a failure, with the offset that is left. It is cut off after `rounds`.
  unfoldable pub send_from : (rounds filefd total_sent offset : ℕ) → W → (Option ℕ × ℕ) × W
  send_from zero filefd total_sent offset w = ((some total_sent, offset), w)
  send_from (suc rounds) filefd total_sent offset w =
      let (bytes, w1) = os.read filefd buffer_size w in
      let (result, w2) = os.send bytes w1 in
      let sent : ℕ = elim result [ none ↦ 0 | some n ↦ n ] in
      let rest = send_from rounds filefd (total_sent + sent) (offset + sent) w2 in
      if ltb 0 (length bytes)
      then elim result [ none ↦ ((none, offset), w2) | some _ ↦ rest ]
      else ((some total_sent, offset), w1)

  -- The result beside the offset. `chunk` is not used.
  unfoldable pub send_file : (rounds filefd offset chunk : ℕ) → W → (Option ℕ × ℕ) × W
  unfolding send_from
  send_file rounds filefd offset chunk w =
      send_from rounds filefd 0 offset (os.lseek filefd offset w)
