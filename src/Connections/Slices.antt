-- ===== src/Connections/Slices.antt =====
-- `Send_reliable` as a whole.
use xpilot_fxi.Prelude.{ℕ, ◌+◌, ◌≤◌, ◌≡◌, ◌⊎◌, true}
use xpilot_fxi.Prelude.Int.{ℤ, pos, minus_one}
use xpilot_fxi.Prelude.Memory.{load}
use xpilot_fxi.Connections.Server.{Connection, Server, is_free}
use xpilot_fxi.Connections.Sending.{Adds}
use xpilot_fxi.Connections.Stream.{Sends}

-- Either the connection is destroyed with -1, or the result counts bytes that were handed out, and the reliable
-- data is as before.
abbrev pub Final : Connection → ℕ → ℤ → Connection → Type 0
Final conn end r conn' =
    ((r ≡ minus_one) × (is_free conn'.state ≡ true))
    ⊎ ((n : ℕ) × (r ≡ pos n)
        × (conn.reliable_offset + n ≤ end)
        × (conn'.c ≡ conn.c)
        × (conn'.reliable_offset ≡ conn.reliable_offset))

module _ (S : ℕ → ℕ) (i : ℕ) where
  abbrev pub Delivered : Server → Connection → ℤ → Server → Type 0
  Delivered s conn r s' =
      Adds s
        (λ new.
          (end : ℕ) × Sends S conn.w.sock s.main_loops (load conn.w.buf 0 conn.w.len)
            conn.reliable_offset end new
          × Final conn end r (s'.conns i))
        s'
