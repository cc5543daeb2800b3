-- ===== src/Connections/Bursts.antt =====
-- server/netserver.c: `Send_debris`, `Send_fastshot` and `Send_fastradar`, which write their packets
-- straight into the buffer of a frame.
use xpilot_fxi.Prelude.{
  ℕ, ◌+◌, ◌-◌, ◌*◌, ◌/◌, ◌%◌, Option, none, some, List, [], ◌∷◌, ◌++◌, ltb, leb, if◌then◌else◌,
  length,
}
use xpilot_fxi.Prelude.Int.{ℤ, pos}
use xpilot_fxi.Prelude.Memory.{store, load}
use xpilot_fxi.Net.Print.{write_spare}
use xpilot_fxi.Net.Sockbuf.{Sockbuf}
use xpilot_fxi.Connections.Server.{M, put}
use xpilot_fxi.Connections.Types.{pkt_debris, pkt_fastshot, pkt_fastradar}

-- The number of points of `unit` bytes, of `n`, that go into `avail` bytes; `none` ends the function
-- with 0.
unfoldable pub fitting : (unit avail n : ℕ) → Option ℕ
fitting unit avail n =
    if leb avail (n * unit)
    then if ltb unit avail then some ((avail - (unit - 1)) / unit) else none
    else some n

-- `w->size - w->len - SOCKBUF_WRITE_SPARE - reserve`, which is not read where it is negative.
abbrev pub available : Sockbuf → ℕ → ℕ
available w reserve = w.size - w.len - write_spare - reserve

abbrev pub add_bytes : List ℕ → Sockbuf → Sockbuf
add_bytes bytes w = record w { buf = store w.buf w.len bytes; len = w.len + length bytes }

abbrev pub debris_header : ℕ → ℕ → List ℕ
debris_header kind n = (pkt_debris + kind) % 256 ∷ n ∷ []

abbrev pub fastshot_header : ℕ → ℕ → List ℕ
fastshot_header kind n = pkt_fastshot ∷ kind % 256 ∷ n ∷ []

abbrev pub fastradar_header : ℕ → List ℕ
fastradar_header n = pkt_fastradar ∷ n ∷ []

module _ (i : ℕ) where
  -- `n` points at `p` go behind a header that tells their number; `answer` makes the result.
  unfoldable pub put_points : (unit : ℕ) → (ℕ → List ℕ) → (ℕ → ℕ) → (ℕ → ℕ) → Option ℕ → M ℤ
  put_points unit header answer p none server = some (pos 0, server)
  put_points unit header answer p (some n) server =
      let conn = server.conns i in
      some (
        pos (answer n),
        put i (record conn { w = add_bytes (header n ++ load p 0 (n * unit)) conn.w }) server,
      )

  unfoldable pub send_points : (unit reserve : ℕ) → (ℕ → List ℕ) → (ℕ → ℕ) → (ℕ → ℕ) → ℕ → M ℤ
  unfolding put_points fitting
  send_points unit reserve header answer p n server =
      if leb 256 n
      then some (pos 0, server)
      else put_points unit header answer p (fitting unit (available (server.conns i).w reserve) n)
          server

  -- `Send_debris`
  unfoldable pub send_debris : ℕ → (ℕ → ℕ) → ℕ → M ℤ
  unfolding send_points
  send_debris kind p n = send_points 2 2 (debris_header kind) (λ m. m) p n

  -- `Send_fastshot`
  unfoldable pub send_fastshot : ℕ → (ℕ → ℕ) → ℕ → M ℤ
  unfolding send_points
  send_fastshot kind p n = send_points 2 3 (fastshot_header kind) (λ m. m) p n

  -- `Send_fastradar`
  unfoldable pub send_fastradar : (ℕ → ℕ) → ℕ → M ℤ
  unfolding send_points
  send_fastradar p n = send_points 3 3 fastradar_header (λ m. 2 + m * 3) p n
