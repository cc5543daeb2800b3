-- ===== src/Net/Recv.antt =====
-- common/net.c: `Sockbuf_read` and `Sockbuf_copy`.
use xpilot_fxi.Prelude.{
  ℕ, ◌+◌, ◌-◌, Option, none, some, List, [], ◌∷◌, ltb, leb, if◌then◌else◌, length, take,
}
use xpilot_fxi.Prelude.Int.{ℤ, pos, minus_one}
use xpilot_fxi.Prelude.Memory.{store, load}
use xpilot_fxi.Net.Sockbuf.{
  Sockbuf, Received, received, would_block, interrupted, failed, advance, max_sockbuf_retries,
}

-- `recv` stores at most `max` bytes behind those in the buffer.
unfoldable pub absorb : Sockbuf → ℕ → List ℕ → Sockbuf
absorb s max bytes = record s {
  buf = store s.buf s.len (take max bytes);
  len = s.len + length (take max bytes);
}

abbrev pub Read : Type 0
Read = Option (ℤ × Sockbuf × List Received)

-- The loop of `Sockbuf_read` on a datagram socket, after `i` failures.
unfoldable pub read_dgram : Sockbuf → ℕ → ℕ → List Received → Read
unfolding absorb
read_dgram s max i [] = none
read_dgram s max i (received [] ∷ rest) = some (pos 0, s, rest)
read_dgram s max i (received (b ∷ bs) ∷ rest) =
    let s' = absorb s max (b ∷ bs) in some (pos s'.len, s', rest)
read_dgram s max i (would_block ∷ rest) = some (pos 0, s, rest)
read_dgram s max i (interrupted ∷ rest) = read_dgram s max i rest
read_dgram s max i (failed broken ∷ rest) =
    let again = read_dgram s max (i + 1) rest in
    if ltb max_sockbuf_retries (i + 1)
    then some (minus_one, s, rest)
    else if broken
    then some (minus_one, s, rest)
    else again

-- Its loop on a stream socket.
unfoldable pub read_stream : Sockbuf → ℕ → List Received → Read
unfolding absorb
read_stream s max [] = none
read_stream s max (received [] ∷ rest) = some (pos 0, s, rest)
read_stream s max (received (b ∷ bs) ∷ rest) =
    let s' = absorb s max (b ∷ bs) in some (pos s'.len, s', rest)
read_stream s max (would_block ∷ rest) = some (pos 0, s, rest)
read_stream s max (interrupted ∷ rest) = read_stream s max rest
read_stream s max (failed broken ∷ rest) = some (minus_one, s, rest)

-- `Sockbuf_read` drops what has been scanned before it asks for more.
unfoldable pub compact : Sockbuf → Sockbuf
unfolding advance
compact s = if ltb 0 s.ptr then advance s (pos s.ptr) else s

unfoldable pub read_room : Sockbuf → List Received → Read
unfolding read_dgram read_stream
read_room s io =
    if leb s.size s.len
    then some (minus_one, s, io)
    else if s.state.dgram
    then read_dgram s (s.size - s.len) 0 io
    else read_stream s (s.size - s.len) io

unfoldable pub read : Sockbuf → List Received → Read
unfolding read_room compact
read s io =
    if s.state.read
    then if s.state.lock then some (pos 0, s, io) else read_room (compact s) io
    else some (minus_one, s, io)

-- `Sockbuf_copy`: both guards as the source has them, the first without its subtraction.
unfoldable pub copy : (dest src : Sockbuf) → ℕ → ℤ × Sockbuf
copy dest src n =
    if ltb (dest.len + n) dest.size
    then (minus_one, dest)
    else if ltb n src.len
    then (minus_one, dest)
    else (
      pos n,
      record dest { buf = store dest.buf dest.len (load src.buf 0 n); len = dest.len + n },
    )
