-- ===== src/Net/Sockbuf.antt =====
-- common/net.c: the operations on a socket buffer but for reads and packets. The pointers `buf` and
-- `ptr` are one memory and an offset into it. Lengths and offsets are never negative here, so of the
-- consistency checks of `Sockbuf_advance` the two for negative values are void. The kernel's answers
-- come as a list; `none` is a call that still waits when the list ends.
use xpilot_fxi.Prelude.{
  ℕ, zero, suc, ◌+◌, ◌-◌, Bool, true, false, Option, none, some, List, [], ◌∷◌, ltb, leb, ◌==◌,
  ◌||◌, if◌then◌else◌, length,
}
use xpilot_fxi.Prelude.Int.{ℤ, pos, negsuc, minus_one}
use xpilot_fxi.Prelude.Memory.{store, slide}

-- The bits of `sbuf->state`.
pub record Flags : Type 0 where
  pub read : Bool
  pub write : Bool
  pub lock : Bool
  pub error : Bool
  pub dgram : Bool

abbrev pub no_flags : Flags
no_flags = record { read = false; write = false; lock = false; error = false; dgram = false }

-- `sockbuf_t`; `allocated` is `buf != NULL`.
pub record Sockbuf : Type 0 where
  pub sock : ℕ
  pub allocated : Bool
  pub buf : ℕ → ℕ
  pub size : ℕ
  pub len : ℕ
  pub ptr : ℕ
  pub state : Flags

abbrev pub max_sockbuf_retries : ℕ
max_sockbuf_retries = 2

-- What one call of `send` or `recv` answers: bytes moved, an `errno` that means try later, `EINTR`,
-- or another error, with what `GetSocketError` then finds (`true` for its -1).
pub data Sent : Type 0 where
  sent : ℕ → Sent
  would_block : Sent
  interrupted : Sent
  failed : Bool → Sent

pub data Received : Type 0 where
  received : List ℕ → Received
  would_block : Received
  interrupted : Received
  failed : Bool → Received

-- `malloc` gives memory with any contents, or `none`.
unfoldable pub init : Option (ℕ → ℕ) → ℕ → ℕ → Flags → Sockbuf → ℤ × Sockbuf
init none sock size state s = (minus_one, record s { allocated = false; ptr = 0 })
init (some m) sock size state s = (
  pos 0,
  record { sock = sock; allocated = true; buf = m; size = size; len = 0; ptr = 0; state = state },
)

pub cleanup : Sockbuf → ℤ × Sockbuf
cleanup s = (pos 0, record s { allocated = false; ptr = 0; size = 0; len = 0; state = no_flags })

unfoldable pub clear : Sockbuf → Sockbuf
clear s = record s { len = 0; ptr = 0 }

-- The checks at the head of `Sockbuf_advance`.
unfoldable pub repair_ptr : Sockbuf → Sockbuf
repair_ptr s = if ltb s.len s.ptr then record s { ptr = s.len } else s

unfoldable pub repair_len : Sockbuf → Sockbuf
repair_len s = if ltb s.size s.len then record s { len = s.size } else s

unfoldable pub drop_front : ℕ → Sockbuf → Sockbuf
drop_front n s = record s {
  buf = slide s.buf n (s.len - n);
  len = s.len - n;
  ptr = if leb s.ptr n then 0 else s.ptr - n;
}

unfoldable pub advance_by : ℕ → Sockbuf → Sockbuf
unfolding drop_front
advance_by n s =
    if n == 0 then s else if leb s.len n then record s { len = 0; ptr = 0 } else drop_front n s

-- `Sockbuf_advance`, which always returns 0. A negative length only reports an error.
unfoldable pub advance : Sockbuf → ℤ → Sockbuf
unfolding repair_ptr repair_len advance_by
advance s (pos n) = advance_by n (repair_len (repair_ptr s))
advance s (negsuc n) = repair_len (repair_ptr s)

-- The loop of `Sockbuf_flush` on a datagram socket, after `i` failures.
unfoldable pub flush_dgram : Sockbuf → ℕ → List Sent → Option (ℤ × Sockbuf × List Sent)
unfolding clear
flush_dgram s i [] = none
flush_dgram s i (sent zero ∷ rest) = some (pos 0, clear s, rest)
flush_dgram s i (sent (suc n) ∷ rest) = some (pos (suc n), clear s, rest)
flush_dgram s i (would_block ∷ rest) = some (pos 0, clear s, rest)
flush_dgram s i (interrupted ∷ rest) = flush_dgram s i rest
flush_dgram s i (failed broken ∷ rest) =
    let again = flush_dgram s (i + 1) rest in
    if ltb max_sockbuf_retries (i + 1)
    then some (minus_one, clear s, rest)
    else if broken
    then some (minus_one, s, rest)
    else again

-- Its loop on a stream socket. `errno` was set to 0, so an answer of 0 bytes counts as an error.
unfoldable pub flush_stream : Sockbuf → List Sent → Option (ℤ × Sockbuf × List Sent)
unfolding advance
flush_stream s [] = none
flush_stream s (sent zero ∷ rest) = some (minus_one, s, rest)
flush_stream s (sent (suc n) ∷ rest) = some (pos (suc n), advance s (pos (suc n)), rest)
flush_stream s (would_block ∷ rest) = some (pos 0, s, rest)
flush_stream s (interrupted ∷ rest) = flush_stream s rest
flush_stream s (failed broken ∷ rest) = some (minus_one, s, rest)

unfoldable pub flush : Sockbuf → List Sent → Option (ℤ × Sockbuf × List Sent)
unfolding flush_dgram flush_stream
flush s io =
    if s.state.write
    then if s.state.lock
      then some (minus_one, s, io)
      else if s.len == 0
      then some (pos 0, s, io)
      else if s.state.dgram
      then flush_dgram s 0 io
      else flush_stream s io
    else some (minus_one, s, io)

-- `memcpy(sbuf->buf + sbuf->len, buf, len)`, where there is room.
unfoldable pub append : Sockbuf → List ℕ → ℤ × Sockbuf
append s bytes =
    (pos (length bytes), record s { buf = store s.buf s.len bytes; len = s.len + length bytes })

-- `Sockbuf_write` after its flush.
unfoldable pub write_flushed : List ℕ → ℤ × Sockbuf × List Sent → ℤ × Sockbuf × List Sent
unfolding append
write_flushed bytes (negsuc zero, s, io) = (minus_one, s, io)
write_flushed bytes (_, s, io) =
    let (r, s') = append s bytes in
    if ltb s.size (s.len + length bytes) then (pos 0, s, io) else (r, s', io)

-- `sbuf->size - sbuf->len < len` is written without the subtraction.
unfoldable pub write : Sockbuf → List ℕ → List Sent → Option (ℤ × Sockbuf × List Sent)
unfolding append write_flushed flush
write s bytes io =
    let (r, s') = append s bytes in
    if s.state.write
    then if ltb s.size (s.len + length bytes)
      then if s.state.lock || s.state.dgram
        then some (minus_one, s, io)
        else elim (flush s io) [ none ↦ none | some f ↦ some (write_flushed bytes f) ]
      else some (r, s', io)
    else some (minus_one, s, io)
