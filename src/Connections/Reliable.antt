-- ===== src/Connections/Reliable.antt =====
-- server/netserver.c: `Send_reliable`.
use xpilot_fxi.Prelude.{
  ℕ, zero, suc, ◌+◌, ◌-◌, ◌*◌, ◌/◌, Bool, true, false, Option, none, some, List, [], ◌∷◌, min, ltb,
  leb, ◌==◌, ◌||◌, ◌&&◌, if◌then◌else◌,
}
use xpilot_fxi.Prelude.Int.{ℤ, pos, negsuc, minus_one}
use xpilot_fxi.Prelude.Memory.{load}
use xpilot_fxi.Net.Format.{Arg, num}
use xpilot_fxi.Net.Sockbuf.{Sent, sent, would_block, interrupted, failed, clear, flush, write}
use xpilot_fxi.Net.Print.{printf}
use xpilot_fxi.Connections.Server.{
  Connection, M, ◌>>=◌, ◌>>◌, pure, connection, put, change, call, datagram, destroy,
}

abbrev pub max_reliable_data_packet_size : ℕ
max_reliable_data_packet_size = 1024

abbrev pub pkt_reliable : ℕ
pkt_reliable = 42

-- "%c%hd%ld%ld"
abbrev pub reliable_format : List ℕ
reliable_format = b'%' ∷ b'c' ∷ b'%' ∷ b'h' ∷ b'd' ∷ b'%' ∷ b'l' ∷ b'd' ∷ b'%' ∷ b'l' ∷ b'd' ∷ []

-- `Packet_printf(&connp->w, …)` outside the end of a frame.
unfoldable pub print_w : ℕ → List ℕ → List Arg → M ℤ
print_w i fmt args server =
    let conn = server.conns i in
    elim (printf false conn.w fmt args) [
      | none ↦ none
      | some (r, w') ↦ some (r, put i (record conn { w = w' }) server)
    ]

-- `Sockbuf_write(&connp->w, …)`
unfoldable pub write_w : ℕ → List ℕ → M ℤ
write_w i bytes server =
    let conn = server.conns i in
    elim (write conn.w bytes server.outgoing) [
      | none ↦ none
      | some (r, w', io) ↦
          some (r, record (put i (record conn { w = w' }) server) { outgoing = io })
    ]

-- Whether `errno` asks to try later when the loop of `Sockbuf_flush` has ended with 0: the answer
-- that ended it is that.
abbrev pub try_later : List Sent → Bool
try_later [] = false
try_later (sent n ∷ rest) = false
try_later (would_block ∷ rest) = true
try_later (interrupted ∷ rest) = try_later rest
try_later (failed b ∷ rest) = try_later rest

-- `Sockbuf_flush(&connp->w)`, with `errno`. What is in the buffer goes to `send`.
unfoldable pub flush_w : ℕ → M (ℤ × Bool)
flush_w i server =
    let conn = server.conns i in
    let w = conn.w in
    elim (flush w server.outgoing) [
      | none ↦ none
      | some (r, w', io) ↦
          (do call (datagram w.sock (load w.buf 0 w.len)); pure (r, try_later server.outgoing))
            (record (put i (record conn { w = w' }) server) { outgoing = io })
    ]

abbrev pub positive : ℤ → Bool
positive (pos (suc n)) = true
positive _ = false

abbrev pub is_ℕ : ℤ → ℕ → Bool
is_ℕ (pos k) n = k == n
is_ℕ (negsuc k) n = false

-- What a round of the loop comes to: the connection is gone, the loop ends by `break`, or it goes on.
pub data Round : Type 0 where
  gone blocked next : Round

-- After the flush of a packet with `len` bytes of data, which answered `n`.
unfoldable pub after_flush : ℕ → ℕ → ℤ × Bool → M Round
after_flush i len (pos n, later) =
    if leb len n
    then pure next
    else if (n == 0) && later
    then (do change i (λ conn. record conn { acks = 0 }); pure blocked)
    else (do destroy i "flush error"; pure gone)
after_flush i len (negsuc n, later) = do destroy i "flush error"; pure gone

unfoldable pub write_error : ℕ → M Round
write_error i = do destroy i "write error"; pure gone

unfoldable pub after_write : ℕ → ℕ → ℤ → M Round
unfolding after_flush write_error flush_w
after_write i len n = if is_ℕ n len then flush_w i >>= after_flush i len else write_error i

unfoldable pub after_header : ℕ → ℕ → ℕ → ℤ → M Round
unfolding after_write write_error write_w
after_header i len at n =
    if positive n
    then (do conn ← connection i; m ← write_w i (load conn.c.buf at len); after_write i len m)
    else write_error i

abbrev pub header : ℕ → ℕ → ℕ → List Arg
header len rel_off loops = num pkt_reliable ∷ num len ∷ num rel_off ∷ num loops ∷ []

-- One packet with the `len` bytes at `at` of the reliable data.
unfoldable pub send_packet : ℕ → ℕ → ℕ → ℕ → M Round
unfolding after_header print_w
send_packet i len rel_off at server =
    (print_w i reliable_format (header len rel_off server.main_loops) >>= after_header i len at)
      server

-- The loop, with the rounds left: `i <= connp->acks` fails after `acks + 1` rounds, and `acks` only
-- changes where the loop ends. The result is `todo`, or `none` where the connection is gone.
unfoldable pub send_loop : ℕ → ℕ → ℕ → ℕ → ℕ → M (Option ℕ)
unfolding send_packet
send_loop i zero todo rel_off at = pure (some todo)
send_loop i (suc rounds) zero rel_off at = pure (some 0)
send_loop i (suc rounds) (suc t) rel_off at =
    let len = min (suc t) max_reliable_data_packet_size in
    let rest = send_loop i rounds (suc t - len) (rel_off + len) (at + len) in
    send_packet i len rel_off at
    >>= (λ what. elim what [ gone ↦ pure none | blocked ↦ pure (some (suc t)) | next ↦ rest ])

abbrev pub max_retransmit : ℕ → ℕ
max_retransmit fps = fps + 1

-- The retransmission timer, after something was sent.
unfoldable pub set_timer : ℕ → ℕ → Connection → Connection
set_timer fps loops conn =
    let rtt = min conn.rtt_retransmit (max_retransmit fps) in
    if leb conn.retransmit_at_loop loops
    then record conn {
      retransmit_at_loop = loops + rtt;
      rtt_retransmit = rtt * 2;
      rtt_timeouts = conn.rtt_timeouts + 1;
    }
    else record conn { retransmit_at_loop = loops + rtt; rtt_retransmit = rtt }

unfoldable pub mark_sent : ℕ → Connection → Connection
mark_sent rel_off conn = record conn {
  reliable_unsent = if ltb conn.reliable_unsent rel_off then rel_off else conn.reliable_unsent;
}

-- What follows the loop; `rel_off` is where it began.
unfoldable pub after_loop : ℕ → ℕ → ℕ → Option ℕ → M ℤ
unfolding set_timer mark_sent
after_loop i max_todo rel_off none server = some (minus_one, server)
after_loop i max_todo rel_off (some todo) server =
    let conn = server.conns i in
    let quiet = record conn { w = clear conn.w; last_send_loops = server.main_loops } in
    let timed = set_timer server.fps server.main_loops quiet in
    if leb max_todo todo
    then some (pos 0, put i quiet server)
    else some (pos (max_todo - todo), put i (mark_sent (rel_off + (max_todo - todo)) timed) server)

unfoldable pub transmit : ℕ → ℕ → M ℤ
unfolding send_loop after_loop
transmit i max_todo server =
    let conn = server.conns i in
    (send_loop i (conn.acks + 1) max_todo conn.reliable_offset 0
        >>= after_loop i max_todo conn.reliable_offset)
      server

-- How much fits behind a frame update; `none` where the frame is too big already.
unfoldable pub room_behind : Connection → Option ℕ
room_behind conn =
    if conn.w.len == 0
    then some conn.c.len
    else if leb max_reliable_data_packet_size (conn.w.len + 1)
    then none
    else some (min conn.c.len (max_reliable_data_packet_size - conn.w.len))

-- `max_todo <= reliable_unsent - reliable_offset + min_send_size || w.len == 0`, the difference
-- being that of integers.
unfoldable pub nothing_new : ℕ → Connection → Bool
nothing_new max_todo conn =
    leb (max_todo + conn.reliable_offset) (conn.reliable_unsent + 1) || (conn.w.len == 0)

-- The retransmission timer is looked at before anything is sent.
unfoldable pub when_due : ℕ → ℕ → M ℤ
unfolding nothing_new transmit
when_due i max_todo server =
    let conn = server.conns i in
    if ltb server.main_loops conn.retransmit_at_loop
    then if nothing_new max_todo conn then some (pos 0, server) else transmit i max_todo server
    else if conn.retransmit_at_loop == 0
    then transmit i max_todo server
    else transmit i max_todo (put i (record conn { acks = conn.acks / 2 }) server)

-- `Send_reliable`
unfoldable pub send_reliable : ℕ → M ℤ
unfolding room_behind when_due
send_reliable i server =
    let conn = server.conns i in
    if (conn.c.len == 0) || (conn.last_send_loops == server.main_loops)
    then some (pos 0, put i (record conn { last_send_loops = server.main_loops }) server)
    else elim (room_behind conn) [
      | none ↦ some (pos 0, server)
      | some max_todo ↦ when_due i max_todo server
    ]
