-- ===== src/Connections/Acks.antt =====
-- server/netserver.c: `Receive_ack`. Differences of times and offsets are those of integers; where
-- they leave the range of `int32_t` the source has no defined behaviour.
use Prim.Native.String.{String}
use xpilot_fxi.Prelude.{
  ℕ, ◌+◌, ◌-◌, ◌*◌, ◌/◌, Bool, true, false, none, some, List, [], ◌∷◌, ltb, leb, ◌==◌, ◌&&◌, ◌||◌,
  not, if◌then◌else◌,
}
use xpilot_fxi.Prelude.Int.{ℤ, pos, negsuc, minus_one, pos_part, ◌-ℤ◌, ltb_ℤ, signed32}
use xpilot_fxi.Net.Format.{Arg, num}
use xpilot_fxi.Net.Sockbuf.{advance}
use xpilot_fxi.Net.Scan.{scanf}
use xpilot_fxi.Connections.Server.{
  ConnState, drain, ready, Connection, M, ◌>>=◌, ◌>>◌, pure, put, change, set_state, destroy,
}
use xpilot_fxi.Connections.Reliable.{positive}

abbrev pub pkt_reply : ℕ
pkt_reply = 2

abbrev pub pkt_play : ℕ
pkt_play = 3

abbrev pub pkt_ack : ℕ
pkt_ack = 43

abbrev pub pkt_failure : ℕ
pkt_failure = 101

abbrev pub pkt_success : ℕ
pkt_success = 102

-- `Packet_scanf(&connp->r, …)`
unfoldable pub scan_r : ℕ → List ℕ → M (ℤ × List Arg)
scan_r i fmt server =
    let conn = server.conns i in
    elim (scanf conn.r fmt server.incoming) [
      | none ↦ none
      | some t ↦ some (
        (t.result, t.out),
        record (put i (record conn { r = t.sbuf }) server) { incoming = t.io },
      )
    ]

-- The handler fails, and the connection is gone.
unfoldable pub refuse : ℕ → String → M ℤ
refuse i reason = do destroy i reason; pure minus_one

abbrev pub max_rtt : ℕ → ℕ
max_rtt fps = fps + 1

abbrev pub min_retransmit : ℕ → ℕ
min_retransmit fps = fps / 8 + 1

-- `|a - b|`
abbrev pub gap : ℕ → ℕ → ℕ
gap a b = a - b + (b - a)

-- The estimates after a round trip of `rtt`, with `smoothed` what the estimator holds or begins
-- with. Each error is the new value less a fraction of the old, so no sum is negative.
unfoldable pub estimate : ℕ → ℕ → ℕ → Connection → Connection
estimate fps rtt smoothed conn =
    let smoothed' = smoothed + rtt - smoothed / 8 in
    let dev = conn.rtt_dev + gap rtt (smoothed / 8) - conn.rtt_dev / 4 in
    let retransmit = (smoothed' / 4 + dev) / 2 in
    record conn {
      rtt_smoothed = smoothed';
      rtt_dev = dev;
      rtt_retransmit =
          if ltb retransmit (min_retransmit fps) then min_retransmit fps else retransmit;
    }

unfoldable pub update_rtt : ℕ → ℤ → Connection → Connection
unfolding estimate
update_rtt fps (negsuc n) conn = conn
update_rtt fps (pos rtt) conn =
    if (rtt == 0) || ltb (max_rtt fps) rtt
    then conn
    else estimate fps rtt (if conn.rtt_smoothed == 0 then rtt * 8 else conn.rtt_smoothed) conn

-- `diff` bytes are acknowledged.
unfoldable pub drop_acked : ℕ → Connection → Connection
drop_acked diff conn =
    let n = (diff + 512 - 1) / 512 in
    record conn {
      c = advance conn.c (pos diff);
      reliable_offset = conn.reliable_offset + diff;
      acks = if ltb conn.acks n then n else conn.acks + 1;
    }

abbrev pub is_draining : ConnState → Bool
is_draining drain = true
is_draining _ = false

abbrev pub is_ready : ConnState → Bool
is_ready ready = true
is_ready _ = false

-- The next reliable packet is a reply that belongs to the login.
abbrev pub is_reply : ℕ → Bool
is_reply b = (b == pkt_reply) || (b == pkt_play) || (b == pkt_success) || (b == pkt_failure)

unfoldable pub all_acked : ℕ → M (Unit {0})
unfolding set_state
all_acked i server =
    let conn = server.conns i in
    let calm = put i (record conn { retransmit_at_loop = 0 }) server in
    if leb conn.reliable_unsent conn.reliable_offset
    then if is_draining conn.state
      then set_state i conn.drain_state conn.drain_state calm
      else some (tt, calm)
    else some (tt, server)

unfoldable pub replies_acked : ℕ → M (Unit {0})
unfolding set_state
replies_acked i server =
    let conn = server.conns i in
    if is_ready conn.state && ((conn.c.len == 0) || not (is_reply (conn.c.buf 0)))
    then set_state i conn.drain_state conn.drain_state server
    else some (tt, server)

unfoldable pub accept : ℕ → ℕ → M ℤ
unfolding drop_acked all_acked replies_acked
accept i diff = do
  change i (drop_acked diff)
  all_acked i
  replies_acked i
  change i (λ conn. record conn { rtt_timeouts = 0 })
  pure (pos 1)

-- The part of `Receive_ack` that looks at `diff`.
unfoldable pub acknowledge : ℕ → ℤ → M ℤ
unfolding accept refuse
acknowledge i rel server =
    let conn = server.conns i in
    let diff = rel -ℤ pos conn.reliable_offset in
    if ltb_ℤ (pos conn.c.len) diff
    then refuse i "bad ack" server
    else if ltb_ℤ (pos 0) diff
    then accept i (pos_part diff) server
    else some (pos 1, server)

-- "%c%ld%ld"
abbrev pub ack_format : List ℕ
ack_format = b'%' ∷ b'c' ∷ b'%' ∷ b'l' ∷ b'd' ∷ b'%' ∷ b'l' ∷ b'd' ∷ []

unfoldable pub ack_values : ℕ → List Arg → M ℤ
unfolding update_rtt acknowledge refuse
ack_values i (num ch ∷ num rel ∷ num rel_loops ∷ []) server =
    let rtt = pos server.main_loops -ℤ signed32 rel_loops in
    if ch == pkt_ack
    then (do change i (update_rtt server.fps rtt); acknowledge i (signed32 rel)) server
    else refuse i "not ack" server
ack_values i _ server = none

-- `Receive_ack`
unfoldable pub receive_ack : ℕ → M ℤ
unfolding scan_r ack_values refuse
receive_ack i = do
  (n, values) ← scan_r i ack_format
  if positive n then ack_values i values else refuse i "read error"
