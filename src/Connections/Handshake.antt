-- ===== src/Connections/Handshake.antt =====
-- server/netserver.c: from the first packet of a client to the start of its play, and the timeouts.
use Prim.Native.String.{String}
use xpilot_fxi.Prelude.{
  ℕ, zero, Bool, true, false, none, some, List, [], ◌∷◌, ◌==◌, ◌&&◌, if◌then◌else◌, length,
}
use xpilot_fxi.Prelude.Int.{ℤ, pos, negsuc}
use xpilot_fxi.Prelude.Memory.{store}
use xpilot_fxi.Names.{fix_real_name}
use xpilot_fxi.Net.Format.{Arg, num, str}
use xpilot_fxi.Net.Sockbuf.{Sockbuf, clear}
use xpilot_fxi.Net.Print.{printf}
use xpilot_fxi.Connections.Server.{
  ConnState, listening, setup, drain, M, ◌>>=◌, ◌>>◌, pure, connection, put, change, set_state,
}
use xpilot_fxi.Connections.Reliable.{positive, send_reliable}
use xpilot_fxi.Connections.Acks.{pkt_reply, pkt_failure, pkt_success, scan_r, refuse}

abbrev pub pkt_verify : ℕ
pkt_verify = 1

abbrev pub pkt_magic : ℕ
pkt_magic = 41

-- `Packet_printf(&connp->c, …)`
unfoldable pub print_c : ℕ → List ℕ → List Arg → M ℤ
print_c i fmt args server =
    let conn = server.conns i in
    elim (printf false conn.c fmt args) [
      | none ↦ none
      | some (r, c') ↦ some (r, put i (record conn { c = c' }) server)
    ]

-- "%c%c%c"
abbrev pub reply_format : List ℕ
reply_format = b'%' ∷ b'c' ∷ b'%' ∷ b'c' ∷ b'%' ∷ b'c' ∷ []

abbrev pub is_minus_one : ℤ → Bool
is_minus_one (negsuc zero) = true
is_minus_one _ = false

-- `Send_reply`
unfoldable pub send_reply : ℕ → ℕ → ℕ → M ℤ
unfolding print_c refuse
send_reply i replyto result = do
  n ← print_c i reply_format (num pkt_reply ∷ num replyto ∷ num result ∷ [])
  if is_minus_one n then refuse i "write error" else pure n

-- What `DgramReceiveAny` brings: nothing yet, an error, or a packet of at least one byte.
pub data FirstPacket : Type 0 where
  nothing broken : FirstPacket
  packet : (port first : ℕ) → (rest : List ℕ) → FirstPacket

-- The client is told that it failed, and dropped.
unfoldable pub reject : ℕ → String → M ℤ
unfolding send_reply refuse
reject i reason = do send_reply i pkt_verify pkt_failure; send_reliable i; refuse i reason

-- `strcmp`
abbrev pub same_bytes : List ℕ → List ℕ → Bool
same_bytes [] [] = true
same_bytes (a ∷ xs) (b ∷ ys) = (a == b) && same_bytes xs ys
same_bytes _ _ = false

-- "%c%u"
abbrev pub magic_format : List ℕ
magic_format = b'%' ∷ b'c' ∷ b'%' ∷ b'u' ∷ []

-- The three steps of the confirmation, each made if those before it succeeded.
unfoldable pub send_magic : ℕ → M Bool
unfolding print_c
send_magic i = do
  conn ← connection i
  n ← print_c i magic_format (num pkt_magic ∷ num conn.magic ∷ [])
  if positive n then (do m ← send_reliable i; pure (positive m)) else pure false

unfoldable pub confirm : ℕ → M Bool
unfolding send_reply send_magic
confirm i = do
  n ← send_reply i pkt_verify pkt_success
  if is_minus_one n then pure false else send_magic i

-- What follows the comparison of the names.
unfoldable pub verified : ℕ → M ℤ
unfolding confirm refuse set_state clear
verified i = do
  change i (λ conn. record conn { w = clear conn.w })
  ok ← confirm i
  if ok then (do set_state i drain setup; pure (pos 1)) else refuse i "confirm failed"

-- "%c%s%s"
abbrev pub verify_format : List ℕ
verify_format = b'%' ∷ b'c' ∷ b'%' ∷ b's' ∷ b'%' ∷ b's' ∷ []

unfoldable pub verify_names : ℕ → List Arg → M ℤ
unfolding verified reject fix_real_name
verify_names i (num kind ∷ str real ∷ str nick ∷ []) = do
  conn ← connection i
  if same_bytes (fix_real_name real) conn.real then verified i else reject i "verify incorrect"
verify_names i _ = λ server. none

unfoldable pub verify : ℕ → M ℤ
unfolding verify_names reject scan_r
verify i = do
  conn ← connection i
  if conn.r.buf 0 == pkt_verify
      then (do
        (n, values) ← scan_r i verify_format
        if positive n then verify_names i values else reject i "verify incomplete")
      else reject i "not connecting"

-- `connp->r.len = n` after `Sockbuf_clear` and the read into `r.buf`.
unfoldable pub receive_first : List ℕ → Sockbuf → Sockbuf
unfolding clear
receive_first bytes r = record (clear r) { buf = store r.buf 0 bytes; len = length bytes }

-- `Handle_listening`; `connects` says whether one of the two calls of `DgramConnect` succeeds.
unfoldable pub answer_first : ℕ → Bool → FirstPacket → M ℤ
unfolding receive_first verify refuse clear
answer_first i connects nothing = do
  change i (λ conn. record conn { r = clear conn.r })
  pure (pos 0)
answer_first i connects broken = do
  change i (λ conn. record conn { r = clear conn.r })
  refuse i "read first packet error"
answer_first i connects (packet port first rest) = do
  change i (λ conn. record conn { r = receive_first (first ∷ rest) conn.r; his_port = port })
  if connects then verify i else refuse i "connect error"

abbrev pub is_listening : ConnState → Bool
is_listening listening = true
is_listening _ = false

unfoldable pub handle_listening : ℕ → Bool → FirstPacket → M ℤ
unfolding answer_first refuse
handle_listening i connects first = do
  conn ← connection i
  if is_listening conn.state then answer_first i connects first else refuse i "not listening"
