-- ===== src/Connections/Commands.antt =====
-- server/netserver.c: the handlers of settings, `Receive_power` to `Receive_audio_request`.
use Prim.Native.String.{String}
use xpilot_fxi.Prelude.{
  ℕ, suc, ◌+◌, Bool, true, false, none, some, List, [], ◌∷◌, ◌++◌, ltb, leb, ◌==◌, ◌&&◌,
  if◌then◌else◌,
}
use xpilot_fxi.Prelude.Int.{ℤ, pos, negsuc, signed16}
use xpilot_fxi.Net.Format.{Arg, num, str}
use xpilot_fxi.Connections.Server.{
  ConnState, playing, Connection, M, ◌>>=◌, ◌>>◌, pure, change, call, set_power, turn, set_fps,
}
use xpilot_fxi.Connections.Reliable.{positive}
use xpilot_fxi.Connections.Acks.{scan_r, refuse}
use xpilot_fxi.Connections.Handshake.{is_minus_one}

-- `if ((n = Packet_scanf(&connp->r, fmt, …)) <= 0) { if (n == -1) { Destroy_connection(…); } return n; }`
unfoldable pub after_scan : ℕ → String → (List Arg → M ℤ) → ℤ × List Arg → M ℤ
unfolding refuse
after_scan i reason rest (n, values) =
    if positive n then rest values else if is_minus_one n then refuse i reason else pure n

unfoldable pub scan_then : ℕ → List ℕ → String → (List Arg → M ℤ) → M ℤ
unfolding after_scan scan_r
scan_then i fmt reason rest = scan_r i fmt >>= after_scan i reason rest

-- The values that a format stores, in order; others cannot come.
unfoldable pub a_num : (ℕ → List Arg → M ℤ) → List Arg → M ℤ
a_num rest (num v ∷ values) = rest v values
a_num rest _ = λ server. none

unfoldable pub a_str : (List ℕ → List Arg → M ℤ) → List Arg → M ℤ
a_str rest (str v ∷ values) = rest v values
a_str rest _ = λ server. none

unfoldable pub the_end : M ℤ → List Arg → M ℤ
the_end rest [] = rest
the_end rest _ = λ server. none

abbrev pub f_char : List ℕ
f_char = b'%' ∷ b'c' ∷ []

abbrev pub f_short : List ℕ
f_short = b'%' ∷ b'h' ∷ b'd' ∷ []

abbrev pub f_ushort : List ℕ
f_ushort = b'%' ∷ b'h' ∷ b'u' ∷ []

abbrev pub f_long : List ℕ
f_long = b'%' ∷ b'l' ∷ b'd' ∷ []

abbrev pub f_string : List ℕ
f_string = b'%' ∷ b's' ∷ []

abbrev pub f_big_string : List ℕ
f_big_string = b'%' ∷ b'S' ∷ []

-- The player of a connection; without one, a null pointer is followed.
unfoldable pub with_player : ℕ → (ℕ → M ℤ) → M ℤ
with_player i rest server = elim (server.conns i).pl [ none ↦ none | some pl ↦ rest pl server ]

-- `PKT_POWER` to `PKT_TURNRESISTANCE_S`
abbrev pub is_power : ℕ → Bool
is_power kind = leb 34 kind && leb kind 39

-- The value is a number of 256ths. `pl` is only followed in the cases of the switch.
unfoldable pub store_power : ℕ → ℕ → ℕ → M ℤ
unfolding with_player refuse
store_power i kind value =
    if is_power kind
    then with_player i (λ pl. do call (set_power pl kind (signed16 value)); pure (pos 1))
    else refuse i "not power"

-- `Receive_power`
unfoldable pub receive_power : ℕ → M ℤ
unfolding scan_then store_power a_num the_end
receive_power i =
    scan_then i (f_char ++ f_short) "read error"
      (a_num (λ kind. a_num (λ value. the_end (store_power i kind value))))

-- `LIMIT(val, MIN_VIEW_SIZE, MAX_VIEW_SIZE)`
unfoldable pub limit_view : ℤ → ℕ
limit_view (negsuc n) = 384
limit_view (pos n) = if ltb 1024 n then 1024 else if ltb n 384 then 384 else n

unfoldable pub set_display : ℕ → ℕ → ℕ → ℕ → Connection → Connection
unfolding limit_view
set_display width height debris_colors spark_rand conn = record conn {
  view_width = limit_view (signed16 width);
  view_height = limit_view (signed16 height);
  debris_colors = debris_colors;
  spark_rand = spark_rand;
}

-- `Receive_display`
unfoldable pub receive_display : ℕ → M ℤ
unfolding scan_then set_display a_num the_end
receive_display i = scan_then i (f_char ++ f_short ++ f_short ++ f_char ++ f_char) "read error" (
    a_num (λ kind. a_num (λ width. a_num (λ height. a_num (λ debris_colors. a_num (λ spark_rand.
      the_end (do change i (set_display width height debris_colors spark_rand); pure (pos 1))))))))

-- `Receive_modifier_bank`
unfoldable pub receive_modifier_bank : ℕ → M ℤ
unfolding scan_then
receive_modifier_bank i =
    scan_then i (f_char ++ f_char ++ f_string) "read modbank" (λ values. pure (pos 1))

-- `Receive_motd`
unfoldable pub receive_motd : ℕ → M ℤ
unfolding scan_then
receive_motd i = scan_then i (f_char ++ f_long ++ f_long) "read error" (λ values. pure (pos 1))

-- `Receive_audio_request`
unfoldable pub receive_audio_request : ℕ → M ℤ
unfolding scan_then
receive_audio_request i = scan_then i (f_char ++ f_char) "read error" (λ values. pure (pos 1))

abbrev pub wanted_fps : ℕ → ℕ
wanted_fps wanted = if wanted == 0 then 1 else if wanted == 20 then 254 else wanted

unfoldable pub request_fps : ℕ → ℕ → M ℤ
request_fps i wanted server = elim (server.conns i).pl [
  | none ↦ some (pos 1, server)
  | some pl ↦ (do call (set_fps pl (wanted_fps wanted)); pure (pos 1)) server
]

-- `Receive_fps_request`
unfoldable pub receive_fps_request : ℕ → M ℤ
unfolding scan_then request_fps a_num the_end
receive_fps_request i =
    scan_then i (f_char ++ f_char) "read error"
      (a_num (λ kind. a_num (λ wanted. the_end (request_fps i wanted))))

-- `Receive_pointer_move`; the turn in floating point is left to the call.
unfoldable pub receive_pointer_move : ℕ → M ℤ
unfolding scan_then a_num the_end with_player
receive_pointer_move i = scan_then i (f_char ++ f_short) "read error" (
    a_num (λ kind. a_num (λ movement.
      the_end (with_player i (λ pl. do call (turn pl (signed16 movement)); pure (pos 1))))))

abbrev pub pkt_talk_ack : ℕ
pkt_talk_ack = 52

abbrev pub keyboard_size : ℕ
keyboard_size = 9

abbrev pub skip_keys : Connection → Connection
skip_keys conn = record conn { r = record conn.r { ptr = conn.r.ptr + keyboard_size } }

-- A second keyboard in a packet of a player that plays is not accepted.
abbrev pub is_macro : ℕ → ConnState → Bool
is_macro (suc before) playing = true
is_macro _ _ = false
