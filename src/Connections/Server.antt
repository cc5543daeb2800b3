-- ===== src/Connections/Server.antt =====
-- server/netserver.c: the table of connections, and code on it. A function of the source that can
-- destroy a connection is code on the whole table, at the index of its connection.
use Prim.Native.String.{String}
use xpilot_fxi.Prelude.{
  ℕ, suc, Bool, true, false, Option, none, some, List, [], ◌∷◌, ◌++◌, if◌then◌else◌,
}
use xpilot_fxi.Prelude.Int.{ℤ, pos, ◌+ℤ◌, ◌-ℤ◌}
use xpilot_fxi.Prelude.Memory.{update}
use xpilot_fxi.Net.Sockbuf.{Sockbuf, Sent, Received, no_flags}

-- `CONN_FREE` and the other states.
pub data ConnState : Type 0 where
  free listening setup login playing drain ready : ConnState

-- `connection_t`. `pl` is the id of the player, `ship` stands for a parsed ship shape.
pub record Connection : Type 0 where
  pub cid : ℕ
  pub state : ConnState
  pub drain_state : ConnState
  pub magic : ℕ
  pub r : Sockbuf
  pub w : Sockbuf
  pub c : Sockbuf
  pub start : ℕ
  pub timeout : ℕ
  pub last_send_loops : ℕ
  pub reliable_offset : ℕ
  pub reliable_unsent : ℕ
  pub retransmit_at_loop : ℕ
  pub rtt_smoothed : ℕ
  pub rtt_dev : ℕ
  pub rtt_retransmit : ℕ
  pub rtt_timeouts : ℕ
  pub acks : ℕ
  pub setup_done : ℕ
  pub my_port : ℕ
  pub his_port : ℕ
  pub team : Option ℕ
  pub version : ℕ
  pub last_key_change : ℤ
  pub talk_sequence_num : ℤ
  pub num_keyboard_updates : ℕ
  pub view_width : ℕ
  pub view_height : ℕ
  pub debris_colors : ℕ
  pub spark_rand : ℕ
  pub real : List ℕ
  pub nick : List ℕ
  pub dpy : List ℕ
  pub ship : Option ℕ
  pub addr : List ℕ
  pub host : List ℕ
  pub pl : Option ℕ

abbrev pub no_sockbuf : Sockbuf
no_sockbuf = record {
  sock = 0;
  allocated = false;
  buf = λ _. 0;
  size = 0;
  len = 0;
  ptr = 0;
  state = no_flags;
}

-- What `memset` leaves.
abbrev pub blank : Connection
blank = record {
  cid = 0;
  state = free;
  drain_state = free;
  magic = 0;
  r = no_sockbuf;
  w = no_sockbuf;
  c = no_sockbuf;
  start = 0;
  timeout = 0;
  last_send_loops = 0;
  reliable_offset = 0;
  reliable_unsent = 0;
  retransmit_at_loop = 0;
  rtt_smoothed = 0;
  rtt_dev = 0;
  rtt_retransmit = 0;
  rtt_timeouts = 0;
  acks = 0;
  setup_done = 0;
  my_port = 0;
  his_port = 0;
  team = none;
  version = 0;
  last_key_change = pos 0;
  talk_sequence_num = pos 0;
  num_keyboard_updates = 0;
  view_width = 0;
  view_height = 0;
  debris_colors = 0;
  spark_rand = 0;
  ship = none;
  real = [];
  nick = [];
  dpy = [];
  addr = [];
  host = [];
  pl = none;
}

-- What the code hands to the kernel and to the rest of the server: a datagram for `send`, the quit
-- packet (which is written once more where that fails), the calls of `remove_input`, `install_input`
-- and `Player_remove`, and what handlers write into a player, by its id, or a fuel station: a setting
-- of a packet type, a turn, a frame rate, or the connection that has seen the station.
pub data Call : Type 0 where
  datagram : ℕ → List ℕ → Call
  goodbye : ℕ → String → Call
  remove_input install_input player_remove : ℕ → Call
  set_power : (pl kind : ℕ) → (value : ℤ) → Call
  turn : ℕ → ℤ → Call
  set_fps : (pl wanted : ℕ) → Call
  fuel_seen : (fuel cid : ℕ) → Call

-- `Conn`, the counters of `Conn_set_state` and other static variables. `incoming` and `outgoing`
-- are what `recv` and `send` will answer, `calls` what has been handed out, the latest last.
pub record Server : Type 0 where
  pub conns : ℕ → Connection
  pub num_conn_busy : ℤ
  pub num_conn_playing : ℤ
  pub login_in_progress : ℤ
  pub num_logins : ℕ
  pub num_logouts : ℕ
  pub main_loops : ℕ
  pub fps : ℕ
  pub incoming : List Received
  pub outgoing : List Sent
  pub calls : List Call

-- Code on the table. `none` is a call of the kernel that does not return, undefined behaviour, or a
-- loop that has no rounds left.
abbrev pub M : Type 0 → Type 0
M Result = (server : Server) → Option (Result × Server)

abbrev pub resume : {A B : Type 0} → (A → M B) → Option (A × Server) → Option (B × Server)
resume next none = none
resume next (some (result, server)) = next result server

infixl 5 ◌>>=◌ ◌>>◌
abbrev pub ◌>>=◌ : {A B : Type 0} → M A → (A → M B) → M B
◌>>=◌ code next server = resume next (code server)

abbrev pub ◌>>◌ : {A B : Type 0} → M A → M B → M B
◌>>◌ code next server = resume (λ ignored. next) (code server)

abbrev pub pure : {A : Type 0} → A → M A
pure result server = some (result, server)

-- The connection `i`, and a change of it.
abbrev pub connection : ℕ → M Connection
connection i server = some (server.conns i, server)

abbrev pub put : ℕ → Connection → Server → Server
put i conn server = record server { conns = update server.conns i conn }

abbrev pub change : ℕ → (Connection → Connection) → M (Unit {0})
change i f server = some (tt, put i (f (server.conns i)) server)

abbrev pub call : Call → M (Unit {0})
call what server = some (tt, record server { calls = server.calls ++ (what ∷ []) })

-- `state & (CONN_PLAYING | CONN_READY)`
abbrev pub in_game : ConnState → Bool
in_game playing = true
in_game ready = true
in_game _ = false

abbrev pub is_free : ConnState → Bool
is_free free = true
is_free _ = false

-- The timeouts in seconds, as `Conn_set_state` picks them; `none` keeps the old one.
abbrev pub timeout_of : ConnState → Option ℕ
timeout_of playing = some 30
timeout_of ready = some 40
timeout_of login = some 40
timeout_of setup = some 15
timeout_of listening = some 4
timeout_of free = some 30
timeout_of drain = none

abbrev pub get_or_keep : ℕ → Option ℕ → ℕ
get_or_keep old none = old
get_or_keep old (some new) = new

abbrev pub one_if : Bool → ℤ
one_if b = if b then pos 1 else pos 0

-- `Conn_set_state`: the counters go down or up by the old state, then by the new one.
abbrev pub moved : ℕ → ConnState → ConnState → Server → Server
moved i state drain_state server =
    let conn = server.conns i in
    let busy = server.num_conn_busy +ℤ one_if (is_free conn.state) -ℤ one_if (is_free state) in
    let games = server.num_conn_playing -ℤ one_if (in_game conn.state) +ℤ one_if (in_game state) in
    record (put i
      (record conn {
        state = state;
        drain_state = drain_state;
        start = server.main_loops;
        timeout = get_or_keep conn.timeout (timeout_of state);
      })
      server) { num_conn_busy = busy; num_conn_playing = games; login_in_progress = busy -ℤ games }

unfoldable pub set_state : ℕ → ConnState → ConnState → M (Unit {0})
set_state i state drain_state server = some (tt, moved i state drain_state server)

-- `Player_remove`, where the connection is tied to a player.
abbrev pub leave_game : Option ℕ → M (Unit {0})
leave_game none = pure tt
leave_game (some pl) = call (player_remove pl)

abbrev pub count_logout : M (Unit {0})
count_logout server = some (tt, record server { num_logouts = suc server.num_logouts })

-- `Destroy_connection`
unfoldable pub destroy_busy : ℕ → String → M (Unit {0})
unfolding set_state
destroy_busy i reason = do
  conn ← connection i
  call (remove_input conn.w.sock)
  call (goodbye conn.w.sock reason)
  set_state i free free
  leave_game conn.pl
  change i (λ _. blank)
  count_logout
  call (goodbye conn.w.sock reason)

unfoldable pub destroy : ℕ → String → M (Unit {0})
unfolding destroy_busy
destroy i reason server =
    if is_free (server.conns i).state then some (tt, server) else destroy_busy i reason server
