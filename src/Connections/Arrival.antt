-- ===== src/Connections/Arrival.antt =====
-- server/netserver.c: `Setup_connection`, which makes a connection for a client that was let in.
use xpilot_fxi.Prelude.{
  ℕ, zero, suc, ◌+◌, ◌*◌, ◌/◌, ◌%◌, ◌^◌, Bool, true, false, Option, none, some, List, ◌==◌, ◌&&◌,
  if◌then◌else◌,
}
use xpilot_fxi.Prelude.Int.{ℤ, pos, minus_one}
use xpilot_fxi.Strings.Compare.{strcasecmp}
use xpilot_fxi.Net.Sockbuf.{Flags, no_flags, init}
use xpilot_fxi.Connections.Server.{
  free, listening, Connection, M, ◌>>◌, pure, change, set_state, destroy, is_free, call,
  install_input,
}
use xpilot_fxi.Connections.Reliable.{is_ℕ}
use xpilot_fxi.Connections.Handshake.{same_bytes, is_listening}

-- The arguments of `Setup_connection`.
pub record Applicant : Type 0 where
  pub real : List ℕ
  pub nick : List ℕ
  pub dpy : List ℕ
  pub addr : List ℕ
  pub host : List ℕ
  pub team : Option ℕ
  pub version : ℕ

-- What the kernel answers: a socket that can be used, with its port, or none; the memory for the
-- three buffers, or none; whether the strings could be copied; and the answer of `rand`.
pub record Resources : Type 0 where
  pub socket : Option (ℕ × ℕ)
  pub buffer_w : Option (ℕ → ℕ)
  pub buffer_r : Option (ℕ → ℕ)
  pub buffer_c : Option (ℕ → ℕ)
  pub copies : Bool
  pub rand : ℕ

-- What the loop over the connections finds: a place, if there is one, or a connection with the same
-- nick, which is that of the same client, with its port, or not.
pub data Found : Type 0 where
  place : Option ℕ → Found
  known : ℕ → Found
  in_use : Found

abbrev pub or_first : Option ℕ → ℕ → Option ℕ
or_first none i = some i
or_first (some k) i = some k

abbrev pub same_client : Connection → Applicant → Bool
same_client conn who =
    is_listening conn.state
    && same_bytes who.real conn.real
    && same_bytes who.dpy conn.dpy
    && (who.version == conn.version)

abbrev pub same_nick : List ℕ → List ℕ → Bool
same_nick a b = is_ℕ (strcasecmp a b) 0

-- The loop, with the rounds left.
unfoldable pub find_place : (ℕ → Connection) → Applicant → ℕ → ℕ → Option ℕ → Found
find_place conns who i zero found = place found
find_place conns who i (suc k) found =
    let conn = conns i in
    let rest =
      find_place conns who (i + 1) k (if is_free conn.state then or_first found i else found) in
    if is_free conn.state
    then rest
    else if same_nick conn.nick who.nick
    then if same_client conn who then known conn.my_port else in_use
    else rest

abbrev pub server_recv_size : ℕ
server_recv_size = 1024

abbrev pub max_sockbuf_size : ℕ
max_sockbuf_size = 50 * 1024

abbrev pub write_flags : Flags
write_flags = record no_flags { write = true; dgram = true }

abbrev pub read_flags : Flags
read_flags = record no_flags { read = true; dgram = true }

abbrev pub reliable_flags : Flags
reliable_flags = record no_flags { write = true; read = true; lock = true }

-- The new values of a connection. The sum that makes the magic number is taken to stay in range. `c` has no socket, which its `sock` of -1 says in the source.
unfoldable pub fill_in : Applicant → Resources → ℕ → ℕ → ℕ → ℕ → ℕ → ℕ → Connection → Connection
unfolding init
fill_in who got fps loops sock port cid team conn = record conn {
  w = (init got.buffer_w sock 4096 write_flags conn.w).1;
  r = (init got.buffer_r sock server_recv_size read_flags conn.r).1;
  c = (init got.buffer_c 0 max_sockbuf_size reliable_flags conn.c).1;
  my_port = port;
  real = who.real;
  nick = who.nick;
  dpy = who.dpy;
  addr = who.addr;
  host = who.host;
  team = some team;
  version = who.version;
  start = loops;
  magic = (got.rand + port + sock + team + loops) % 2 ^ 32;
  pl = none;
  ship = none;
  view_width = 768;
  view_height = 768;
  debris_colors = 0;
  spark_rand = 85;
  timeout = 4;
  last_key_change = pos 0;
  reliable_offset = 0;
  reliable_unsent = 0;
  last_send_loops = 0;
  retransmit_at_loop = 0;
  rtt_retransmit = fps / 2;
  rtt_smoothed = 0;
  rtt_dev = 0;
  rtt_timeouts = 0;
  acks = 0;
  setup_done = 0;
  cid = cid;
}

abbrev pub is_some : Option (ℕ → ℕ) → Bool
is_some none = false
is_some (some m) = true

abbrev pub enough : Resources → Bool
enough got = is_some got.buffer_w && is_some got.buffer_r && is_some got.buffer_c && got.copies

unfoldable pub listen : Applicant → Resources → ℕ → ℕ → ℕ → ℕ → M ℤ
unfolding fill_in set_state
listen who got sock port i team server =
    (do
      change i (fill_in who got server.fps server.main_loops sock port i team)
      set_state i listening free
      if enough got
          then (do call (install_input sock); pure (pos port))
          else (do destroy i "no memory"; pure minus_one))
      server

-- The magic number needs the number of the team, so without a team a null pointer is followed; the
-- caller in contact.c passes one.
unfoldable pub start_listening : Applicant → Resources → ℕ → ℕ → ℕ → M ℤ
unfolding listen
start_listening who got sock port i = elim who.team [
  | none ↦ λ server. none
  | some team ↦ listen who got sock port i team
]

unfoldable pub take_place : Applicant → Resources → Found → M ℤ
unfolding start_listening
take_place who got (known port) server = some (pos port, server)
take_place who got in_use server = some (minus_one, server)
take_place who got (place none) server = some (minus_one, server)
take_place who got (place (some i)) server = elim got.socket [
  | none ↦ some (minus_one, server)
  | some (sock, port) ↦ start_listening who got sock port i server
]

-- `Setup_connection`
unfoldable pub setup_connection : ℕ → Applicant → Resources → M ℤ
unfolding find_place take_place
setup_connection max_connections who got server =
    take_place who got (find_place server.conns who 0 max_connections none) server
