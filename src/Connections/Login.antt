-- ===== src/Connections/Login.antt =====
-- server/netserver.c: the setup data, the login, and `Input`.
use xpilot_fxi.Prelude.{
  ℕ, suc, ◌+◌, ◌-◌, ◌*◌, ◌/◌, Bool, true, false, Option, none, some, List, [], ◌∷◌, ◌++◌, min, ltb,
  leb, ◌==◌, ◌&&◌, if◌then◌else◌,
}
use xpilot_fxi.Prelude.Int.{ℤ, pos, minus_one}
use xpilot_fxi.Prelude.Memory.{load}
use xpilot_fxi.Net.Format.{Arg, num}
use xpilot_fxi.Net.Sockbuf.{Sockbuf, clear, write}
use xpilot_fxi.Connections.Server.{
  ConnState, setup, login, playing, drain, ready, Connection, M, ◌>>=◌, ◌>>◌, pure, connection, put,
  change, set_state, destroy, is_free,
}
use xpilot_fxi.Connections.Reliable.{positive, is_ℕ, send_reliable}
use xpilot_fxi.Connections.Acks.{pkt_play, pkt_success, scan_r, refuse}
use xpilot_fxi.Connections.Handshake.{print_c, send_reply, is_minus_one}

-- `setup_t`: the values of the first setup packet, the bytes of the whole structure, its size, and
-- where in it the map data begins.
pub record Setup : Type 0 where
  pub values : List Arg
  pub bytes : ℕ → ℕ
  pub setup_size : ℕ
  pub map_data_at : ℕ

-- "%ld" "%ld%hd" "%hd%hd" "%hd%hd" "%s%s"
abbrev pub long_format : List ℕ
long_format = b'%' ∷ b'l' ∷ b'd' ∷ []

abbrev pub short_format : List ℕ
short_format = b'%' ∷ b'h' ∷ b'd' ∷ []

abbrev pub setup_format : List ℕ
setup_format =
    long_format
    ++ long_format
    ++ short_format
    ++ short_format
    ++ short_format
    ++ short_format
    ++ short_format
    ++ (b'%' ∷ b's' ∷ b'%' ∷ b's' ∷ [])

abbrev pub is_setup : ConnState → Bool
is_setup setup = true
is_setup _ = false

-- `Sockbuf_write(&connp->c, …)`; the buffer is locked, so nothing is flushed.
unfoldable pub write_c : ℕ → List ℕ → M ℤ
write_c i bytes server =
    let conn = server.conns i in
    elim (write conn.c bytes server.outgoing) [
      | none ↦ none
      | some (r, c', io) ↦
          some (r, record (put i (record conn { c = c' }) server) { outgoing = io })
    ]

module _ (config : Setup) where
  -- `len` more bytes of the setup data were put into the buffer.
  unfoldable pub setup_written : ℕ → ℕ → Connection → Connection
  setup_written fps len conn = record conn {
    setup_done = conn.setup_done + len;
    start = if leb 512 len then conn.start + (len * fps / (8 * 512) + 1) else conn.start;
  }

  unfoldable pub setup_end : ℕ → M ℤ
  unfolding set_state
  setup_end i = do
    conn ← connection i
    if leb config.setup_size conn.setup_done
        then (do set_state i drain login; pure (pos 0))
        else pure (pos 0)

  -- The length of the next piece, at most what 4096 bytes of unacknowledged data leave.
  abbrev pub setup_len : Connection → ℕ
  setup_len conn = min (min conn.c.size 4096 - conn.c.len) (config.setup_size - conn.setup_done)

  unfoldable pub setup_piece : ℕ → M ℤ
  unfolding setup_written setup_end write_c refuse
  setup_piece i server =
      let conn = server.conns i in
      let len = setup_len conn in
      if leb config.setup_size conn.setup_done
      then setup_end i server
      else if leb (min conn.c.size 4096) conn.c.len
      then some (pos 0, server)
      else (do
        n ← write_c i (load config.bytes conn.setup_done len)
        if is_ℕ n len
            then (do change i (setup_written server.fps len); setup_end i)
            else refuse i "sockbuf write setup error")
          server

  unfoldable pub setup_first : ℕ → M ℤ
  unfolding print_c setup_piece refuse
  setup_first i = do
    n ← print_c i setup_format config.values
    if positive n
        then (do change i (λ conn. record conn { setup_done = config.map_data_at }); setup_piece i)
        else refuse i "setup 0 write error"

  -- `Handle_setup`; `input` is the call of `Handle_input` that looks for acknowledgements.
  unfoldable pub handle_setup : M (Unit {0}) → ℕ → M ℤ
  unfolding setup_first setup_piece refuse
  handle_setup input i server =
      let conn = server.conns i in
      let acked =
        (do
          input
          after ← connection i
          if is_free after.state then pure minus_one else setup_piece i)
          server in
      if is_setup conn.state
      then if conn.setup_done == 0
        then setup_first i server
        else if ltb conn.setup_done config.setup_size && ltb 0 conn.c.len
        then acked
        else setup_piece i server
      else refuse i "not setup" server

-- What the calls of the rest of the server answer to `Handle_login`: whether there is a place for
-- one more player, the team that was picked where teams are played (`none` if none was found),
-- whether the nick is in use, and the new player and its base. Then what `Send_info_about_myself`
-- and the other calls that only print into `c` leave there.
pub record Login : Type 0 where
  pub has_place : Bool
  pub team_play : Bool
  pub team_found : Option ℕ
  pub name_used : Bool
  pub pl : ℕ
  pub base : Option ℕ
  pub introduce : Sockbuf → Sockbuf

abbrev pub found_team : Option ℕ → Option (Option ℕ)
found_team none = none
found_team (some t) = some (some t)

-- The team of the connection, or the one that was picked; `none` is "Can't pick team".
abbrev pub pick_team : Login → Option ℕ → Option (Option ℕ)
pick_team answers team = elim team [
  | some t ↦ if answers.team_play then some (some t) else some none
  | none ↦ if answers.team_play then found_team answers.team_found else some none
]

abbrev pub count_login : M (Unit {0})
count_login server = some (tt, record server { num_logins = suc server.num_logins })

-- After `Player_set_state`. Where the reply fails with -1, `Send_reply` has destroyed the connection,
-- and `pl->connp`, which goes to `Destroy_connection`, is a null pointer.
unfoldable pub enter : ℕ → Login → M Bool
unfolding set_state send_reply
enter i answers = do
  change i (λ conn. record conn { pl = some answers.pl })
  set_state i ready playing
  n ← send_reply i pkt_play pkt_success
  if positive n
      then (do
        change i (λ conn. record conn { c = answers.introduce conn.c })
        count_login
        pure true)
      else if is_minus_one n
      then (λ server. none)
      else (do destroy i "error initializing the player"; pure false)

-- A player without a base has no connection yet, so `pl->connp`, which goes to
-- `Destroy_connection`, is a null pointer.
unfoldable pub place : ℕ → Login → M Bool
unfolding enter
place i answers = elim answers.base [ none ↦ λ server. none | some base ↦ enter i answers ]

-- `Handle_login`
unfoldable pub handle_login : ℕ → Login → M Bool
unfolding place
handle_login i answers server =
    let conn = server.conns i in
    if answers.has_place
    then elim (pick_team answers conn.team) [
      | none ↦ some (false, server)
      | some team ↦
          let joined = put i (record conn { team = team }) server in
          if answers.name_used then some (false, joined) else place i answers joined
    ]
    else some (false, server)

-- "%c"
abbrev pub play_format : List ℕ
play_format = b'%' ∷ b'c' ∷ []

unfoldable pub start_play : ℕ → Login → M ℤ
unfolding handle_login refuse clear
start_play i answers = do
  change i (λ conn. record conn { w = clear conn.w })
  ok ← handle_login i answers
  if ok then pure (pos 2) else refuse i "login failed"

unfoldable pub play_state : ℕ → Login → M ℤ
unfolding start_play refuse
play_state i answers server =
    let conn = server.conns i in
    elim conn.state [
      | login ↦ start_play i answers server
      | playing ↦
          (do n ← send_reliable i; if is_minus_one n then pure minus_one else pure (pos 0)) server
      | ready ↦ some (pos 0, put i (record conn { r = record conn.r { ptr = conn.r.len } }) server)
      | _ ↦ refuse i "not login" server
    ]

unfoldable pub play_values : ℕ → Login → List Arg → M ℤ
unfolding play_state refuse
play_values i answers (num ch ∷ []) =
    if ch == pkt_play then play_state i answers else refuse i "not play"
play_values i answers _ = λ server. none

-- `Receive_play`
unfoldable pub receive_play : ℕ → Login → M ℤ
unfolding play_values refuse scan_r
receive_play i answers = do
  (n, values) ← scan_r i play_format
  if is_ℕ n 1 then play_values i answers values else refuse i "receive error"

-- `Receive_quit`, `Receive_undefined` and `Receive_discard`
unfoldable pub receive_quit : ℕ → M ℤ
unfolding refuse
receive_quit i = refuse i "client quit"

unfoldable pub receive_undefined : ℕ → M ℤ
unfolding refuse
receive_undefined i = refuse i "undefined packet"

unfoldable pub receive_discard : ℕ → M ℤ
receive_discard i = do
  change i (λ conn. record conn { r = record conn.r { ptr = conn.r.len } })
  pure (pos 0)
