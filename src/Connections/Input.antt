-- ===== src/Connections/Input.antt =====
-- server/netserver.c: `Handle_input` with its dispatch tables, and `Input`.
use xpilot_fxi.Prelude.{
  ℕ, zero, suc, ◌+◌, ◌*◌, Bool, true, false, Option, none, some, List, [], ◌∷◌, ltb, leb, ◌==◌,
  ◌&&◌, ◌||◌, if◌then◌else◌,
}
use xpilot_fxi.Prelude.Int.{ℤ, pos}
use xpilot_fxi.Net.Sockbuf.{clear}
use xpilot_fxi.Net.Recv.{read}
use xpilot_fxi.Connections.Server.{
  ConnState, free, listening, setup, login, playing, drain, ready, Server, M, ◌>>=◌, ◌>>◌, pure,
  put, change, destroy, is_free,
}
use xpilot_fxi.Connections.Reliable.{send_reliable}
use xpilot_fxi.Connections.Acks.{pkt_ack, pkt_play, receive_ack}
use xpilot_fxi.Connections.Handshake.{pkt_verify, FirstPacket, handle_listening, is_minus_one}
use xpilot_fxi.Connections.Commands.{
  is_power, receive_power, receive_display, receive_modifier_bank, receive_motd,
  receive_audio_request, receive_fps_request, receive_pointer_move,
}
use xpilot_fxi.Connections.Actions.{
  Commands, receive_shape, receive_keyboard, receive_ack_fuel, receive_talk,
}
use xpilot_fxi.Connections.Login.{
  Setup, Login, handle_setup, receive_play, receive_quit, receive_undefined, receive_discard,
  is_setup,
}

abbrev pub pkt_quit : ℕ
pkt_quit = 4

abbrev pub pkt_shape : ℕ
pkt_shape = 57

-- The handlers in the tables, `Receive_undefined` and so on.
pub data Handler : Type 0 where
  undefined quit ack discard play : Handler
  power display modifier_bank motd shape audio_request fps_request : Handler
  keyboard ack_fuel talk pointer_move : Handler

abbrev pub member : ℕ → List ℕ → Bool
member a [] = false
member a (b ∷ bs) = (a == b) || member a bs

-- The entries that both `login_receive` and `playing_receive` have for settings.
unfoldable pub setting_receive : ℕ → Handler
setting_receive kind =
    if is_power kind
    then power
    else if kind == 55
    then display
    else if kind == 71
    then modifier_bank
    else if kind == 58
    then motd
    else if kind == pkt_shape
    then shape
    else if kind == 74
    then audio_request
    else if kind == 75
    then fps_request
    else undefined

unfoldable pub drain_receive : ℕ → Handler
drain_receive kind =
    if kind == pkt_quit
    then quit
    else if kind == pkt_ack
    then ack
    else if member kind (pkt_verify ∷ pkt_play ∷ pkt_shape ∷ [])
    then discard
    else undefined

unfoldable pub login_receive : ℕ → Handler
unfolding setting_receive
login_receive kind =
    if kind == pkt_play
    then play
    else if kind == pkt_quit
    then quit
    else if kind == pkt_ack
    then ack
    else if kind == pkt_verify
    then discard
    else setting_receive kind

unfoldable pub playing_receive : ℕ → Handler
unfolding login_receive
playing_receive kind =
    if kind == 24
    then keyboard
    else if kind == 47
    then ack_fuel
    else if kind == 51
    then talk
    else if kind == 73
    then pointer_move
    else login_receive kind

-- `receive_tbl`; in the other states there is none.
unfoldable pub receive_table : ConnState → Option (ℕ → Handler)
unfolding drain_receive login_receive playing_receive
receive_table playing = some playing_receive
receive_table ready = some playing_receive
receive_table login = some login_receive
receive_table drain = some drain_receive
receive_table setup = some drain_receive
receive_table listening = none
receive_table free = none

-- What comes from outside while the packets of one connection are handled: what the handlers need,
-- and what a login and a first packet meet, with the rounds of the loop over the packets.
pub record Outside : Type 0 where
  pub commands : Commands
  pub answers : Login
  pub connects : Bool
  pub first : FirstPacket
  pub rounds : ℕ

-- `Sockbuf_read(&connp->r)`
unfoldable pub read_r : ℕ → M ℤ
read_r i server =
    let conn = server.conns i in
    elim (read conn.r server.incoming) [
      | none ↦ none
      | some (n, r', io) ↦
          some (n, record (put i (record conn { r = r' }) server) { incoming = io })
    ]

module _ (out : Outside) (i : ℕ) where
  unfoldable pub run_handler : Handler → M ℤ
  run_handler undefined = receive_undefined i
  run_handler quit = receive_quit i
  run_handler ack = receive_ack i
  run_handler discard = receive_discard i
  run_handler play = receive_play i out.answers
  run_handler power = receive_power i
  run_handler display = receive_display i
  run_handler modifier_bank = receive_modifier_bank i
  run_handler motd = receive_motd i
  run_handler shape = receive_shape out.commands i
  run_handler audio_request = receive_audio_request i
  run_handler fps_request = receive_fps_request i
  run_handler keyboard = receive_keyboard out.commands i
  run_handler ack_fuel = receive_ack_fuel out.commands i
  run_handler talk = receive_talk out.commands i
  run_handler pointer_move = receive_pointer_move i

  -- The rest of a round of the loop, after the result of a handler.
  unfoldable pub after_handler : M (Unit {0}) → ℤ → M (Unit {0})
  unfolding clear
  after_handler rest result server =
      let conn = server.conns i in
      if is_minus_one result then some (tt, server) else elim result [
        | pos zero ↦ some (tt, put i (record conn { r = clear conn.r }) server)
        | _ ↦
            (do
              change i (λ c. record c {
                start = elim c.state [ playing ↦ server.main_loops | _ ↦ c.start ];
              })
              rest)
              server
      ]

  -- The loop, which is given `rounds` rounds.
  unfoldable pub input_loop : (ℕ → Handler) → ℕ → M (Unit {0})
  unfolding run_handler after_handler
  input_loop table zero server = none
  input_loop table (suc fuel) server =
      let conn = server.conns i in
      let rest = input_loop table fuel in
      if ltb conn.r.ptr conn.r.len
      then (run_handler (table (conn.r.buf conn.r.ptr)) >>= after_handler rest) server
      else some (tt, server)

  unfoldable pub after_read : (ℕ → Handler) → ℤ → M (Unit {0})
  unfolding input_loop
  after_read table n server =
      let conn = server.conns i in
      if is_minus_one n then destroy i "input error" server else input_loop table out.rounds server

  unfoldable pub handle_packets : (ℕ → Handler) → M (Unit {0})
  unfolding after_read read_r clear
  handle_packets table = do
    change i (λ conn. record conn { num_keyboard_updates = 0; r = clear conn.r })
    n ← read_r i
    after_read table n

  -- `Handle_input`
  unfoldable pub handle_input : M (Unit {0})
  unfolding handle_packets handle_listening receive_table
  handle_input server =
      let conn = server.conns i in
      elim (receive_table conn.state) [
        | some table ↦ handle_packets table server
        | none ↦
            if is_free conn.state
            then some (tt, server)
            else (do handle_listening i out.connects out.first; pure tt) server
      ]

-- The first loop of `Input`, for one connection. A connection that times out is destroyed.
unfoldable pub check_connection : Outside → Setup → ℕ → M (Unit {0})
unfolding handle_input handle_setup
check_connection out config i server =
    let conn = server.conns i in
    if is_free conn.state
    then some (tt, server)
    else if ltb (conn.start + conn.timeout * server.fps) server.main_loops
    then destroy i "timeout" server
    else if is_setup conn.state
    then (do handle_setup config (handle_input out i) i; pure tt) server
    else some (tt, server)

-- The second loop, for a connection that the first has noted.
abbrev pub may_retransmit : ConnState → Bool
may_retransmit drain = true
may_retransmit ready = true
may_retransmit setup = true
may_retransmit login = true
may_retransmit _ = false

unfoldable pub retransmit : ℕ → M (Unit {0})
retransmit i server =
    let conn = server.conns i in
    if may_retransmit conn.state && ltb 0 conn.c.len
    then (do send_reliable i; pure tt) server
    else some (tt, server)

-- `input_reliable`: the connections that were not playing when they were checked, in order.
abbrev pub is_noted : ℕ → Server → Bool
is_noted i server =
    let conn = server.conns i in
    elim conn.state [
      | free ↦ false
      | playing ↦ false
      | _ ↦ leb server.main_loops (conn.start + conn.timeout * server.fps)
    ]

unfoldable pub check_all : Outside → Setup → ℕ → ℕ → M (List ℕ)
unfolding check_connection
check_all out config i zero server = some ([], server)
check_all out config i (suc k) server =
    let noted = is_noted i server in
    (do
      check_connection out config i
      others ← check_all out config (i + 1) k
      pure (if noted then i ∷ others else others))
      server

unfoldable pub retransmit_all : List ℕ → M (Unit {0})
unfolding retransmit
retransmit_all [] = pure tt
retransmit_all (i ∷ is) = do retransmit i; retransmit_all is

-- `Input`, with `max_connections` connections.
unfoldable pub input : Outside → Setup → ℕ → M ℤ
unfolding check_all retransmit_all
input out config max_connections = do
  noted ← check_all out config 0 max_connections
  retransmit_all noted
  λ server. some (server.login_in_progress, server)
