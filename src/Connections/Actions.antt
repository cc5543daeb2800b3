-- ===== src/Connections/Actions.antt =====
-- server/netserver.c: the handlers of what players do, `Receive_shape`, `Receive_ack_fuel`,
-- `Receive_talk` and `Receive_keyboard`.
use Prim.Native.String.{String}
use xpilot_fxi.Prelude.{
  ℕ, suc, ◌+◌, Option, none, some, List, [], ◌∷◌, ◌++◌, ltb, leb, ◌==◌, if◌then◌else◌,
}
use xpilot_fxi.Prelude.Int.{ℤ, pos, ltb_ℤ, signed32}
use xpilot_fxi.Prelude.Memory.{load}
use xpilot_fxi.Net.Format.{Arg, num}
use xpilot_fxi.Connections.Server.{
  login, Connection, M, ◌>>=◌, ◌>>◌, pure, connection, change, call, fuel_seen, destroy,
}
use xpilot_fxi.Connections.Reliable.{positive}
use xpilot_fxi.Connections.Acks.{scan_r, refuse}
use xpilot_fxi.Connections.Handshake.{print_c, is_minus_one}
use xpilot_fxi.Connections.Commands.{
  scan_then, a_num, a_str, the_end, f_char, f_ushort, f_long, f_string, f_big_string, with_player,
  pkt_talk_ack, keyboard_size, skip_keys, is_macro,
}

-- What a call into the rest of the server does to the table: it destroys a connection, as the command
-- to kick a player does, or prints into the reliable data of one, as every message does.
pub data Effect : Type 0 where
  hangs_up : ℕ → String → Effect
  prints : ℕ → List ℕ → List Arg → Effect

unfoldable pub perform : Effect → M (Unit {0})
unfolding print_c destroy
perform (hangs_up i reason) = destroy i reason
perform (prints i fmt args) = do print_c i fmt args; pure tt

unfoldable pub perform_all : List Effect → M (Unit {0})
unfolding perform
perform_all [] = pure tt
perform_all (e ∷ es) = do perform e; perform_all es

-- What the handlers need of the rest of the server: the parser of ship shapes, the fuel stations with
-- the time of their last change, what `Handle_keyboard` does to the table for a player
-- and its new keys, and `Handle_player_command` and `Handle_talk` for a player and a text.
pub record Commands : Type 0 where
  pub parse_shape : List ℕ → Option ℕ
  pub num_fuels : ℕ
  pub last_change : ℕ → ℤ
  pub handle_keyboard : ℕ → List ℕ → List Effect
  pub handle_player_command : ℕ → List ℕ → List Effect
  pub handle_talk : ℕ → List ℕ → List Effect

module _ (out : Commands) (i : ℕ) where
  unfoldable pub choose_ship : List ℕ → Connection → Connection
  choose_ship text conn = record conn {
    ship = elim conn.state [
      | login ↦ elim conn.ship [ none ↦ out.parse_shape text | some s ↦ some s ]
      | _ ↦ conn.ship
    ];
  }

  -- `Receive_shape`: the second string is scanned behind the first.
  unfoldable pub receive_shape : M ℤ
  unfolding scan_then choose_ship a_num a_str the_end
  receive_shape = scan_then i (f_char ++ f_big_string) "read shape" (
      a_num (λ kind. a_str (λ text. the_end (
        scan_then i f_big_string "read shape ext"
          (a_str (λ more. the_end (do change i (choose_ship (text ++ more)); pure (pos 1))))))))

  unfoldable pub acknowledge_fuel : ℕ → ℕ → M ℤ
  unfolding refuse
  acknowledge_fuel loops_ack fuel =
      if leb out.num_fuels fuel
      then refuse i "bad fuel ack"
      else if ltb_ℤ (out.last_change fuel) (signed32 loops_ack)
      then (do conn ← connection i; call (fuel_seen fuel conn.cid); pure (pos 1))
      else pure (pos 1)

  -- `Receive_ack_fuel`
  unfoldable pub receive_ack_fuel : M ℤ
  unfolding scan_then acknowledge_fuel a_num the_end
  receive_ack_fuel = scan_then i (f_char ++ f_long ++ f_ushort) "read error" (
      a_num
        (λ kind. a_num (λ loops_ack. a_num (λ fuel. the_end (acknowledge_fuel loops_ack fuel)))))

  -- A text that begins with `/` is a command.
  unfoldable pub speak : ℕ → List ℕ → M (Unit {0})
  unfolding perform_all
  speak pl [] = perform_all (out.handle_talk pl [])
  speak pl (c ∷ text) =
      perform_all
        (if c == b'/' then out.handle_player_command pl text else out.handle_talk pl (c ∷ text))

  unfoldable pub hear : ℕ → List ℕ → ℤ → M ℤ
  unfolding speak with_player
  hear seq text n =
      if positive n
      then (do
        change i (λ conn. record conn { talk_sequence_num = signed32 seq })
        with_player i (λ pl. do speak pl text; pure (pos 1)))
      else if is_minus_one n
      then refuse i "write error"
      else pure n

  -- A text whose number is not new was heard before.
  unfoldable pub talk : ℕ → List ℕ → M ℤ
  unfolding hear print_c
  talk seq text server =
      if ltb_ℤ (server.conns i).talk_sequence_num (signed32 seq)
      then (print_c i (f_char ++ f_long) (num pkt_talk_ack ∷ num seq ∷ []) >>= hear seq text) server
      else some (pos 1, server)

  -- `Receive_talk`
  unfoldable pub receive_talk : M ℤ
  unfolding scan_then talk a_num a_str the_end
  receive_talk =
      scan_then i (f_char ++ f_long ++ f_string) "read error"
        (a_num (λ kind. a_num (λ seq. a_str (λ text. the_end (talk seq text)))))

  unfoldable pub count_keyboard : M ℤ
  unfolding refuse
  count_keyboard server =
      let conn = server.conns i in
      (do
        change i (λ c. record c { num_keyboard_updates = suc c.num_keyboard_updates })
        if is_macro conn.num_keyboard_updates conn.state
            then refuse i "no macros"
            else pure (pos 1))
        server

  unfoldable pub new_keys : ℕ → M ℤ
  unfolding with_player count_keyboard perform_all
  new_keys key_change = with_player i (λ pl. do
    conn ← connection i
    change i (λ c. record (skip_keys c) { last_key_change = signed32 key_change })
    perform_all (out.handle_keyboard pl (load conn.r.buf conn.r.ptr keyboard_size))
    count_keyboard)

  unfoldable pub keys : ℕ → M ℤ
  unfolding new_keys count_keyboard
  keys key_change server =
      if ltb_ℤ (server.conns i).last_key_change (signed32 key_change)
      then new_keys key_change server
      else (do change i skip_keys; count_keyboard) server

  -- `Receive_keyboard`, which scans only what has arrived whole.
  unfoldable pub receive_keyboard : M ℤ
  unfolding keys scan_r a_num the_end
  receive_keyboard server =
      let conn = server.conns i in
      if ltb conn.r.len (conn.r.ptr + keyboard_size + 1 + 4)
      then some (pos 0, server)
      else (do
        (n, values) ← scan_r i (f_char ++ f_long)
        a_num (λ kind. a_num (λ key_change. the_end (keys key_change))) values)
          server
