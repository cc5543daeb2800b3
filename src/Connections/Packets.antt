-- ===== src/Connections/Packets.antt =====
-- server/netserver.c: the functions that print one packet, from `Send_modifiers` to `Send_message`,
-- and `Send_info`. Numbers are passed as their bit patterns.
use xpilot_fxi.Prelude.{
  ℕ, ◌+◌, ◌/◌, ◌%◌, ◌^◌, Bool, Option, none, some, List, [], ◌∷◌, ◌++◌, ltb, ◌&&◌, if◌then◌else◌,
}
use xpilot_fxi.Prelude.Int.{ℤ, pos, minus_one, pattern32}
use xpilot_fxi.Net.Format.{num, str}
use xpilot_fxi.Connections.Server.{M, ◌>>=◌, pure, connection, in_game}
use xpilot_fxi.Connections.Reliable.{positive, print_w}
use xpilot_fxi.Connections.Handshake.{print_c}
use xpilot_fxi.Connections.Commands.{f_char, f_short, f_ushort, f_long, f_string, f_big_string}
use xpilot_fxi.Connections.Types.{
  pkt_message, pkt_self, pkt_damaged, pkt_connector, pkt_refuel, pkt_ship, pkt_ball, pkt_shutdown,
  pkt_destruct, pkt_radar, pkt_seek, pkt_fuel, pkt_leave, pkt_war, pkt_score_object, pkt_time_left,
  pkt_eyes, pkt_modifiers, pkt_wreckage,
}

-- An id of a player, or -1.
abbrev pub id_or_none : Option ℕ → ℕ
id_or_none none = pattern32 minus_one
id_or_none (some id) = id

-- `if (!BIT(connp->state, CONN_PLAYING | CONN_READY)) { return 0; }`
unfoldable pub when_in_game : ℕ → M ℤ → M ℤ
when_in_game i rest server =
    if in_game (server.conns i).state then rest server else some (pos 0, server)

-- The values of a player that are drawn, as integers: rounded position, velocity, direction, rounded
-- settings, and the fuel before the shift.
pub record Self : Type 0 where
  pub posx : ℕ
  pub posy : ℕ
  pub velx : ℕ
  pub vely : ℕ
  pub dir : ℕ
  pub power : ℕ
  pub turnspeed : ℕ
  pub turnresistance : ℕ
  pub fuel_sum : ℕ
  pub fuel_max : ℕ

module _ (i : ℕ) where
  unfoldable pub send_modifiers : List ℕ → M ℤ
  unfolding print_w
  send_modifiers mods = print_w i (f_char ++ f_string) (num pkt_modifiers ∷ str mods ∷ [])

  abbrev pub self_format : List ℕ
  self_format =
      f_char ++ f_short ++ f_short ++ f_short ++ f_short ++ f_char ++ f_char ++ f_char ++ f_char
      ++ f_short ++ f_short ++ f_char ++ f_char ++ f_char ++ f_short ++ f_short ++ f_short
      ++ f_short ++ f_char ++ f_char ++ f_char

  unfoldable pub send_self :
      Self → (lock_id : Option ℕ) → (lock_dist lock_dir light status : ℕ) → List ℕ → M ℤ
  unfolding print_w send_modifiers
  send_self pl lock_id lock_dist lock_dir light status mods = do
    conn ← connection i
    n ← print_w i self_format (
        num pkt_self
        ∷ num pl.posx
        ∷ num pl.posy
        ∷ num pl.velx
        ∷ num pl.vely
        ∷ num pl.dir
        ∷ num pl.power
        ∷ num pl.turnspeed
        ∷ num pl.turnresistance
        ∷ num (id_or_none lock_id)
        ∷ num lock_dist
        ∷ num lock_dir
        ∷ num 0
        ∷ num 0
        ∷ num (pl.fuel_sum / 2 ^ 8)
        ∷ num (pl.fuel_max / 2 ^ 8)
        ∷ num conn.view_width
        ∷ num conn.view_height
        ∷ num conn.debris_colors
        ∷ num (status % 256)
        ∷ num light
        ∷ [])
    if positive n then send_modifiers mods else pure n

  unfoldable pub send_leave : ℕ → M ℤ
  unfolding when_in_game print_c
  send_leave id = when_in_game i (print_c i (f_char ++ f_short) (num pkt_leave ∷ num id ∷ []))

  unfoldable pub send_war : Option ℕ → Option ℕ → M ℤ
  unfolding when_in_game print_c
  send_war source target = when_in_game i (
      print_c i (f_char ++ f_short ++ f_short)
        (num pkt_war ∷ num (id_or_none source) ∷ num (id_or_none target) ∷ []))

  unfoldable pub send_seek : (programmer_id robot_id sought_id : ℕ) → M ℤ
  unfolding when_in_game print_c
  send_seek programmer_id robot_id sought_id = when_in_game i (
      print_c i (f_char ++ f_short ++ f_short ++ f_short)
        (num pkt_seek ∷ num programmer_id ∷ num robot_id ∷ num sought_id ∷ []))

  unfoldable pub send_score_object : (score bx by : ℕ) → List ℕ → M ℤ
  unfolding when_in_game print_c
  send_score_object score bx by text = when_in_game i (
      print_c i (f_char ++ f_short ++ f_ushort ++ f_ushort ++ f_string)
        (num pkt_score_object ∷ num score ∷ num bx ∷ num by ∷ str text ∷ []))

  unfoldable pub send_message : List ℕ → M ℤ
  unfolding when_in_game print_c
  send_message msg =
      when_in_game i (print_c i (f_char ++ f_big_string) (num pkt_message ∷ str msg ∷ []))

  unfoldable pub send_fuel : (id fuel : ℕ) → M ℤ
  unfolding print_w
  send_fuel id fuel =
      print_w i (f_char ++ f_ushort ++ f_ushort) (num pkt_fuel ∷ num id ∷ num (fuel / 2 ^ 8) ∷ [])

  unfoldable pub send_destruct : ℕ → M ℤ
  unfolding print_w
  send_destruct count = print_w i (f_char ++ f_short) (num pkt_destruct ∷ num count ∷ [])

  unfoldable pub send_shutdown : (count delay : ℕ) → M ℤ
  unfolding print_w
  send_shutdown count delay =
      print_w i (f_char ++ f_short ++ f_short) (num pkt_shutdown ∷ num count ∷ num delay ∷ [])

  -- The highest bit of the type says that wreckage is deadly.
  unfoldable pub send_wreckage : Bool → (x y wrtype size rot : ℕ) → M ℤ
  unfolding print_w
  send_wreckage may_kill x y wrtype size rot server =
      let version = (server.conns i).version in
      let marked = if may_kill && ltb 16897 version then wrtype % 128 + 128 else wrtype % 128 in
      if ltb version 14336
      then some (pos 1, server)
      else print_w i (f_char ++ f_short ++ f_short ++ f_char ++ f_char ++ f_char)
          (num pkt_wreckage ∷ num x ∷ num y ∷ num marked ∷ num size ∷ num rot ∷ []) server

  -- The owner of a ball is sent while it carries the ball.
  unfoldable pub send_ball : (x y : ℕ) → (attached : Bool) → (owner : Option ℕ) → M ℤ
  unfolding print_w
  send_ball x y attached owner =
      print_w i (f_char ++ f_short ++ f_short ++ f_short)
        (num pkt_ball ∷ num x ∷ num y ∷ num (id_or_none (if attached then owner else none)) ∷ [])

  unfoldable pub send_ship : (x y id dir : ℕ) → (shield : Bool) → M ℤ
  unfolding print_w
  send_ship x y id dir shield =
      print_w i (f_char ++ f_short ++ f_short ++ f_short ++ f_char ++ f_char)
        (num pkt_ship ∷ num x ∷ num y ∷ num id ∷ num dir ∷ num (if shield then 1 else 0) ∷ [])

  unfoldable pub send_refuel : (x y x' y' : ℕ) → M ℤ
  unfolding print_w
  send_refuel x y x' y' =
      print_w i (f_char ++ f_short ++ f_short ++ f_short ++ f_short)
        (num pkt_refuel ∷ num x ∷ num y ∷ num x' ∷ num y' ∷ [])

  unfoldable pub send_connector : (x y x' y' tractor : ℕ) → M ℤ
  unfolding print_w
  send_connector x y x' y' tractor =
      print_w i (f_char ++ f_short ++ f_short ++ f_short ++ f_short ++ f_char)
        (num pkt_connector ∷ num x ∷ num y ∷ num x' ∷ num y' ∷ num tractor ∷ [])

  unfoldable pub send_radar : (x y size : ℕ) → M ℤ
  unfolding print_w
  send_radar x y size =
      print_w i (f_char ++ f_short ++ f_short ++ f_char)
        (num pkt_radar ∷ num x ∷ num y ∷ num size ∷ [])

  unfoldable pub send_damaged : ℕ → M ℤ
  unfolding print_w
  send_damaged damaged = print_w i (f_char ++ f_char) (num pkt_damaged ∷ num damaged ∷ [])

  unfoldable pub send_time_left : ℕ → M ℤ
  unfolding print_w
  send_time_left sec = print_w i (f_char ++ f_long) (num pkt_time_left ∷ num sec ∷ [])

  unfoldable pub send_eyes : ℕ → M ℤ
  unfolding print_w
  send_eyes id = print_w i (f_char ++ f_short) (num pkt_eyes ∷ num id ∷ [])
