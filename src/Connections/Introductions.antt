-- ===== src/Connections/Introductions.antt =====
-- server/netserver.c: what a client is told about a player, `Send_player`, `Send_score`, `Send_base`,
-- `Send_release_base` and `Send_info`.
use xpilot_fxi.Prelude.{ℕ, Bool, Option, none, some, List, [], ◌∷◌, ◌++◌, if◌then◌else◌}
use xpilot_fxi.Prelude.Int.{ℤ, minus_one, pattern32}
use xpilot_fxi.Net.Format.{num, str}
use xpilot_fxi.Connections.Server.{M, ◌>>=◌, ◌>>◌, pure, connection, change}
use xpilot_fxi.Connections.Reliable.{positive}
use xpilot_fxi.Connections.Handshake.{print_c}
use xpilot_fxi.Connections.Commands.{f_char, f_short, f_ushort, f_string, f_big_string}
use xpilot_fxi.Connections.Types.{pkt_player, pkt_score, pkt_base}
use xpilot_fxi.Connections.Packets.{when_in_game}

-- `player_t`, as far as other clients hear of it; `ship` and `ship_ext` are the two strings of
-- `Convert_ship_2_string`, and numbers are bit patterns.
pub record Player : Type 0 where
  pub id : ℕ
  pub team : ℕ
  pub mychar : ℕ
  pub score : ℕ
  pub pl_life : ℕ
  pub name : List ℕ
  pub realname : List ℕ
  pub hostname : List ℕ
  pub ship : List ℕ
  pub ship_ext : List ℕ
  pub home_base : Option ℕ

-- `pl_send_t`, by its bits.
pub record Attributes : Type 0 where
  pub general : Bool
  pub score : Bool
  pub base : Bool

module _ (i : ℕ) where
  abbrev pub player_format : List ℕ
  player_format =
      f_char ++ f_short ++ f_char ++ f_char ++ f_string ++ f_string ++ f_string ++ f_big_string

  -- The second string of the shape is a packet of its own. If it does not fit, the first is withdrawn.
  unfoldable pub send_player_ext : Player → ℕ → ℤ → M ℤ
  unfolding print_c
  send_player_ext pl sbuf_len n =
      if positive n
      then (do
        m ← print_c i f_big_string (str pl.ship_ext ∷ [])
        if positive m then pure m else (do
          change i (λ conn. record conn { c = record conn.c { len = sbuf_len } })
          pure m))
      else pure n

  unfoldable pub send_player : Player → M ℤ
  unfolding when_in_game print_c send_player_ext
  send_player pl = do
    conn ← connection i
    when_in_game i (do
      n ← print_c i player_format (
          num pkt_player
          ∷ num pl.id
          ∷ num pl.team
          ∷ num pl.mychar
          ∷ str pl.name
          ∷ str pl.realname
          ∷ str pl.hostname
          ∷ str pl.ship
          ∷ [])
      send_player_ext pl conn.c.len n)

  unfoldable pub send_score : Player → M ℤ
  unfolding when_in_game print_c
  send_score pl = when_in_game i (
      print_c i (f_char ++ f_short ++ f_short ++ f_short ++ f_char)
        (num pkt_score ∷ num pl.id ∷ num pl.score ∷ num pl.pl_life ∷ num pl.mychar ∷ []))

  unfoldable pub send_base : (id base : ℕ) → M ℤ
  unfolding when_in_game print_c
  send_base id base =
      when_in_game i
        (print_c i (f_char ++ f_short ++ f_ushort) (num pkt_base ∷ num id ∷ num base ∷ []))

  unfoldable pub send_release_base : ℕ → M ℤ
  unfolding send_base
  send_release_base base = send_base (pattern32 minus_one) base

  unfoldable pub send_base_of : Player → M (Unit {0})
  unfolding send_base
  send_base_of pl = elim pl.home_base [
    | none ↦ pure tt
    | some base ↦ (do send_base pl.id base; pure tt)
  ]

  unfoldable pub send_info : Player → Attributes → M (Unit {0})
  unfolding send_player send_score send_base_of
  send_info pl attr = do
    if attr.general then (do send_player pl; pure tt) else pure tt
    if attr.score then (do send_score pl; pure tt) else pure tt
    if attr.base then send_base_of pl else pure tt
