-- ===== src/Connections/Session.antt =====
-- A client from its arrival to its play: each packet that it sends, and each answer of the kernel.
use xpilot_fxi.Prelude.{ℕ, ◌≡◌, true, false, Option, none, some, List, [], ◌∷◌, All, arith, refl}
use xpilot_fxi.Prelude.Int.{pos, ◌-ℤ◌}
use xpilot_fxi.Prelude.Memory.{store, load}
use xpilot_fxi.Net.Format.{num, str}
use xpilot_fxi.Net.Sockbuf.{Received, received, sent, write}
use xpilot_fxi.Net.Scan.{scanf}
use xpilot_fxi.Net.Print.{printf}
use xpilot_fxi.Connections.Server.{playing, Server}
use xpilot_fxi.Connections.Reliable.{send_reliable}
use xpilot_fxi.Connections.Acks.{receive_ack}
use xpilot_fxi.Connections.Handshake.{FirstPacket, nothing, packet}
use xpilot_fxi.Connections.Actions.{Commands}
use xpilot_fxi.Connections.Login.{Setup, Login, receive_play}
use xpilot_fxi.Connections.Input.{Outside}
use xpilot_fxi.Connections.Arrival.{Applicant, Resources}
use xpilot_fxi.Connections.Speaking.{CommandsFit}
use xpilot_fxi.Connections.Runs.{
  Event, kernel, arrives, packets, polls, ticks, IsFit, run, empty_server,
}

abbrev who : Applicant
who = record {
  real = b'j' ∷ b'o' ∷ [];
  nick = b'J' ∷ b'o' ∷ [];
  dpy = [];
  addr = [];
  host = [];
  team = some 1;
  version = 1;
}

abbrev got : Resources
got = record {
  socket = some (9, 15345);
  buffer_w = some (λ _. 0);
  buffer_r = some (λ _. 0);
  buffer_c = some (λ _. 0);
  copies = true;
  rand = 77;
}

abbrev commands : Commands
commands = record {
  parse_shape = λ text. none;
  num_fuels = 0;
  last_change = λ fuel. pos 0;
  handle_keyboard = λ pl keys. [];
  handle_player_command = λ pl text. [];
  handle_talk = λ pl text. [];
}

abbrev answers : Login
answers = record {
  has_place = true;
  team_play = true;
  team_found = none;
  name_used = false;
  pl = 4;
  base = some 2;
  introduce = λ c. c;
}

abbrev outside : FirstPacket → Outside
outside first = record {
  commands = commands;
  answers = answers;
  connects = true;
  first = first;
  rounds = 3;
}

-- Two bytes of map data behind the first packet.
abbrev config : Setup
config = record {
  values =
      num 6
      ∷ num 1
      ∷ num 2
      ∷ num 3
      ∷ num 4
      ∷ num 5
      ∷ num 6
      ∷ str (b'm' ∷ [])
      ∷ str (b'a' ∷ [])
      ∷ [];
  bytes = λ j. 7;
  setup_size = 6;
  map_data_at = 4;
}

-- `PKT_ACK` for the stream up to `rel`, at time 5.
abbrev ack : ℕ → Received
ack rel = received (43 ∷ 0 ∷ 0 ∷ 0 ∷ rel ∷ 0 ∷ 0 ∷ 0 ∷ 5 ∷ [])

abbrev waits : Outside
waits = outside nothing

abbrev verifies : Outside
verifies = outside (packet 4000 1 (b'j' ∷ b'o' ∷ 0 ∷ b'J' ∷ b'o' ∷ 0 ∷ []))

-- The verify packet, the setup data, the play packet, and an acknowledgement of each reply.
abbrev pub session : List Event
session =
    ticks 5
    ∷ arrives who got
    ∷ kernel (ack 8 ∷ []) (sent 60 ∷ [])
    ∷ packets 0 verifies
    ∷ packets 0 waits
    ∷ ticks 1
    ∷ kernel (ack 32 ∷ []) (sent 60 ∷ [])
    ∷ polls waits config
    ∷ packets 0 waits
    ∷ ticks 1
    ∷ kernel (received (3 ∷ []) ∷ []) []
    ∷ packets 0 waits
    ∷ kernel (ack 35 ∷ []) (sent 60 ∷ [])
    ∷ polls waits config
    ∷ packets 0 waits
    ∷ []

abbrev state_of : Option (Unit {0} × Server) → Server
state_of none = empty_server 8
state_of (some (u, s)) = s

abbrev pub at_play : Server
at_play = state_of (run 2 session (empty_server 8))

pub session-run : run 2 session (empty_server 8) ≡ some (tt, at_play)
unfolding run store scanf printf send_reliable write load receive_ack ◌-ℤ◌ receive_play
session-run = refl

at_play-playing : (at_play.conns 0).state ≡ playing
unfolding run store scanf printf send_reliable write load receive_ack ◌-ℤ◌ receive_play
at_play-playing = refl

commands-fit : CommandsFit 2 commands
commands-fit = record { keyboard = λ pl keys. tt; command = λ pl text. tt; talk = λ pl text. tt }

pub session-IsFit : All (IsFit 2) session
session-IsFit = (
  tt,
  (
    tt,
    (
      tt,
      (
        (omega arith, commands-fit),
        (
          (omega arith, commands-fit),
          (
            tt,
            (
              tt,
              (
                commands-fit,
                (
                  (omega arith, commands-fit),
                  (
                    tt,
                    (
                      tt,
                      (
                        (omega arith, commands-fit),
                        (tt, (commands-fit, ((omega arith, commands-fit), tt))),
                      ),
                    ),
                  ),
                ),
              ),
            ),
          ),
        ),
      ),
    ),
  ),
)
