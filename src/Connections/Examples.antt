-- ===== src/Connections/Examples.antt =====
-- A connection with three bytes of reliable data, a table that a client enters, a packet with a
-- setting, and the theorems at them.
use xpilot_fxi.Prelude.{ℕ, ◌+◌, ◌*◌, ◌≤◌, ◌≡◌, true, none, some, [], ◌∷◌, ◌++◌, arith, refl}
use xpilot_fxi.Prelude.Int.{ℤ, pos, ◌-ℤ◌, signed16}
use xpilot_fxi.Prelude.Memory.{update}
use xpilot_fxi.Net.Sockbuf.{sent}
use xpilot_fxi.Net.Format.{num, directives, start}
use xpilot_fxi.Net.Wire.{Reads, wire_all}
use xpilot_fxi.Connections.Commands.{f_char, f_short, receive_power}
use xpilot_fxi.Connections.Bursts.{
  debris_header, send_debris, fastshot_header, send_fastshot, fastradar_header, send_fastradar,
}
use xpilot_fxi.Connections.Room.{Burst, bursts_lem}
use xpilot_fxi.Connections.Powers.{receive_power_lem}
use xpilot_fxi.Connections.Server.{
  drain, setup, Connection, Server, set_power, blank, no_sockbuf, in_game,
}
use xpilot_fxi.Connections.Acks.{acknowledge, update_rtt, max_rtt, min_retransmit}
use xpilot_fxi.Connections.Acked.{Done, acknowledge_lem}
use xpilot_fxi.Connections.RoundTrips.{InScale, update_rtt_lem}
use xpilot_fxi.Connections.Stream.{Holds}
use xpilot_fxi.Connections.Arrival.{write_flags, reliable_flags}
use xpilot_fxi.Connections.Invariant.{Legal, count, busy}
use xpilot_fxi.Connections.Runs.{empty_server, run_lem}
use xpilot_fxi.Connections.Session.{session, at_play, session-IsFit, session-run}

abbrev stream : ℕ → ℕ
stream k = k + 95

abbrev waiting : Connection
waiting = record blank {
  state = drain;
  drain_state = setup;
  w = record no_sockbuf { size = 4096; state = write_flags; allocated = true };
  c = record no_sockbuf {
    buf = λ j. j + 100;
    size = 51200;
    len = 3;
    state = reliable_flags;
    allocated = true;
  };
  reliable_offset = 5;
  reliable_unsent = 5;
}

abbrev table : Server
table = record (empty_server 8) { conns = λ _. waiting; main_loops = 7; outgoing = sent 14 ∷ [] }

waiting-Holds : Holds stream 5 waiting
waiting-Holds j h = omega arith

acknowledge_lem_example :
    (r : ℤ) × (s' : Server) × (acknowledge 0 (pos 7) table ≡ some (r, s'))
    × Done stream waiting (pos 7) r (s'.conns 0)
acknowledge_lem_example =
    acknowledge_lem stream 0 (pos 7) table (record { len_in = omega arith; ptr_in = omega arith })
      waiting-Holds

waiting-InScale : InScale 8 waiting
waiting-InScale = record { smoothed = omega arith; dev = omega arith }

update_rtt_lem_example :
    InScale 8 (update_rtt 8 (pos 4) waiting)
    × ((min_retransmit 8 ≤ (update_rtt 8 (pos 4) waiting).rtt_retransmit)
        × ((update_rtt 8 (pos 4) waiting).rtt_retransmit ≤ 3 * max_rtt 8))
update_rtt_lem_example = update_rtt_lem 8 (pos 4) waiting waiting-InScale

run_lem_example :
    (at_play.num_conn_busy ≡ pos (count busy at_play.conns 2))
    × (at_play.num_conn_playing ≡ pos (count in_game at_play.conns 2))
    × (at_play.login_in_progress ≡ at_play.num_conn_busy -ℤ at_play.num_conn_playing)
    × ((j : ℕ) → Legal (at_play.conns j).state (at_play.conns j).drain_state (at_play.conns j).pl)
run_lem_example = run_lem 2 8 session at_play session-IsFit session-run

-- A power packet for a player, at the front of the input.
abbrev powered : Connection
powered = record waiting {
  r = record no_sockbuf {
    buf = update (update (update (λ _. 0) 0 34) 1 3) 2 200;
    size = 1024;
    len = 3;
  };
  pl = some 4;
}

abbrev playing_table : Server
playing_table = record table { conns = λ _. powered }

power-Reads :
    Reads powered.r.buf 0 (wire_all (directives start (f_char ++ f_short)) (num 34 ∷ num 968 ∷ []))
unfolding directives
power-Reads = (refl, (refl, (refl, tt)))

receive_power_lem_example :
    (powered.pl ≡ none → receive_power 0 playing_table ≡ none)
    × ((pl : ℕ)
        → powered.pl ≡ some pl
        → (s' : Server) × (receive_power 0 playing_table ≡ some (pos 1, s'))
          × (s'.calls ≡ [] ++ (set_power pl 34 (signed16 968) ∷ []))
          × ((s'.conns 0).r.ptr ≡ 3))
receive_power_lem_example =
    receive_power_lem 0 34 968 playing_table refl (omega arith) power-Reads (omega arith)

bursts_lem_example :
    Burst 0 2 2 (debris_header 3) (λ m. m) stream 20 table (send_debris 0 3 stream 20 table)
    × Burst 0 2 3 (fastshot_header 3) (λ m. m) stream 20 table (send_fastshot 0 3 stream 20 table)
    × Burst 0 3 3 fastradar_header
        (λ m. 2 + m * 3)
        stream
        20
        table
        (send_fastradar 0 stream 20 table)
bursts_lem_example = bursts_lem 0 3 stream 20 table
