-- ===== src/Connections/Runs.antt =====
-- The life of the table of connections: what arrives and what the server does, in any order.
use Prim.Native.String.{String}
use mathlib.Core.Path.{subst}
use xpilot_fxi.Prelude.{
  ℕ, zero, suc, ◌+◌, ◌++◌, ◌<◌, ◌≡◌, Option, some, List, [], ◌∷◌, arith, refl, sym, ap, All, Bool,
  false,
}
use xpilot_fxi.Prelude.Int.{pos, ◌-ℤ◌}
use xpilot_fxi.Connections.Server.{ConnState, free, Server, M, ◌>>◌, pure, blank, destroy, in_game}
use xpilot_fxi.Net.Sockbuf.{Received, Sent}
use xpilot_fxi.Connections.Frames.{send_start_of_frame, send_end_of_frame}
use xpilot_fxi.Connections.Login.{Setup}
use xpilot_fxi.Connections.Input.{Outside, input, handle_input}
use xpilot_fxi.Connections.Arrival.{Applicant, Resources, setup_connection}
use xpilot_fxi.Connections.Invariant.{Legal, IsSound, Safe, count, busy}
use xpilot_fxi.Connections.Safety.{Keeps, destroy-Keeps, IsSound-same}
use xpilot_fxi.Connections.Framed.{send_start_of_frame-Keeps, send_end_of_frame-Keeps}
use xpilot_fxi.Connections.Welcome.{then-Keeps}
use xpilot_fxi.Connections.Soundness.{input-Keeps, handle_input-Keeps}
use xpilot_fxi.Connections.Speaking.{CommandsFit}
use xpilot_fxi.Connections.Joining.{setup_connection-Keeps}

-- What the kernel will answer to `recv` and `send`, a client that was let in, packets for a
-- connection, the start and the end of a frame, a connection that the rest of the server ends, a call
-- of `Input`, and the time going on.
pub data Event : Type 1 where
  kernel : List Received → List Sent → Event
  arrives : Applicant → Resources → Event
  packets : ℕ → Outside → Event
  frame_starts : (i frame_loops : ℕ) → Event
  frame_ends : (i frame_loops : ℕ) → Event
  ends : ℕ → String → Event
  polls : Outside → Setup → Event
  ticks : ℕ → Event

-- What the events bring is fit for a table of `n` connections.
abbrev pub IsFit : ℕ → Event → Type 0
IsFit n (kernel received sent) = Unit
IsFit n (arrives who got) = Unit
IsFit n (packets i out) = (i < n) × CommandsFit n out.commands
IsFit n (frame_starts i loops) = i < n
IsFit n (frame_ends i loops) = i < n
IsFit n (ends i reason) = i < n
IsFit n (polls out config) = CommandsFit n out.commands
IsFit n (ticks k) = Unit

unfoldable pub step : ℕ → Event → M (Unit {0})
unfolding setup_connection handle_input send_start_of_frame send_end_of_frame destroy input
step n (kernel received sent) =
    λ s. some (tt, record s { incoming = s.incoming ++ received; outgoing = s.outgoing ++ sent })
step n (arrives who got) = do setup_connection n who got; pure tt
step n (packets i out) = handle_input out i
step n (frame_starts i loops) = do send_start_of_frame i loops; pure tt
step n (frame_ends i loops) = do send_end_of_frame i loops; pure tt
step n (ends i reason) = destroy i reason
step n (polls out config) = do input out config n; pure tt
step n (ticks k) = λ s. some (tt, record s { main_loops = s.main_loops + k })

unfoldable pub run : ℕ → List Event → M (Unit {0})
unfolding step
run n [] = pure tt
run n (e ∷ es) = do step n e; run n es

-- `Conn` after `Setup_net_server`.
abbrev pub empty_server : ℕ → Server
empty_server fps = record {
  conns = λ _. blank;
  num_conn_busy = pos 0;
  num_conn_playing = pos 0;
  login_in_progress = pos 0;
  num_logins = 0;
  num_logouts = 0;
  main_loops = 0;
  fps = fps;
  incoming = [];
  outgoing = [];
  calls = [];
}

step-Keeps : (n : ℕ) (e : Event) → IsFit n e → Keeps n (step n e)
unfolding step
step-Keeps n (kernel received sent) h = λ s v. IsSound-same n s _ refl refl refl refl v
step-Keeps n (arrives who got) h =
    then-Keeps n (setup_connection n who got) (λ _. pure tt) (setup_connection-Keeps n who got)
      (λ _ s v. v)
step-Keeps n (packets i out) h = handle_input-Keeps n out h.1 i h.0
step-Keeps n (frame_starts i loops) h =
    then-Keeps n (send_start_of_frame i loops) (λ _. pure tt)
      (send_start_of_frame-Keeps n i h loops) (λ _ s v. v)
step-Keeps n (frame_ends i loops) h =
    then-Keeps n (send_end_of_frame i loops) (λ _. pure tt) (send_end_of_frame-Keeps n i h loops)
      (λ _ s v. v)
step-Keeps n (ends i reason) h = destroy-Keeps n i h reason
step-Keeps n (polls out config) h =
    then-Keeps n (input out config n) (λ _. pure tt) (input-Keeps n out h config) (λ _ s v. v)
step-Keeps n (ticks k) h = λ s v. IsSound-same n s _ refl refl refl refl v

count_blank : (f : ConnState → Bool) (n : ℕ) → f free ≡ false → count f (λ _. blank) n ≡ 0
unfolding count
count_blank f zero e = refl
count_blank f (suc n) e = ground (arith, e, count_blank f n e)

empty-IsSound : (n fps : ℕ) → IsSound n (empty_server fps)
unfolding ◌-ℤ◌
empty-IsSound n fps = record {
  counted = record {
    busy_ones = ap pos (sym (count_blank busy n refl));
    in_games = ap pos (sym (count_blank in_game n refl));
    logins = refl;
  };
  legal = λ j. tt;
}

run-Keeps : (n : ℕ) (events : List Event) → All (IsFit n) events → Keeps n (run n events)
unfolding run
run-Keeps n [] h s v = v
run-Keeps n (e ∷ es) h s v =
    then-Keeps n (step n e) (λ _. run n es) (step-Keeps n e h.0) (λ _. run-Keeps n es h.1) s v

Safe-out :
    (n : ℕ) {A : Type 0} (x : Option (A × Server)) (a : A) (s : Server)
    → Safe n x
    → x ≡ some (a, s)
    → IsSound n s
Safe-out n x a s p e = subst (Safe n) e p

-- From the empty table on, let the kernel answer, clients arrive, packets come in, frames start and
-- end, connections end and the server poll, in any order, all of it for connections of the table, and
-- let `s` be the table that they lead to. Then `num_conn_busy` is the number of connections that are
-- not free, `num_conn_playing` the number of those that are playing or ready, and
-- `login_in_progress` the difference. A connection that drains goes on to the setup or the login, one
-- that is ready goes on to play, and both of those that are ready and those that play have a player.
pub run_lem :
    (n fps : ℕ) (events : List Event) (s : Server)
    → All (IsFit n) events
    → run n events (empty_server fps) ≡ some (tt, s)
    → (s.num_conn_busy ≡ pos (count busy s.conns n))
      × (s.num_conn_playing ≡ pos (count in_game s.conns n))
      × (s.login_in_progress ≡ s.num_conn_busy -ℤ s.num_conn_playing)
      × ((j : ℕ) → Legal (s.conns j).state (s.conns j).drain_state (s.conns j).pl)
run_lem n fps events s h e =
    let v =
      Safe-out n (run n events (empty_server fps)) tt s
        (run-Keeps n events h (empty_server fps) (empty-IsSound n fps)) e in
    (v.counted.busy_ones, v.counted.in_games, v.counted.logins, v.legal)
