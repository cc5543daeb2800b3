-- ===== src/Connections/Soundness.antt =====
-- Whatever arrives, the invariant of the table holds.
use xpilot_fxi.Prelude.{
  ℕ, zero, suc, ◌+◌, ◌*◌, ◌≤◌, ◌<◌, inl, inr, Bool, true, false, Option, none, some, List, [], ◌∷◌,
  ltb, ◌&&◌, if◌then◌else◌, arith, refl, Option-cases, All,
}
use xpilot_fxi.Prelude.Int.{ℤ, pos, negsuc}
use xpilot_fxi.Net.Recv.{read}
use xpilot_fxi.Net.Sockbuf.{clear}
use xpilot_fxi.Connections.Server.{
  playing, Connection, Server, M, ◌>>=◌, ◌>>◌, resume, pure, put, change, destroy, is_free,
}
use xpilot_fxi.Connections.Reliable.{send_reliable}
use xpilot_fxi.Connections.Handshake.{is_minus_one, handle_listening}
use xpilot_fxi.Connections.Login.{receive_undefined, receive_quit, Setup, is_setup, handle_setup}
use xpilot_fxi.Connections.Input.{
  Handler, undefined, quit, ack, discard, play, power, display, modifier_bank, motd, shape,
  audio_request, fps_request, keyboard, ack_fuel, talk, pointer_move, receive_table, Outside,
  read_r, run_handler, after_handler, input_loop, after_read, handle_packets, handle_input,
  check_connection, may_retransmit, retransmit, is_noted, check_all, retransmit_all, input,
}
use xpilot_fxi.Connections.Invariant.{IsSound, Safe}
use xpilot_fxi.Connections.Safety.{Keeps, bind-Safe, if-Safe, IsSound-same, destroy-Keeps}
use xpilot_fxi.Connections.Steps.{put-quiet, send_reliable-Keeps}
use xpilot_fxi.Connections.Requests.{receive_ack-Keeps, refuse-Keeps}
use xpilot_fxi.Connections.Welcome.{then-Keeps, quiet-Keeps, handle_listening-Keeps}
use xpilot_fxi.Connections.Obeying.{
  receive_power-Keeps, receive_display-Keeps, receive_modifier_bank-Keeps, receive_motd-Keeps,
  receive_audio_request-Keeps, receive_fps_request-Keeps, receive_pointer_move-Keeps,
}
use xpilot_fxi.Connections.Speaking.{
  CommandsFit, receive_shape-Keeps, receive_ack_fuel-Keeps, receive_talk-Keeps,
  receive_keyboard-Keeps,
}
use xpilot_fxi.Connections.Configuring.{handle_setup-Keeps}
use xpilot_fxi.Connections.Entering.{receive_play-Keeps, receive_discard-Keeps}

module _ (n : ℕ) (out : Outside) (good : CommandsFit n out.commands) where
  module _ (i : ℕ) (inside : i < n) where
    read_r-Keeps : Keeps n (read_r i)
    unfolding read_r
    read_r-Keeps s v = elim (Option-cases (read (s.conns i).r s.incoming)) [
      | inl e ↦ rw (e, read_r) tt
      | inr ((r, r', io), e) ↦
          rw (e, read_r)
            (IsSound-same n (put i (record (s.conns i) { r = r' }) s) _ refl refl refl refl
              (put-quiet n i inside (record (s.conns i) { r = r' }) s refl refl refl v))
    ]

    run_handler-Keeps : (h : Handler) → Keeps n (run_handler out i h)
    unfolding run_handler receive_undefined receive_quit
    run_handler-Keeps undefined = refuse-Keeps n i inside "undefined packet"
    run_handler-Keeps quit = refuse-Keeps n i inside "client quit"
    run_handler-Keeps ack = receive_ack-Keeps n i inside
    run_handler-Keeps discard = receive_discard-Keeps n i inside
    run_handler-Keeps play = receive_play-Keeps n i inside out.answers
    run_handler-Keeps power = receive_power-Keeps n i inside
    run_handler-Keeps display = receive_display-Keeps n i inside
    run_handler-Keeps modifier_bank = receive_modifier_bank-Keeps n i inside
    run_handler-Keeps motd = receive_motd-Keeps n i inside
    run_handler-Keeps shape = receive_shape-Keeps n i inside out.commands good
    run_handler-Keeps audio_request = receive_audio_request-Keeps n i inside
    run_handler-Keeps fps_request = receive_fps_request-Keeps n i inside
    run_handler-Keeps keyboard = receive_keyboard-Keeps n i inside out.commands good
    run_handler-Keeps ack_fuel = receive_ack_fuel-Keeps n i inside out.commands good
    run_handler-Keeps talk = receive_talk-Keeps n i inside out.commands good
    run_handler-Keeps pointer_move = receive_pointer_move-Keeps n i inside

    after_handler-Keeps :
        (rest : M (Unit {0})) (r : ℤ) → Keeps n rest → Keeps n (after_handler out i rest r)
    unfolding after_handler
    after_handler-Keeps rest r k s v =
        let dropped = put i (record (s.conns i) { r = clear (s.conns i).r }) s in
        let heard : Connection → Connection =
          λ c. record c { start = elim c.state [ playing ↦ s.main_loops | _ ↦ c.start ] } in
        let on : M (Unit {0}) = (do change i heard; rest) in
        let goes : ℤ → Option (Unit {0} × Server) =
          λ x. elim x [ pos zero ↦ some (tt, dropped) | _ ↦ on s ] in
        let drops =
          put-quiet n i inside (record (s.conns i) { r = clear (s.conns i).r }) s refl refl refl
            v in
        let goes_on =
          then-Keeps n (change i heard) (λ _. rest)
            (quiet-Keeps n i inside heard (λ c. refl) (λ c l. l)) (λ _. k) s v in
        if-Safe n (is_minus_one r) (some (tt, s)) (goes r) v (elim r as (λ x. Safe n (goes x)) [
          | pos zero ↦ drops
          | pos (suc m) ↦ goes_on
          | negsuc m ↦ goes_on
        ])

    input_loop-Keeps : (table : ℕ → Handler) (fuel : ℕ) → Keeps n (input_loop out i table fuel)
    unfolding input_loop
    input_loop-Keeps table zero s v = tt
    input_loop-Keeps table (suc fuel) s v =
        let rest = input_loop out i table fuel in
        let kind = table ((s.conns i).r.buf (s.conns i).r.ptr) in
        if-Safe n (ltb (s.conns i).r.ptr (s.conns i).r.len)
          ((run_handler out i kind >>= after_handler out i rest) s) (some (tt, s))
          (bind-Safe n (after_handler out i rest) (run_handler out i kind s)
            (run_handler-Keeps kind s v)
            (λ r. after_handler-Keeps rest r (input_loop-Keeps table fuel)))
          v

    after_read-Keeps : (table : ℕ → Handler) (r : ℤ) → Keeps n (after_read out i table r)
    unfolding after_read
    after_read-Keeps table r s v =
        let fuel = out.rounds in
        if-Safe n (is_minus_one r) (destroy i "input error" s) (input_loop out i table fuel s)
          (destroy-Keeps n i inside "input error" s v) (input_loop-Keeps table fuel s v)

    handle_packets-Keeps : (table : ℕ → Handler) → Keeps n (handle_packets out i table)
    unfolding handle_packets
    handle_packets-Keeps table =
        let begin : Connection → Connection =
          λ conn. record conn { num_keyboard_updates = 0; r = clear conn.r } in
        then-Keeps n (change i begin) (λ _. read_r i >>= after_read out i table)
          (quiet-Keeps n i inside begin (λ c. refl) (λ c l. l))
          (λ _.
            then-Keeps n (read_r i) (after_read out i table) read_r-Keeps (after_read-Keeps table))

    pub handle_input-Keeps : Keeps n (handle_input out i)
    unfolding handle_input
    handle_input-Keeps s v =
        let idle : Option (Unit {0} × Server) =
          if is_free (s.conns i).state
          then some (tt, s)
          else (do handle_listening i out.connects out.first; pure tt) s in
        let goes : Option (ℕ → Handler) → Option (Unit {0} × Server) =
          λ t. elim t [ some table ↦ handle_packets out i table s | none ↦ idle ] in
        let quiet =
          if-Safe n (is_free (s.conns i).state) (some (tt, s))
            ((do handle_listening i out.connects out.first; pure tt) s) v
            (bind-Safe n (λ _. pure tt) (handle_listening i out.connects out.first s)
              (handle_listening-Keeps n i inside out.connects out.first s v) (λ _ t w. w)) in
        elim (receive_table (s.conns i).state) as (λ t. Safe n (goes t)) [
          | some table ↦ handle_packets-Keeps table s v
          | none ↦ quiet
        ]

    check_connection-Keeps : (config : Setup) → Keeps n (check_connection out config i)
    unfolding check_connection
    check_connection-Keeps config s v =
        let conn = s.conns i in
        let late = ltb (conn.start + conn.timeout * s.fps) s.main_loops in
        let setup_now = (do handle_setup config (handle_input out i) i; pure tt) s in
        let work = if is_setup conn.state then setup_now else some (tt, s) in
        if-Safe n (is_free conn.state) (some (tt, s)) (if late then destroy i "timeout" s else work)
          v
          (if-Safe n late (destroy i "timeout" s) work (destroy-Keeps n i inside "timeout" s v) (
            if-Safe n (is_setup conn.state) setup_now (some (tt, s))
              (bind-Safe n (λ _. pure tt) (handle_setup config (handle_input out i) i s)
                (handle_setup-Keeps n i inside config (handle_input out i) handle_input-Keeps s v)
                (λ _ t w. w))
              v))

    retransmit-Keeps : Keeps n (retransmit i)
    unfolding retransmit
    retransmit-Keeps s v =
        if-Safe n (may_retransmit (s.conns i).state && ltb 0 (s.conns i).c.len)
          ((do send_reliable i; pure tt) s) (some (tt, s))
          (bind-Safe n (λ _. pure tt) (send_reliable i s) (send_reliable-Keeps n i inside s v)
            (λ _ t w. w))
          v

  -- The second loop only meets connections of the table.
  abbrev Inside : List ℕ → Type 0
  Inside noted = All (λ i. i < n) noted

  retransmit_all-Keeps : (noted : List ℕ) → Inside noted → Keeps n (retransmit_all noted)
  unfolding retransmit_all
  retransmit_all-Keeps [] h s v = v
  retransmit_all-Keeps (i ∷ is) h s v =
      then-Keeps n (retransmit i) (λ _. retransmit_all is) (retransmit-Keeps i h.0)
        (λ _. retransmit_all-Keeps is h.1) s v

  -- The first loop leaves a sound table and a list of connections of the table.
  abbrev Noted : Option (List ℕ × Server) → Type 0
  Noted none = Unit
  Noted (some (noted, s)) = IsSound n s × Inside noted

  bind-Noted :
      {A : Type 0} (f : A → M (List ℕ)) (x : Option (A × Server))
      → Safe n x
      → ((a : A) (s : Server) → IsSound n s → Noted (f a s))
      → Noted (resume f x)
  bind-Noted f none p k = tt
  bind-Noted f (some (a, s)) p k = k a s p

  add-Noted :
      (b : Bool) (i : ℕ)
      → i < n
      → (x : Option (List ℕ × Server)) → Noted x
      → Noted (resume (λ others. pure (if b then i ∷ others else others)) x)
  add-Noted b i h none p = tt
  add-Noted true i h (some (noted, s)) p = (p.0, (h, p.1))
  add-Noted false i h (some (noted, s)) p = p

  check_all-Noted :
      (config : Setup) (i k : ℕ)
      → i + k ≤ n
      → (s : Server) → IsSound n s
      → Noted (check_all out config i k s)
  unfolding check_all
  check_all-Noted config i zero h s v = (v, tt)
  check_all-Noted config i (suc k) h s v =
      bind-Noted
        (λ _. do
          others ← check_all out config (i + 1) k
          pure (if is_noted i s then i ∷ others else others))
        (check_connection out config i s) (check_connection-Keeps i (omega arith) config s v)
        (λ _ t w.
          add-Noted (is_noted i s) i (omega arith) (check_all out config (i + 1) k t)
            (check_all-Noted config (i + 1) k (omega arith) t w))

  pub input-Keeps : (config : Setup) → Keeps n (input out config n)
  unfolding input
  input-Keeps config s v =
      go (check_all out config 0 n s) (check_all-Noted config 0 n (omega arith) s v)
    where
      last : Unit {0} → M ℤ
      last u t = some (t.login_in_progress, t)

      go :
          (x : Option (List ℕ × Server))
          → Noted x
          → Safe n (resume (λ noted. retransmit_all noted >>= last) x)
      go none p = tt
      go (some (noted, t)) p =
          bind-Safe n last (retransmit_all noted t) (retransmit_all-Keeps noted p.1 t p.0)
            (λ _ u w. w)
