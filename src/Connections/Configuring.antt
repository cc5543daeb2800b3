-- ===== src/Connections/Configuring.antt =====
-- The setup keeps the invariant of the table.
use xpilot_fxi.Prelude.{
  ℕ, ◌<◌, inl, inr, Option, some, List, min, ltb, leb, ◌==◌, ◌&&◌, if◌then◌else◌, refl,
  Option-cases,
}
use xpilot_fxi.Prelude.Int.{ℤ, pos, minus_one}
use xpilot_fxi.Prelude.Memory.{load}
use xpilot_fxi.Net.Sockbuf.{write}
use xpilot_fxi.Connections.Server.{
  ConnState, free, listening, setup, login, playing, drain, ready, M, ◌>>=◌, ◌>>◌, pure, put,
  change, set_state, is_free,
}
use xpilot_fxi.Connections.Reliable.{positive, is_ℕ}
use xpilot_fxi.Connections.Acks.{refuse}
use xpilot_fxi.Connections.Handshake.{print_c}
use xpilot_fxi.Connections.Login.{
  Setup, setup_format, is_setup, write_c, setup_written, setup_end, setup_len, setup_piece,
  setup_first, handle_setup,
}
use xpilot_fxi.Connections.Invariant.{Legal}
use xpilot_fxi.Connections.Safety.{Keeps, bind-Safe, if-Safe, if-Keeps, IsSound-same}
use xpilot_fxi.Connections.Steps.{put-quiet}
use xpilot_fxi.Connections.Requests.{refuse-Keeps}
use xpilot_fxi.Connections.Welcome.{then-Keeps, quiet-Keeps, print_c-Keeps, drain-Keeps}

pub Legal-some :
    (state drain_state : ConnState) (old : Option ℕ) (pl : ℕ)
    → Legal state drain_state old
    → Legal state drain_state (some pl)
Legal-some free d old pl l = tt
Legal-some listening d old pl l = tt
Legal-some setup d old pl l = tt
Legal-some login d old pl l = tt
Legal-some playing d old pl l = λ e. cc
Legal-some drain d old pl l = l
Legal-some ready d old pl l = (l.0, λ e. cc)

module _ (n i : ℕ) (inside : i < n) where
  write_c-Keeps : (bytes : List ℕ) → Keeps n (write_c i bytes)
  unfolding write_c
  write_c-Keeps bytes s v = elim (Option-cases (write (s.conns i).c bytes s.outgoing)) [
    | inl e ↦ rw (e, write_c) tt
    | inr ((r, c', io), e) ↦
        rw (e, write_c)
          (IsSound-same n (put i (record (s.conns i) { c = c' }) s) _ refl refl refl refl
            (put-quiet n i inside (record (s.conns i) { c = c' }) s refl refl refl v))
  ]

  module _ (config : Setup) where
    setup_end-Keeps : Keeps n (setup_end config i)
    unfolding setup_end
    setup_end-Keeps s v =
        if-Keeps n (leb config.setup_size (s.conns i).setup_done)
          (do set_state i drain login; pure (pos 0)) (pure (pos 0))
          (drain-Keeps n i inside (pos 0) login (inr refl)) (λ t w. w) s v

    setup_piece-Keeps : Keeps n (setup_piece config i)
    unfolding setup_piece setup_written
    setup_piece-Keeps s v =
        let conn = s.conns i in
        let len = setup_len config conn in
        let written = change i (setup_written config s.fps len) in
        let next : ℤ → M ℤ = λ r.
          if is_ℕ r len
          then (do written; setup_end config i)
          else refuse i "sockbuf write setup error" in
        let piece = (write_c i (load config.bytes conn.setup_done len) >>= next) s in
        if-Safe n (leb config.setup_size conn.setup_done) (setup_end config i s)
          (if leb (min conn.c.size 4096) conn.c.len then some (pos 0, s) else piece)
          (setup_end-Keeps s v)
          (if-Safe n (leb (min conn.c.size 4096) conn.c.len) (some (pos 0, s)) piece v (
            bind-Safe n next (write_c i (load config.bytes conn.setup_done len) s)
              (write_c-Keeps (load config.bytes conn.setup_done len) s v)
              (λ r.
                if-Keeps n (is_ℕ r len) (do written; setup_end config i)
                  (refuse i "sockbuf write setup error")
                  (then-Keeps n written (λ _. setup_end config i)
                    (quiet-Keeps n i inside (setup_written config s.fps len) (λ c. refl) (λ c l. l))
                    (λ _. setup_end-Keeps))
                  (refuse-Keeps n i inside "sockbuf write setup error"))))

    setup_first-Keeps : Keeps n (setup_first config i)
    unfolding setup_first
    setup_first-Keeps =
        let begin : M ℤ = (do
          change i (λ conn. record conn { setup_done = config.map_data_at })
          setup_piece config i) in
        then-Keeps n (print_c i setup_format config.values)
          (λ r. if positive r then begin else refuse i "setup 0 write error")
          (print_c-Keeps n i inside setup_format config.values)
          (λ r.
            if-Keeps n (positive r) begin (refuse i "setup 0 write error")
              (then-Keeps n (change i (λ conn. record conn { setup_done = config.map_data_at }))
                (λ _. setup_piece config i)
                (quiet-Keeps n i inside (λ conn. record conn { setup_done = config.map_data_at })
                  (λ c. refl) (λ c l. l))
                (λ _. setup_piece-Keeps))
              (refuse-Keeps n i inside "setup 0 write error"))

    pub handle_setup-Keeps :
        (input : M (Unit {0})) → Keeps n input → Keeps n (handle_setup config input i)
    unfolding handle_setup
    handle_setup-Keeps input k s v =
        let conn = s.conns i in
        let after : Unit {0} → M ℤ =
          λ _ t. (if is_free (t.conns i).state then pure minus_one else setup_piece config i) t in
        let acked = (input >>= after) s in
        let unacked = ltb conn.setup_done config.setup_size && ltb 0 conn.c.len in
        if-Safe n (is_setup conn.state)
          (if conn.setup_done == 0
            then setup_first config i s
            else if unacked
            then acked
            else setup_piece config i s)
          (refuse i "not setup" s)
          (if-Safe n (conn.setup_done == 0) (setup_first config i s)
            (if unacked then acked else setup_piece config i s) (setup_first-Keeps s v)
            (if-Safe n unacked acked (setup_piece config i s)
              (bind-Safe n after (input s) (k s v) (λ _ t w.
                if-Keeps n (is_free (t.conns i).state) (pure minus_one) (setup_piece config i)
                  (λ x y. y) setup_piece-Keeps t w))
              (setup_piece-Keeps s v)))
          (refuse-Keeps n i inside "not setup" s v)
