-- ===== src/Connections/Entering.antt =====
-- The login and the start of play keep the invariant of the table.
use xpilot_fxi.Prelude.{
  ℕ, ◌<◌, inl, inr, Bool, true, false, Option, none, some, List, [], ◌∷◌, ◌==◌, if◌then◌else◌, refl,
  Option-cases, ==_refl,
}
use xpilot_fxi.Prelude.Int.{ℤ, pos, minus_one}
use xpilot_fxi.Net.Format.{Arg, num, str}
use xpilot_fxi.Net.Sockbuf.{clear}
use xpilot_fxi.Connections.Server.{
  ConnState, free, listening, setup, login, playing, drain, ready, Connection, Server, M, ◌>>=◌,
  ◌>>◌, pure, put, change, set_state, destroy,
}
use xpilot_fxi.Connections.Reliable.{positive, is_ℕ, send_reliable}
use xpilot_fxi.Connections.Acks.{scan_r, refuse, pkt_play, pkt_success}
use xpilot_fxi.Connections.Handshake.{send_reply, is_minus_one}
use xpilot_fxi.Connections.Login.{
  Login, pick_team, enter, place, handle_login, start_play, play_state, play_values, play_format,
  receive_play, receive_discard, count_login,
}
use xpilot_fxi.Connections.Invariant.{Safe, set_state-Safe, put-IsSound}
use xpilot_fxi.Connections.Safety.{Keeps, bind-Safe, if-Safe, if-Keeps, IsSound-same}
use xpilot_fxi.Connections.Steps.{put-quiet, destroy_then, send_reliable-Keeps}
use xpilot_fxi.Connections.Requests.{scan_r-Keeps, refuse-Keeps}
use xpilot_fxi.Connections.Welcome.{then-Keeps, quiet-Keeps, send_reply-Keeps}
use xpilot_fxi.Connections.Configuring.{Legal-some}

module _ (n i : ℕ) (inside : i < n) where
  enter-Keeps : (answers : Login) → Keeps n (enter i answers)
  unfolding enter
  enter-Keeps answers s v =
      let owned : Connection = record (s.conns i) { pl = some answers.pl } in
      let s1 = put i owned s in
      let v1 =
        put-IsSound n i inside owned s refl
          (Legal-some (s.conns i).state (s.conns i).drain_state (s.conns i).pl answers.pl
            (v.legal i))
          v in
      let greet : M Bool = (do
        change i (λ conn. record conn { c = answers.introduce conn.c })
        count_login
        pure true) in
      let fail : M Bool = (do destroy i "error initializing the player"; pure false) in
      let crash : M Bool = λ server. none in
      let next : ℤ → M Bool =
        λ r. if positive r then greet else if is_minus_one r then crash else fail in
      bind-Safe n (λ _. send_reply i pkt_play pkt_success >>= next) (set_state i ready playing s1)
        (set_state-Safe n i inside ready playing s1 (rw (==_refl i) (refl, λ e. cc)) v1)
        (λ _.
          then-Keeps n (send_reply i pkt_play pkt_success) next
            (send_reply-Keeps n i inside pkt_play pkt_success)
            (λ r.
              if-Keeps n (positive r) greet (if is_minus_one r then crash else fail)
                (then-Keeps n (change i (λ conn. record conn { c = answers.introduce conn.c }))
                  (λ _. do count_login; pure true)
                  (quiet-Keeps n i inside (λ conn. record conn { c = answers.introduce conn.c })
                    (λ c. refl) (λ c l. l))
                  (λ _ t w. IsSound-same n t _ refl refl refl refl w))
                (if-Keeps n (is_minus_one r) crash fail (λ t w. tt)
                  (destroy_then n i inside false "error initializing the player"))))

  place-Keeps : (answers : Login) → Keeps n (place i answers)
  unfolding place
  place-Keeps answers s v = elim (Option-cases answers.base) [
    | inl e ↦ rw (e, place) tt
    | inr (b, e) ↦ rw (e, place) (enter-Keeps answers s v)
  ]

  handle_login-Keeps : (answers : Login) → Keeps n (handle_login i answers)
  unfolding handle_login
  handle_login-Keeps answers s v =
      let conn = s.conns i in
      let with_team : Option ℕ → Server = λ team. put i (record conn { team = team }) s in
      let goes : Option (Option ℕ) → Option (Bool × Server) = λ picked. elim picked [
        | none ↦ some (false, s)
        | some team ↦
            if answers.name_used
            then some (false, with_team team)
            else place i answers (with_team team)
      ] in
      let joined = λ (team : Option ℕ).
        put-quiet n i inside (record conn { team = team }) s refl refl refl v in
      let safe : (picked : Option (Option ℕ)) → Safe n (goes picked) = λ picked.
        elim picked as (λ p. Safe n (goes p)) [
          | none ↦ v
          | some team ↦
              if-Safe n answers.name_used (some (false, with_team team))
                (place i answers (with_team team)) (joined team)
                (place-Keeps answers (with_team team) (joined team))
        ] in
      if-Safe n answers.has_place (goes (pick_team answers conn.team)) (some (false, s))
        (safe (pick_team answers conn.team)) v

  start_play-Keeps : (answers : Login) → Keeps n (start_play i answers)
  unfolding start_play
  start_play-Keeps answers =
      let next : Bool → M ℤ = λ ok. if ok then pure (pos 2) else refuse i "login failed" in
      then-Keeps n (change i (λ conn. record conn { w = clear conn.w }))
        (λ _. handle_login i answers >>= next)
        (quiet-Keeps n i inside (λ conn. record conn { w = clear conn.w }) (λ c. refl) (λ c l. l))
        (λ _. then-Keeps n (handle_login i answers) next (handle_login-Keeps answers) (λ ok.
          if-Keeps n ok (pure (pos 2)) (refuse i "login failed") (λ t w. w)
            (refuse-Keeps n i inside "login failed")))

  play_state-Keeps : (answers : Login) → Keeps n (play_state i answers)
  unfolding play_state
  play_state-Keeps answers s v =
      let again : M ℤ = (do
        r ← send_reliable i
        if is_minus_one r then pure minus_one else pure (pos 0)) in
      let skip =
        put i (record (s.conns i) { r = record (s.conns i).r { ptr = (s.conns i).r.len } }) s in
      let goes : ConnState → Option (ℤ × Server) = λ state. elim state [
        | login ↦ start_play i answers s
        | playing ↦ again s
        | ready ↦ some (pos 0, skip)
        | _ ↦ refuse i "not login" s
      ] in
      let no = refuse-Keeps n i inside "not login" s v in
      elim (s.conns i).state as (λ state. Safe n (goes state)) [
        | login ↦ start_play-Keeps answers s v
        | playing ↦
            then-Keeps n (send_reliable i)
              (λ r. if is_minus_one r then pure minus_one else pure (pos 0))
              (send_reliable-Keeps n i inside)
              (λ r.
                if-Keeps n (is_minus_one r) (pure minus_one) (pure (pos 0)) (λ t w. w) (λ t w. w))
              s v
        | ready ↦
            put-quiet n i inside
              (record (s.conns i) { r = record (s.conns i).r { ptr = (s.conns i).r.len } }) s refl
              refl refl v
        | free ↦ no
        | listening ↦ no
        | setup ↦ no
        | drain ↦ no
      ]

  play_values-Keeps : (answers : Login) (values : List Arg) → Keeps n (play_values i answers values)
  unfolding play_values
  play_values-Keeps answers (num ch ∷ []) s v =
      if-Keeps n (ch == pkt_play) (play_state i answers) (refuse i "not play")
        (play_state-Keeps answers) (refuse-Keeps n i inside "not play") s v
  play_values-Keeps answers [] s v = tt
  play_values-Keeps answers (str a ∷ rest) s v = tt
  play_values-Keeps answers (num a ∷ b ∷ rest) s v = tt

  pub receive_play-Keeps : (answers : Login) → Keeps n (receive_play i answers)
  unfolding receive_play
  receive_play-Keeps answers =
      let next : ℤ × List Arg → M ℤ =
        λ r. if is_ℕ r.0 1 then play_values i answers r.1 else refuse i "receive error" in
      then-Keeps n (scan_r i play_format) next (scan_r-Keeps n i inside play_format) (λ r.
        if-Keeps n (is_ℕ r.0 1) (play_values i answers r.1) (refuse i "receive error")
          (play_values-Keeps answers r.1) (refuse-Keeps n i inside "receive error"))

  pub receive_discard-Keeps : Keeps n (receive_discard i)
  unfolding receive_discard
  receive_discard-Keeps =
      let skip : Connection → Connection =
        λ conn. record conn { r = record conn.r { ptr = conn.r.len } } in
      then-Keeps n (change i skip) (λ _. pure (pos 0))
        (quiet-Keeps n i inside skip (λ c. refl) (λ c l. l)) (λ _ s v. v)
