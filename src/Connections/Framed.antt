-- ===== src/Connections/Framed.antt =====
-- The start and the end of a frame keep the invariant of the table.
use xpilot_fxi.Prelude.{
  ℕ, ◌<◌, inl, inr, Bool, true, some, List, [], ◌∷◌, ◌++◌, ltb, ◌==◌, ◌&&◌, if◌then◌else◌, refl,
  Option-cases,
}
use xpilot_fxi.Prelude.Int.{ℤ, pos, minus_one, pattern32}
use xpilot_fxi.Net.Format.{Arg, num}
use xpilot_fxi.Net.Print.{printf}
use xpilot_fxi.Net.Sockbuf.{clear}
use xpilot_fxi.Connections.Server.{Connection, M, ◌>>=◌, ◌>>◌, resume, pure, change}
use xpilot_fxi.Connections.Reliable.{
  positive, is_ℕ, print_w, flush_w, send_reliable, max_reliable_data_packet_size,
}
use xpilot_fxi.Connections.Acks.{refuse}
use xpilot_fxi.Connections.Handshake.{is_minus_one}
use xpilot_fxi.Connections.Commands.{f_char, f_long}
use xpilot_fxi.Connections.Types.{pkt_start}
use xpilot_fxi.Connections.Frames.{
  is_playing, clear_w, begin_frame, send_start_of_frame, print_last, flush_frame, after_reliable,
  finish_frame, after_end, send_end_of_frame,
}
use xpilot_fxi.Connections.Safety.{Keeps, bind-Safe, if-Safe, if-Keeps}
use xpilot_fxi.Connections.Steps.{put-quiet, print_w-Keeps, flush_w-Keeps, send_reliable-Keeps}
use xpilot_fxi.Connections.Requests.{refuse-Keeps}
use xpilot_fxi.Connections.Welcome.{then-Keeps, quiet-Keeps}

module _ (n i : ℕ) (inside : i < n) (frame_loops : ℕ) where
  clear_w-Keeps : Keeps n (change i clear_w)
  unfolding clear
  clear_w-Keeps = quiet-Keeps n i inside clear_w (λ c. refl) (λ c l. l)

  begin_frame-Keeps : Keeps n (begin_frame i frame_loops)
  unfolding begin_frame
  begin_frame-Keeps =
      let args : Connection → List Arg =
        λ conn. num pkt_start ∷ num frame_loops ∷ num (pattern32 conn.last_key_change) ∷ [] in
      let next : ℤ → M ℤ = λ r. if positive r then pure (pos 0) else refuse i "write error" in
      let print : M ℤ =
        λ t. resume next (print_w i (f_char ++ f_long ++ f_long) (args (t.conns i)) t) in
      then-Keeps n (change i clear_w) (λ _. print) clear_w-Keeps
        (λ _ t w.
          bind-Safe n next (print_w i (f_char ++ f_long ++ f_long) (args (t.conns i)) t)
            (print_w-Keeps n i inside (f_char ++ f_long ++ f_long) (args (t.conns i)) t w)
            (λ r.
              if-Keeps n (positive r) (pure (pos 0)) (refuse i "write error") (λ x y. y)
                (refuse-Keeps n i inside "write error")))

  pub send_start_of_frame-Keeps : Keeps n (send_start_of_frame i frame_loops)
  unfolding send_start_of_frame
  send_start_of_frame-Keeps s v =
      if-Safe n (is_playing (s.conns i).state) (begin_frame i frame_loops s) (some (minus_one, s))
        (begin_frame-Keeps s v) v

  print_last-Keeps : (fmt : List ℕ) (args : List Arg) → Keeps n (print_last i frame_loops fmt args)
  unfolding print_last
  print_last-Keeps fmt args s v = elim (Option-cases (printf true (s.conns i).w fmt args)) [
    | inl e ↦ rw (e, print_last) tt
    | inr ((r, w'), e) ↦
        rw (e, print_last) (put-quiet n i inside (record (s.conns i) { w = w' }) s refl refl refl v)
  ]

  cleared : Keeps n (do change i clear_w; pure (pos 0))
  cleared = then-Keeps n (change i clear_w) (λ _. pure (pos 0)) clear_w-Keeps (λ _ t w. w)

  flush_frame-Keeps : Keeps n (flush_frame i frame_loops)
  unfolding flush_frame
  flush_frame-Keeps =
      let clears : M ℤ = (do change i clear_w; pure (pos 0)) in
      let next : ℤ × Bool → M ℤ =
        λ r. if is_minus_one r.0 then refuse i "flush error" else clears in
      then-Keeps n (flush_w i) next (flush_w-Keeps n i inside) (λ r.
        if-Keeps n (is_minus_one r.0) (refuse i "flush error") clears
          (refuse-Keeps n i inside "flush error") cleared)

  after_reliable-Keeps : (r : ℤ) → Keeps n (after_reliable i frame_loops r)
  unfolding after_reliable
  after_reliable-Keeps r s v =
      let empty = (s.conns i).w.len == 0 in
      if-Safe n (is_minus_one r) (some (minus_one, s))
        (if empty then some (pos 1, s) else flush_frame i frame_loops s) v
        (if-Safe n empty (some (pos 1, s)) (flush_frame i frame_loops s) v (flush_frame-Keeps s v))

  finish_frame-Keeps : Keeps n (finish_frame i frame_loops)
  unfolding finish_frame
  finish_frame-Keeps s v =
      let conn = s.conns i in
      if-Safe n (ltb 0 conn.c.len && ltb conn.w.len max_reliable_data_packet_size)
        ((send_reliable i >>= after_reliable i frame_loops) s) (flush_frame i frame_loops s)
        (bind-Safe n (after_reliable i frame_loops) (send_reliable i s)
          (send_reliable-Keeps n i inside s v) after_reliable-Keeps)
        (flush_frame-Keeps s v)

  after_end-Keeps : (r : ℤ) → Keeps n (after_end i frame_loops r)
  unfolding after_end
  after_end-Keeps r =
      let clears : M ℤ = (do change i clear_w; pure (pos 0)) in
      if-Keeps n (is_minus_one r) (refuse i "write error")
        (if is_ℕ r 0 then clears else finish_frame i frame_loops)
        (refuse-Keeps n i inside "write error")
        (if-Keeps n (is_ℕ r 0) clears (finish_frame i frame_loops) cleared finish_frame-Keeps)

  pub send_end_of_frame-Keeps : Keeps n (send_end_of_frame i frame_loops)
  unfolding send_end_of_frame
  send_end_of_frame-Keeps =
      then-Keeps n (print_last i frame_loops _ _) (after_end i frame_loops) (print_last-Keeps _ _)
        after_end-Keeps
