-- ===== src/Connections/Frames.antt =====
-- server/netserver.c: `Send_start_of_frame` and `Send_end_of_frame`.
use xpilot_fxi.Prelude.{
  ℕ, Bool, true, false, none, some, List, [], ◌∷◌, ◌++◌, ltb, ◌==◌, ◌&&◌, if◌then◌else◌,
}
use xpilot_fxi.Prelude.Int.{ℤ, pos, minus_one, pattern32}
use xpilot_fxi.Net.Format.{Arg, num}
use xpilot_fxi.Net.Print.{printf}
use xpilot_fxi.Net.Sockbuf.{clear}
use xpilot_fxi.Connections.Server.{
  ConnState, playing, Connection, M, ◌>>=◌, ◌>>◌, pure, connection, put, change,
}
use xpilot_fxi.Connections.Reliable.{
  positive, is_ℕ, print_w, flush_w, send_reliable, max_reliable_data_packet_size,
}
use xpilot_fxi.Connections.Acks.{refuse}
use xpilot_fxi.Connections.Handshake.{is_minus_one}
use xpilot_fxi.Connections.Commands.{f_char, f_long}
use xpilot_fxi.Connections.Types.{pkt_start, pkt_end}

abbrev pub is_playing : ConnState → Bool
is_playing playing = true
is_playing _ = false

abbrev pub clear_w : Connection → Connection
clear_w conn = record conn { w = clear conn.w }

module _ (i frame_loops : ℕ) where
  -- The frame and the last keyboard update that was received.
  unfoldable pub begin_frame : M ℤ
  unfolding print_w refuse clear
  begin_frame = do
    change i clear_w
    conn ← connection i
    n ←
        print_w i (f_char ++ f_long ++ f_long)
          (num pkt_start ∷ num frame_loops ∷ num (pattern32 conn.last_key_change) ∷ [])
    if positive n then pure (pos 0) else refuse i "write error"

  -- `Send_start_of_frame`
  unfoldable pub send_start_of_frame : M ℤ
  unfolding begin_frame
  send_start_of_frame server =
      if is_playing (server.conns i).state then begin_frame server else some (minus_one, server)

  -- `Packet_printf(&connp->w, …)` at the end of a frame, which may use the spare room.
  unfoldable pub print_last : List ℕ → List Arg → M ℤ
  print_last fmt args server =
      let conn = server.conns i in
      elim (printf true conn.w fmt args) [
        | none ↦ none
        | some (r, w') ↦ some (r, put i (record conn { w = w' }) server)
      ]

  unfoldable pub flush_frame : M ℤ
  unfolding flush_w refuse clear
  flush_frame = do
    (n, later) ← flush_w i
    if is_minus_one n then refuse i "flush error" else (do change i clear_w; pure (pos 0))

  unfoldable pub after_reliable : ℤ → M ℤ
  unfolding flush_frame
  after_reliable n server =
      if is_minus_one n
      then some (minus_one, server)
      else if (server.conns i).w.len == 0
      then some (pos 1, server)
      else flush_frame server

  -- Reliable data goes with the frame, if there is some and the frame is not too big.
  unfoldable pub finish_frame : M ℤ
  unfolding flush_frame after_reliable
  finish_frame server =
      let conn = server.conns i in
      if ltb 0 conn.c.len && ltb conn.w.len max_reliable_data_packet_size
      then (send_reliable i >>= after_reliable) server
      else flush_frame server

  unfoldable pub after_end : ℤ → M ℤ
  unfolding finish_frame refuse clear
  after_end n =
      if is_minus_one n
      then refuse i "write error"
      else if is_ℕ n 0
      then (do change i clear_w; pure (pos 0))
      else finish_frame

  -- `Send_end_of_frame`
  unfoldable pub send_end_of_frame : M ℤ
  unfolding print_last after_end
  send_end_of_frame =
      print_last (f_char ++ f_long) (num pkt_end ∷ num frame_loops ∷ []) >>= after_end
