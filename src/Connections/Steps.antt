-- ===== src/Connections/Steps.antt =====
-- `Send_reliable`, `Receive_ack` and the handshake keep the invariant of the table.
use Prim.Native.String.{String}
use xpilot_fxi.Prelude.{
  ℕ, zero, suc, ◌+◌, ◌-◌, ◌/◌, ◌<◌, ◌≡◌, inl, inr, Bool, false, Option, none, some, List, min, ltb,
  leb, ◌==◌, ◌&&◌, ◌||◌, if◌then◌else◌, arith, refl, Option-cases,
}
use xpilot_fxi.Prelude.Int.{ℤ, pos, negsuc}
use xpilot_fxi.Prelude.Memory.{load}
use xpilot_fxi.Net.Format.{Arg}
use xpilot_fxi.Net.Print.{printf}
use xpilot_fxi.Net.Sockbuf.{write, flush, clear}
use xpilot_fxi.Connections.Server.{
  Connection, Server, M, ◌>>=◌, ◌>>◌, resume, pure, put, change, destroy,
}
use xpilot_fxi.Connections.Reliable.{
  print_w, write_w, flush_w, after_flush, write_error, after_write, after_header, send_packet,
  send_loop, Round, gone, blocked, next, after_loop, transmit, when_due, room_behind, send_reliable,
  positive, is_ℕ, max_reliable_data_packet_size, set_timer, mark_sent, nothing_new, header,
  reliable_format,
}
use xpilot_fxi.Connections.Invariant.{IsSound, Safe, put-IsSound}
use xpilot_fxi.Connections.Safety.{
  Keeps, bind-Safe, if-Safe, if-Keeps, IsSound-same, change-Keeps, destroy-Keeps,
}

module _ (n i : ℕ) (inside : i < n) where
  -- A connection that differs in no field that the invariant reads.
  pub put-quiet :
      (conn : Connection) (s : Server)
      → conn.state ≡ (s.conns i).state
      → conn.drain_state ≡ (s.conns i).drain_state
      → conn.pl ≡ (s.conns i).pl
      → IsSound n s
      → IsSound n (put i conn s)
  put-quiet conn s a b c v = put-IsSound n i inside conn s a (rw (a, b, c) (v.legal i)) v

  pub print_w-Keeps : (fmt : List ℕ) (args : List Arg) → Keeps n (print_w i fmt args)
  unfolding print_w
  print_w-Keeps fmt args s v = elim (Option-cases (printf false (s.conns i).w fmt args)) [
    | inl e ↦ rw (e, print_w) tt
    | inr ((r, w'), e) ↦
        rw (e, print_w) (put-quiet (record (s.conns i) { w = w' }) s refl refl refl v)
  ]

  write_w-Keeps : (bytes : List ℕ) → Keeps n (write_w i bytes)
  unfolding write_w
  write_w-Keeps bytes s v = elim (Option-cases (write (s.conns i).w bytes s.outgoing)) [
    | inl e ↦ rw (e, write_w) tt
    | inr ((r, w', io), e) ↦
        rw (e, write_w)
          (IsSound-same n (put i (record (s.conns i) { w = w' }) s) _ refl refl refl refl
            (put-quiet (record (s.conns i) { w = w' }) s refl refl refl v))
  ]

  pub flush_w-Keeps : Keeps n (flush_w i)
  unfolding flush_w
  flush_w-Keeps s v = elim (Option-cases (flush (s.conns i).w s.outgoing)) [
    | inl e ↦ rw (e, flush_w) tt
    | inr ((r, w', io), e) ↦
        rw (e, flush_w)
          (IsSound-same n (put i (record (s.conns i) { w = w' }) s) _ refl refl refl refl
            (put-quiet (record (s.conns i) { w = w' }) s refl refl refl v))
  ]

  -- A connection is destroyed, and the code goes on with a result.
  pub destroy_then : {A : Type 0} (a : A) (reason : String) → Keeps n (do destroy i reason; pure a)
  destroy_then a reason s v =
      bind-Safe n (λ _. pure a) (destroy i reason s) (destroy-Keeps n i inside reason s v)
        (λ _ s' v'. v')

  after_flush-Keeps : (len : ℕ) (r : ℤ × Bool) → Keeps n (after_flush i len r)
  unfolding after_flush
  after_flush-Keeps len (negsuc k, later) s v = destroy_then gone "flush error" s v
  after_flush-Keeps len (pos k, later) s v =
      if-Keeps n (leb len k) (pure next) _ (λ t w. w)
        (if-Keeps n ((k == 0) && later)
          (do change i (λ conn. record conn { acks = 0 }); pure blocked)
          (do destroy i "flush error"; pure gone)
          (λ t w.
            change-Keeps n i inside (λ conn. record conn { acks = 0 }) (λ c. (refl, λ l. l)) t w)
          (destroy_then gone "flush error"))
        s v

  after_write-Keeps : (len : ℕ) (r : ℤ) → Keeps n (after_write i len r)
  unfolding after_write
  after_write-Keeps len r s v =
      if-Keeps n (is_ℕ r len) (flush_w i >>= after_flush i len) (write_error i)
        (λ t w.
          bind-Safe n (after_flush i len) (flush_w i t) (flush_w-Keeps t w) (after_flush-Keeps len))
        (destroy_then gone "write error") s v

  after_header-Keeps : (len at : ℕ) (r : ℤ) → Keeps n (after_header i len at r)
  unfolding after_header
  after_header-Keeps len at r s v =
      if-Keeps n (positive r)
        (λ t. resume (after_write i len) (write_w i (load (t.conns i).c.buf at len) t))
        (write_error i)
        (λ t w.
          bind-Safe n (after_write i len) (write_w i (load (t.conns i).c.buf at len) t)
            (write_w-Keeps (load (t.conns i).c.buf at len) t w) (after_write-Keeps len))
        (destroy_then gone "write error") s v

  send_packet-Keeps : (len off at : ℕ) → Keeps n (send_packet i len off at)
  unfolding send_packet
  send_packet-Keeps len off at s v =
      bind-Safe n (after_header i len at)
        (print_w i reliable_format (header len off s.main_loops) s)
        (print_w-Keeps reliable_format (header len off s.main_loops) s v)
        (after_header-Keeps len at)

  abbrev go_on : ℕ → M (Option ℕ) → Round → M (Option ℕ)
  go_on todo rest what = elim what [ gone ↦ pure none | blocked ↦ pure (some todo) | next ↦ rest ]

  go_on-Keeps :
      (todo : ℕ) (rest : M (Option ℕ)) (what : Round)
      → Keeps n rest
      → Keeps n (go_on todo rest what)
  go_on-Keeps todo rest gone k s v = v
  go_on-Keeps todo rest blocked k s v = v
  go_on-Keeps todo rest next k s v = k s v

  send_loop-Keeps : (rounds todo off at : ℕ) → Keeps n (send_loop i rounds todo off at)
  unfolding send_loop
  send_loop-Keeps zero todo off at s v = v
  send_loop-Keeps (suc rounds) zero off at s v = v
  send_loop-Keeps (suc rounds) (suc t) off at s v =
      let len = min (suc t) max_reliable_data_packet_size in
      let rest = send_loop i rounds (suc t - len) (off + len) (at + len) in
      bind-Safe n (go_on (suc t) rest) (send_packet i len off at s)
        (send_packet-Keeps len off at s v)
        (λ what.
          go_on-Keeps (suc t) rest what
            (send_loop-Keeps rounds (suc t - len) (off + len) (at + len)))

  set_timer-quiet :
      (fps loops : ℕ) (conn : Connection)
      → let c = set_timer fps loops conn in
        (c.state ≡ conn.state) × (c.drain_state ≡ conn.drain_state) × (c.pl ≡ conn.pl)
  unfolding set_timer
  set_timer-quiet fps loops conn = (ground arith, ground arith, ground arith)

  after_loop-Keeps : (max_todo off : ℕ) (left : Option ℕ) → Keeps n (after_loop i max_todo off left)
  unfolding after_loop
  after_loop-Keeps max_todo off none s v = v
  after_loop-Keeps max_todo off (some left) s v =
      let quiet : Connection = record (s.conns i) {
        w = clear (s.conns i).w;
        last_send_loops = s.main_loops;
      } in
      let timed = set_timer s.fps s.main_loops quiet in
      let marked = mark_sent (off + (max_todo - left)) timed in
      let same = set_timer-quiet s.fps s.main_loops quiet in
      if-Safe n (leb max_todo left) (some (pos 0, put i quiet s))
        (some (pos (max_todo - left), put i marked s)) (put-quiet quiet s refl refl refl v)
        (put-quiet marked s same.0 same.1 same.2 v)

  transmit-Keeps : (max_todo : ℕ) → Keeps n (transmit i max_todo)
  unfolding transmit
  transmit-Keeps max_todo s v =
      let conn = s.conns i in
      bind-Safe n (after_loop i max_todo conn.reliable_offset)
        (send_loop i (conn.acks + 1) max_todo conn.reliable_offset 0 s)
        (send_loop-Keeps (conn.acks + 1) max_todo conn.reliable_offset 0 s v)
        (after_loop-Keeps max_todo conn.reliable_offset)

  when_due-Keeps : (max_todo : ℕ) → Keeps n (when_due i max_todo)
  unfolding when_due
  when_due-Keeps max_todo s v =
      let conn = s.conns i in
      let halved : Connection = record conn { acks = conn.acks / 2 } in
      let send = transmit i max_todo s in
      let resend = transmit i max_todo (put i halved s) in
      let sent = transmit-Keeps max_todo s v in
      if-Safe n (ltb s.main_loops conn.retransmit_at_loop)
        (if nothing_new max_todo conn then some (pos 0, s) else send)
        (if conn.retransmit_at_loop == 0 then send else resend)
        (if-Safe n (nothing_new max_todo conn) (some (pos 0, s)) send v sent)
        (if-Safe n (conn.retransmit_at_loop == 0) send resend sent
          (transmit-Keeps max_todo (put i halved s) (put-quiet halved s refl refl refl v)))

  pub send_reliable-Keeps : Keeps n (send_reliable i)
  unfolding send_reliable
  send_reliable-Keeps s v =
      let conn = s.conns i in
      let idle : Connection = record conn { last_send_loops = s.main_loops } in
      let work : Option (ℤ × Server) = elim (room_behind conn) [
        | none ↦ some (pos 0, s)
        | some max_todo ↦ when_due i max_todo s
      ] in
      if-Safe n ((conn.c.len == 0) || (conn.last_send_loops == s.main_loops))
        (some (pos 0, put i idle s)) work (put-quiet idle s refl refl refl v)
        (elim (room_behind conn)
          as (λ (x : Option ℕ).
            Safe n (elim x [ none ↦ some (pos 0, s) | some max_todo ↦ when_due i max_todo s ])) [
              | none ↦ v
              | some max_todo ↦ when_due-Keeps max_todo s v
            ])
