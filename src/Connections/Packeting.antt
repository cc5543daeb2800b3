-- ===== src/Connections/Packeting.antt =====
-- What one packet of `Send_reliable` hands to `send`, and how it ends.
use Prim.Native.String.{String}
use mathlib.Core.Path.{subst}
use xpilot_fxi.Prelude.{
  ℕ, zero, suc, ◌+◌, ◌≤◌, ◌<◌, ◌≡◌, inl, inr, Bool, true, Option, none, some, List, [], ◌∷◌, ◌++◌,
  leb, ◌==◌, ◌&&◌, length, arith, refl, sym, ap, ◌∙◌, append_assoc, Bool-cases, ==_refl,
}
use xpilot_fxi.Prelude.Int.{ℤ, pos, negsuc}
use xpilot_fxi.Prelude.Memory.{load}
use xpilot_fxi.Net.Sockbuf.{clear}
use xpilot_fxi.Connections.Server.{
  Connection, Server, ◌>>◌, resume, pure, put, Call, datagram, destroy, is_free,
}
use xpilot_fxi.Connections.Outcomes.{Post, put-same}
use xpilot_fxi.Connections.Buffers.{answers, IsOutput}
use xpilot_fxi.Connections.Reliable.{
  Round, gone, blocked, next, flush_w, after_flush, after_write, after_header, send_packet,
}
use xpilot_fxi.Connections.Sending.{
  Quiet, Adds, destroy-Quiet, head, length-head, filled, HasRoom, print_w-filled, write_w-filled,
  FlushedTo, IsSendable, flush_w-FlushedTo,
}

module _ (i : ℕ) (s : Server) (conn : Connection) where
  -- What became of a packet that filled the output buffer of `conn`.
  abbrev pub sent_now : Call
  sent_now = datagram conn.w.sock (load conn.w.buf 0 conn.w.len)

  abbrev pub Outcome : Round → Server → Type 0
  Outcome gone s' =
      Adds s (λ new. (rest : List Call) × (new ≡ sent_now ∷ rest) × Quiet rest) s'
      × (is_free (s'.conns i).state ≡ true)
  Outcome blocked s' =
      (s'.calls ≡ s.calls ++ (sent_now ∷ []))
      × (s'.conns i ≡ record conn { w = clear conn.w; acks = 0 })
      × (s'.main_loops ≡ s.main_loops)
      × (s'.fps ≡ s.fps)
  Outcome next s' =
      (s'.calls ≡ s.calls ++ (sent_now ∷ []))
      × (s'.conns i ≡ record conn { w = clear conn.w })
      × (s'.main_loops ≡ s.main_loops)
      × (s'.fps ≡ s.fps)
      × (answers s.outgoing ≤ answers s'.outgoing + 1)

  gone-Outcome :
      (reason : String) (s' : Server)
      → s'.calls ≡ s.calls ++ (sent_now ∷ [])
      → Post Outcome ((do destroy i reason; pure gone) s')
  gone-Outcome reason s' e = go (destroy i reason s') (destroy-Quiet i reason s')
    where
      go :
          (x : Option (Unit {0} × Server))
          → Post (λ r t. Adds s' Quiet t × (is_free (t.conns i).state ≡ true)) x
          → Post Outcome (resume (λ ignored. pure gone) x)
      go none p = p
      go (some (u, t)) ((new, grown, quiet), free) =
          ((sent_now ∷ new, simp (grown, e, append_assoc), (new, refl, quiet)), free)

  after_flush-Outcome :
      (len : ℕ) (r : ℤ) (later : Bool) (s' : Server)
      → 0 < len
      → FlushedTo i s conn r s'
      → Post Outcome (after_flush i len (r, later) s')
  unfolding after_flush
  after_flush-Outcome len (negsuc n) later s' pos_len (w', io', e, f, a) =
      gone-Outcome "flush error" s' (rw e)
  after_flush-Outcome len (pos n) later s' pos_len (w', io', e, f, a) =
      let cleared : w' ≡ clear conn.w = elim f [ inl c ↦ c | inr bad ↦ cc ] in
      let here : s'.conns i ≡ record conn { w = clear conn.w } =
        ap (λ (t : Server). t.conns i) e
        ∙ put-same i (record conn { w = w' }) s
        ∙ ap (λ w. record conn { w = w }) cleared in
      elim (Bool-cases (leb len n)) [
        | inl all_sent ↦ rw all_sent (rw e, here, rw e, rw e, rw e a)
        | inr less ↦ elim (Bool-cases ((n == 0) && later)) [
          | inl b ↦
              rw (less, b)
                (
                  rw e,
                  put-same i (record (s'.conns i) { acks = 0 }) s'
                      ∙ ap (λ (c : Connection). record c { acks = 0 }) here,
                  rw e,
                  rw e,
                )
          | inr b ↦ rw (less, b) (gone-Outcome "flush error" s' (rw e))
        ]
      ]

pub length-load : (m : ℕ → ℕ) (i n : ℕ) → length (load m i n) ≡ n
unfolding load
length-load m i zero = refl
length-load m i (suc n) = omega (arith, length-load m (i + 1) n)

-- The connection with the packet in its output buffer.
abbrev pub with_head : ℕ → ℕ → ℕ → Connection → Connection
with_head len off loops conn = record conn { w = filled conn.w (head len off loops) }

abbrev pub with_packet : ℕ → ℕ → ℕ → ℕ → Connection → Connection
with_packet len off at loops conn = record conn {
  w = filled (filled conn.w (head len off loops)) (load conn.c.buf at len);
}

abbrev pub printed : ℕ → ℕ → ℕ → Server → Server
printed i len off s = put i (with_head len off s.main_loops (s.conns i)) s

abbrev pub loaded : ℕ → ℕ → ℕ → ℕ → Server → Server
loaded i len off at s =
    put i (with_packet len off at s.main_loops (s.conns i)) (printed i len off s)

after_write-Outcome :
    (i len : ℕ) (s : Server)
    → 0 < len
    → IsSendable s (s.conns i)
    → Post (Outcome i s (s.conns i)) (after_write i len (pos len) s)
unfolding after_write
after_write-Outcome i len s h r =
    rw (==_refl len, after_write) (go (flush_w i s) (flush_w-FlushedTo i s r))
  where
    go :
        (x : Option ((ℤ × Bool) × Server))
        → Post (λ r s'. FlushedTo i s (s.conns i) r.0 s') x
        → Post (Outcome i s (s.conns i)) (resume (after_flush i len) x)
    go none p = elim p [ ]
    go (some ((r, later), s')) p = after_flush-Outcome i s (s.conns i) len r later s' h p

pub send_packet-Outcome :
    (i len off at : ℕ) (s : Server)
    → 0 < len
    → IsOutput (s.conns i).w
    → HasRoom (s.conns i).w len
    → 0 < answers s.outgoing
    → let conn = with_packet len off at s.main_loops (s.conns i) in
      Post (Outcome i (loaded i len off at s) conn) (send_packet i len off at s)
unfolding send_packet after_header
send_packet-Outcome i len off at s h o r a =
    let conn = s.conns i in
    let s1 = printed i len off s in
    let s2 = loaded i len off at s in
    let e1 : s1.conns i ≡ with_head len off s.main_loops conn = put-same i _ s in
    let e2 : s2.conns i ≡ with_packet len off at s.main_loops conn = put-same i _ s1 in
    let data_len = length-load conn.c.buf at len in
    let stored =
      write_w-filled i (load conn.c.buf at len) s1 (with_head len off s.main_loops conn) e1 o.writes
        (omega (arith, length-head len off s.main_loops, data_len)) in
    let run : send_packet i len off at s
        ≡ after_write i len (pos (length (load conn.c.buf at len))) s2 =
      rw (send_packet, print_w-filled i len off s conn refl r, after_header, ==_refl i, stored)
        refl in
    let is_ready : IsSendable s2 (s2.conns i) =
      subst (λ (c : Connection). IsSendable s2 c) (sym e2)
        (
          record { writes = o.writes; open_now = o.open_now; dgram = o.dgram },
          omega (arith, length-head len off s.main_loops),
          a,
        ) in
    subst
      (λ (x : Option (Round × Server)).
        Post (Outcome i s2 (with_packet len off at s.main_loops conn)) x)
      (sym (run ∙ ap (λ n. after_write i len (pos n) s2) data_len))
      (subst (λ (c : Connection). Post (Outcome i s2 c) (after_write i len (pos len) s2)) e2
        (after_write-Outcome i len s2 h is_ready))
