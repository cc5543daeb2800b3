-- ===== src/Connections/Stream.antt =====
-- `Send_reliable` against the stream of all the reliable data of a connection.
use mathlib.Core.Path.{subst}
use xpilot_fxi.Prelude.{
  ℕ, zero, suc, ◌+◌, ◌-◌, ◌*◌, ◌≤◌, ◌<◌, ◌≡◌, true, Option, none, some, List, [], ◌∷◌, ◌++◌, min,
  arith, refl, sym, ap, ap₂, ◌∙◌, append_assoc, append-nil, length-append,
}
use xpilot_fxi.Prelude.Memory.{load}
use xpilot_fxi.Net.Wire.{store-append}
use xpilot_fxi.Net.Sockbuf.{Sockbuf, clear}
use xpilot_fxi.Connections.Server.{Connection, Server, M, resume, pure, Call, datagram, is_free}
use xpilot_fxi.Connections.Outcomes.{Post, Post-map}
use xpilot_fxi.Connections.Buffers.{answers, IsOutput, load-same, load-store_all}
use xpilot_fxi.Connections.Reliable.{
  Round, gone, blocked, next, send_packet, send_loop, max_reliable_data_packet_size,
}
use xpilot_fxi.Connections.Sending.{Quiet, Adds, reliable_packet, head}
use xpilot_fxi.Connections.Packeting.{Outcome, sent_now, with_packet, loaded, send_packet-Outcome}

module _ (S : ℕ → ℕ) (sock loops : ℕ) where
  -- The datagrams among some calls carry slices of `S`, one behind the other from `off` to `end`,
  -- the first of them behind `front`.
  abbrev pub Sends : List ℕ → ℕ → ℕ → List Call → Type 0
  Sends front off end [] = off ≡ end
  Sends front off end (datagram k bytes ∷ cs) =
      (len : ℕ) × (0 < len)
      × (len ≤ max_reliable_data_packet_size)
      × (k ≡ sock)
      × (bytes ≡ front ++ reliable_packet S loops off len)
      × Sends [] (off + len) end cs
  Sends front off end (c ∷ cs) = Sends front off end cs

  Sends-Quiet : (cs : List Call) (front : List ℕ) (off : ℕ) → Quiet cs → Sends front off off cs
  Sends-Quiet [] front off q = refl
  Sends-Quiet (datagram k bytes ∷ cs) front off q = absurd q
  Sends-Quiet (Call.goodbye k r ∷ cs) front off q = Sends-Quiet cs front off q
  Sends-Quiet (Call.remove_input k ∷ cs) front off q = Sends-Quiet cs front off q
  Sends-Quiet (Call.install_input k ∷ cs) front off q = Sends-Quiet cs front off q
  Sends-Quiet (Call.player_remove k ∷ cs) front off q = Sends-Quiet cs front off q
  Sends-Quiet (Call.set_power p k v ∷ cs) front off q = Sends-Quiet cs front off q
  Sends-Quiet (Call.turn p k ∷ cs) front off q = Sends-Quiet cs front off q
  Sends-Quiet (Call.set_fps p k ∷ cs) front off q = Sends-Quiet cs front off q
  Sends-Quiet (Call.fuel_seen p k ∷ cs) front off q = Sends-Quiet cs front off q

-- What is in the output buffer once the packet is in it.
load-with_packet :
    (S : ℕ → ℕ) (len off at loops : ℕ) (conn : Connection)
    → load conn.c.buf at len ≡ load S off len
    → let w = (with_packet len off at loops conn).w in
      load w.buf 0 w.len ≡ load conn.w.buf 0 conn.w.len ++ reliable_packet S loops off len
load-with_packet S len off at loops conn same =
    let bytes = head len off loops ++ load conn.c.buf at len in
    ap₂ (λ m n. load m 0 n)
      (store-append (head len off loops) (load conn.c.buf at len) conn.w.buf conn.w.len)
      (omega (arith, length-append (head len off loops) (load conn.c.buf at len)))
    ∙ load-store_all conn.w.buf conn.w.len bytes
    ∙ ap (λ l. load conn.w.buf 0 conn.w.len ++ (head len off loops ++ l)) same

-- `S` is the stream, of which the reliable data of the connection is what follows `base`.
abbrev pub Holds : (ℕ → ℕ) → ℕ → Connection → Type 0
Holds S base conn = (j : ℕ) → j < conn.c.len → conn.c.buf j ≡ S (base + j)

abbrev pub server_send_size : ℕ
server_send_size = 4 * 1024

-- The connection is as `Setup_connection` made it, and no more than a frame waits to be sent.
pub record IsOpen (conn : Connection) : Type 0 where
  pub output : IsOutput conn.w
  pub size : conn.w.size ≡ server_send_size
  pub frame : conn.w.len ≤ max_reliable_data_packet_size

-- What the loop did, where `todo` bytes from offset `off` on were to be sent.
abbrev pub Looped : (ℕ → ℕ) → ℕ → Server → Connection → ℕ → ℕ → Option ℕ → Server → Type 0
Looped S i s conn todo off rest s' =
    Adds s
      (λ new.
        (end : ℕ) × Sends S conn.w.sock s.main_loops (load conn.w.buf 0 conn.w.len) off end new
        × (elim rest as (λ _. Type 0) [
          | none ↦ is_free (s'.conns i).state ≡ true
          | some left ↦
              (left ≤ todo)
              × (off + (todo - left) ≤ end)
              × (s'.main_loops ≡ s.main_loops)
              × (s'.fps ≡ s.fps)
              × ((w : Sockbuf) × (acks : ℕ) × (s'.conns i ≡ record conn { w = w; acks = acks }))
        ]))
      s'

-- One packet of `len` bytes before the rest of the loop.
module _ (S : ℕ → ℕ) (i len t off at : ℕ) (s : Server) (conn : Connection) (pos_len : 0 < len)
    (small : len ≤ max_reliable_data_packet_size) (some_left : len ≤ t)
    (same : load conn.c.buf at len ≡ load S off len) where
  abbrev now : Connection
  now = with_packet len off at s.main_loops conn

  abbrev emptied : Connection
  emptied = record now { w = clear now.w }

  IsOpen-emptied : IsOpen conn → IsOpen emptied
  unfolding clear
  IsOpen-emptied o = record {
    output = record {
      writes = o.output.writes;
      open_now = o.output.open_now;
      dgram = o.output.dgram;
    };
    size = o.size;
    frame = omega arith;
  }

  sent-Sends :
      (end : ℕ) (rest : List Call)
      → Sends S conn.w.sock s.main_loops [] (off + len) end rest
      → Sends S conn.w.sock s.main_loops
          (load conn.w.buf 0 conn.w.len)
          off
          end
          (sent_now i s now ∷ rest)
  sent-Sends end rest r =
      (len, pos_len, small, refl, load-with_packet S len off at s.main_loops conn same, r)

  Looped-next :
      (s1 s' : Server) (left : Option ℕ)
      → Outcome i (loaded i len off at s) now next s1
      → Looped S i s1 emptied (t - len) (off + len) left s'
      → Looped S i s conn t off left s'
  unfolding clear load
  Looped-next s1 s' none (grown, e1, loops, fps, more) (new, calls, (end, sends, u)) = (
    sent_now i s now ∷ new,
    simp (calls, grown, append_assoc),
    (
      end,
      sent-Sends end new (subst (λ n. Sends S conn.w.sock n [] (off + len) end new) loops sends),
      u,
    ),
  )
  Looped-next s1 s' (some left) (grown, e1, loops, fps, more)
        (new, calls, (end, sends, (l, le, ml, f, c))) =
      (
        sent_now i s now ∷ new,
        simp (calls, grown, append_assoc),
        (
          end,
          sent-Sends end new
              (subst (λ n. Sends S conn.w.sock n [] (off + len) end new) loops sends),
          (omega arith, omega arith, ml ∙ loops, f ∙ fps, c),
        ),
      )

  abbrev continue : M (Option ℕ) → Round → M (Option ℕ)
  continue rest what = elim what [ gone ↦ pure none | blocked ↦ pure (some t) | next ↦ rest ]

  Looped-step :
      (rest : M (Option ℕ))
      → ((s1 : Server)
          → s1.conns i ≡ emptied
          → answers s.outgoing ≤ answers s1.outgoing + 1
          → Post (Looped S i s1 emptied (t - len) (off + len)) (rest s1))
      → (x : Option (Round × Server)) → Post (Outcome i (loaded i len off at s) now) x
      → Post (Looped S i s conn t off) (resume (continue rest) x)
  Looped-step rest ih none p = p
  Looped-step rest ih (some (gone, s1)) ((new, calls, (more, e, quiet)), free) = (
    sent_now i s now ∷ more,
    rw (calls, e),
    (
      off + len,
      sent-Sends (off + len) more
          (Sends-Quiet S conn.w.sock s.main_loops more [] (off + len) quiet),
      free,
    ),
  )
  Looped-step rest ih (some (blocked, s1)) (calls, e1, loops, fps) = (
    sent_now i s now ∷ [],
    calls,
    (
      off + len,
      sent-Sends (off + len) [] refl,
      (omega arith, omega arith, loops, fps, (clear now.w, 0, e1)),
    ),
  )
  Looped-step rest ih (some (next, s1)) p =
      Post-map (Looped S i s1 emptied (t - len) (off + len)) (Looped S i s conn t off) (rest s1)
        (ih s1 p.1 p.4) (λ left s' l. Looped-next s1 s' left p l)

packet-Outcome :
    (i len off at : ℕ) (s : Server) (conn : Connection)
    → s.conns i ≡ conn
    → 0 < len
    → IsOpen conn
    → len ≤ max_reliable_data_packet_size
    → 0 < answers s.outgoing
    → Post
        (Outcome i (loaded i len off at s) (with_packet len off at s.main_loops conn))
        (send_packet i len off at s)
packet-Outcome i len off at s conn e h o small a =
    subst
      (λ (c : Connection).
        IsOpen c
        → Post (Outcome i (loaded i len off at s) (with_packet len off at s.main_loops c))
            (send_packet i len off at s))
      e (λ p. send_packet-Outcome i len off at s h p.output (omega (arith, p.size, p.frame)) a) o

module _ (S : ℕ → ℕ) (i base : ℕ) where
  pub send_loop-Looped :
      (rounds todo off at : ℕ) (s : Server) (conn : Connection)
      → s.conns i ≡ conn
      → IsOpen conn
      → Holds S base conn
      → rounds ≤ answers s.outgoing
      → at + todo ≤ conn.c.len
      → off ≡ base + at
      → Post (Looped S i s conn todo off) (send_loop i rounds todo off at s)
  unfolding send_loop
  send_loop-Looped zero todo off at s conn e o holds a h b = (
    [],
    sym (append-nil s.calls),
    (off, refl, (omega arith, omega arith, refl, refl, (conn.w, conn.acks, e))),
  )
  send_loop-Looped (suc rounds) zero off at s conn e o holds a h b = (
    [],
    sym (append-nil s.calls),
    (off, refl, (omega arith, omega arith, refl, refl, (conn.w, conn.acks, e))),
  )
  send_loop-Looped (suc rounds) (suc t) off at s conn e o holds a h b =
      let len = min (suc t) max_reliable_data_packet_size in
      let same : load conn.c.buf at len ≡ load S off len =
        load-same conn.c.buf S at off len
          (λ k lt. holds (at + k) (omega arith) ∙ ap S (omega arith)) in
      let rest = send_loop i rounds (suc t - len) (off + len) (at + len) in
      let end_conn =
        emptied S i len (suc t) off at s conn (omega arith) (omega arith) (omega arith) same in
      let open_again : IsOpen end_conn =
        IsOpen-emptied S i len (suc t) off at s conn (omega arith) (omega arith) (omega arith) same
          o in
      let sent = packet-Outcome i len off at s conn e (omega arith) o (omega arith) (omega arith) in
      Looped-step S i len (suc t) off at s conn (omega arith) (omega arith) (omega arith) same rest
        (λ s1 e1 more.
          send_loop-Looped rounds (suc t - len) (off + len) (at + len) s1 end_conn e1 open_again
            holds (omega arith) (omega arith) (omega arith))
        (send_packet i len off at s) sent
