-- ===== src/Connections/Sending.antt =====
-- What `Send_reliable` hands to `send`: slices of the stream of reliable data.
use Prim.Native.String.{String}
use mathlib.Core.Path.{subst}
use xpilot_fxi.Prelude.{
  ℕ, ◌+◌, ◌≤◌, ◌<◌, ◌≡◌, ◌⊎◌, inl, inr, true, false, Option, none, some, List, [], ◌∷◌, ◌++◌, ltb,
  length, arith, refl, sym, ap, append_assoc, append-nil, Bool-cases, ==_refl,
}
use xpilot_fxi.Prelude.Int.{ℤ, pos, minus_one}
use xpilot_fxi.Prelude.Memory.{load, store}
use xpilot_fxi.Net.Format.{directives, start}
use xpilot_fxi.Net.Wire.{wire_all}
use xpilot_fxi.Net.Printed.{printf-wire}
use xpilot_fxi.Net.Sockbuf.{Sockbuf, Sent, clear, flush, write}
use xpilot_fxi.Connections.Server.{
  Connection, Server, put, Call, datagram, goodbye, remove_input, player_remove, destroy, set_state,
  is_free, leave_game,
}
use xpilot_fxi.Connections.Outcomes.{Post}
use xpilot_fxi.Connections.Buffers.{answers, Emptied, IsOutput, flush-Emptied}
use xpilot_fxi.Connections.Reliable.{reliable_format, header, print_w, write_w, flush_w}

-- Nothing was handed to `send`.
abbrev pub Quiet : List Call → Type 0
Quiet [] = Unit
Quiet (datagram k bytes ∷ cs) = ⊥
Quiet (c ∷ cs) = Quiet cs

abbrev pub leaving : Option ℕ → List Call
leaving none = []
leaving (some pl) = player_remove pl ∷ []

pub leave_game-leaving :
    (pl : Option ℕ) (s : Server)
    → leave_game pl s ≡ some (tt, record s { calls = s.calls ++ leaving pl })
leave_game-leaving none s = ap (λ cs. some (tt, record s { calls = cs })) (sym (append-nil s.calls))
leave_game-leaving (some pl) s = refl

-- The call log has grown by calls as `P` says.
abbrev pub Adds : Server → (List Call → Type 0) → Server → Type 0
Adds s P s' = (new : List Call) × (s'.calls ≡ s.calls ++ new) × P new

Quiet-goodbye :
    (sock : ℕ) (reason : String) (pl : Option ℕ)
    → Quiet (remove_input sock ∷ goodbye sock reason ∷ leaving pl ++ (goodbye sock reason ∷ []))
Quiet-goodbye sock reason none = tt
Quiet-goodbye sock reason (some pl) = tt

-- `Destroy_connection` returns, hands nothing to `send` but the quit packet, and frees the
-- connection.
pub destroy-Quiet :
    (i : ℕ) (reason : String) (s : Server)
    → Post (λ r s'. Adds s Quiet s' × (is_free (s'.conns i).state ≡ true)) (destroy i reason s)
unfolding destroy set_state
destroy-Quiet i reason s =
    let conn = s.conns i in
    elim (Bool-cases (is_free conn.state)) [
      | inl e ↦ rw (e, destroy) (([], sym (append-nil s.calls), tt), e)
      | inr e ↦
          rw (e, destroy, leave_game-leaving, ==_refl i)
            (
              (
                remove_input conn.w.sock ∷ goodbye conn.w.sock reason ∷ leaving conn.pl
                    ++ (goodbye conn.w.sock reason ∷ []),
                simp append_assoc,
                Quiet-goodbye conn.w.sock reason conn.pl,
              ),
              refl,
            )
    ]

-- The packet with `len` bytes from offset `off` of the stream `S`, sent at time `loops`.
abbrev pub reliable_packet : (ℕ → ℕ) → ℕ → ℕ → ℕ → List ℕ
reliable_packet S loops off len =
    wire_all (directives start reliable_format) (header len off loops) ++ load S off len

abbrev pub head : ℕ → ℕ → ℕ → List ℕ
head len off loops = wire_all (directives start reliable_format) (header len off loops)

pub length-head : (len off loops : ℕ) → length (head len off loops) ≡ 11
unfolding directives
length-head len off loops = refl

-- The output buffer once a packet is in it.
abbrev pub filled : Sockbuf → List ℕ → Sockbuf
filled w bytes = record w { buf = store w.buf w.len bytes; len = w.len + length bytes }

abbrev pub HasRoom : Sockbuf → ℕ → Type 0
HasRoom w len = w.len + 11 + len + 8 < w.size

write-filled :
    (w : Sockbuf) (bytes : List ℕ) (io : List Sent)
    → w.state.write ≡ true
    → w.len + length bytes ≤ w.size
    → write w bytes io ≡ some (pos (length bytes), filled w bytes, io)
unfolding write
write-filled w bytes io writes h =
    let fits : ltb w.size (w.len + length bytes) ≡ false = ground arith in
    simp (write, writes, fits)

pub print_w-filled :
    (i len off : ℕ) (s : Server) (conn : Connection)
    → s.conns i ≡ conn
    → HasRoom conn.w len
    → print_w i reliable_format (header len off s.main_loops) s
      ≡ some (pos 11, put i (record conn { w = filled conn.w (head len off s.main_loops) }) s)
unfolding print_w directives
print_w-filled i len off s conn e =
    subst
      (λ (conn : Connection).
        HasRoom conn.w len
        → print_w i reliable_format (header len off s.main_loops) s
          ≡ some (pos 11, put i (record conn { w = filled conn.w (head len off s.main_loops) }) s))
      e
      (λ h.
        rw
          (
            print_w,
            printf-wire false (s.conns i).w reliable_format (header len off s.main_loops)
                (tt, (tt, (tt, (tt, tt)))) (omega arith),
          )
          refl)

pub write_w-filled :
    (i : ℕ) (bytes : List ℕ) (s : Server) (conn : Connection)
    → s.conns i ≡ conn
    → conn.w.state.write ≡ true
    → conn.w.len + length bytes ≤ conn.w.size
    → write_w i bytes s
      ≡ some (pos (length bytes), put i (record conn { w = filled conn.w bytes }) s)
unfolding write_w
write_w-filled i bytes s conn e =
    subst
      (λ (conn : Connection).
        conn.w.state.write ≡ true
        → conn.w.len + length bytes ≤ conn.w.size
        → write_w i bytes s
          ≡ some (pos (length bytes), put i (record conn { w = filled conn.w bytes }) s))
      e (λ writes h. rw (write_w, write-filled (s.conns i).w bytes s.outgoing writes h) refl)

-- What a flush of the output buffer of the connection `i` did.
abbrev pub FlushedTo : ℕ → Server → Connection → ℤ → Server → Type 0
FlushedTo i s conn r s' =
    (w' : Sockbuf) × (io' : List Sent) × (s' ≡ record (put i (record conn { w = w' }) s) {
      outgoing = io';
      calls = s.calls ++ (datagram conn.w.sock (load conn.w.buf 0 conn.w.len) ∷ []);
    })
    × ((w' ≡ clear conn.w) ⊎ (r ≡ minus_one))
    × (answers s.outgoing ≤ answers io' + 1)

abbrev pub IsSendable : Server → Connection → Type 0
IsSendable s conn = IsOutput conn.w × (0 < conn.w.len) × (0 < answers s.outgoing)

pub flush_w-FlushedTo :
    (i : ℕ) (s : Server)
    → IsSendable s (s.conns i)
    → Post (λ r s'. FlushedTo i s (s.conns i) r.0 s') (flush_w i s)
unfolding flush_w
flush_w-FlushedTo i s h = go (flush w s.outgoing) refl (flush-Emptied w s.outgoing h.0 h.1 h.2)
  where
    w : Sockbuf
    w = (s.conns i).w

    go :
        (x : Option (ℤ × Sockbuf × List Sent))
        → flush w s.outgoing ≡ x
        → Emptied w s.outgoing x
        → Post (λ r s'. FlushedTo i s (s.conns i) r.0 s') (flush_w i s)
    go none e p = elim p [ ]
    go (some (r, w', io')) e p = rw (e, flush_w) (w', io', refl, p.0, p.1)
