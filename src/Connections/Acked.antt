-- ===== src/Connections/Acked.antt =====
-- What `Receive_ack` makes of an acknowledgement.
use mathlib.Core.Path.{subst}
use Prim.Native.String.{String}
use xpilot_fxi.Prelude.{
  ℕ, ◌+◌, ◌≤◌, ◌<◌, ◌≡◌, ◌⊎◌, inl, inr, true, false, some, leb, ◌==◌, ◌&&◌, ◌||◌, not,
  if◌then◌else◌, arith, refl, sym, ap, ◌∙◌, Bool-cases, ==_refl,
}
use xpilot_fxi.Prelude.Int.{ℤ, pos, minus_one, pos_part, ◌-ℤ◌, ltb_ℤ}
use xpilot_fxi.Net.Valid.{IsValid, advance_lem}
use xpilot_fxi.Net.Sockbuf.{Sockbuf, advance}
use xpilot_fxi.Connections.Server.{ConnState, Connection, Server, put, set_state, destroy, is_free}
use xpilot_fxi.Connections.Sending.{leave_game-leaving}
use xpilot_fxi.Connections.Outcomes.{
  Post, if-Post, test-Post, Post-map, bind-Post, put-same, Post-out,
}
use xpilot_fxi.Connections.Stream.{Holds}
use xpilot_fxi.Connections.Acks.{
  drop_acked, all_acked, replies_acked, accept, acknowledge, refuse, is_draining, is_ready,
  is_reply,
}

-- The reliable data and the place in the stream are the same.
abbrev Keeps : Connection → Connection → Type 0
Keeps conn conn' = (conn'.c ≡ conn.c) × (conn'.reliable_offset ≡ conn.reliable_offset)

abbrev KeepsAt : ℕ → Server → Server → Type 0
KeepsAt i s s' = Keeps (s.conns i) (s'.conns i)

put-Keeps :
    (i : ℕ) (conn : Connection) (s : Server) → Keeps (s.conns i) conn → KeepsAt i s (put i conn s)
put-Keeps i conn s k = (
  ap (λ (c : Connection). c.c) (put-same i conn s) ∙ k.0,
  ap (λ (c : Connection). c.reliable_offset) (put-same i conn s) ∙ k.1,
)

set_state-Keeps :
    (i : ℕ) (state drain_state : ConnState) (s : Server)
    → Post (λ _ s'. KeepsAt i s s') (set_state i state drain_state s)
unfolding set_state
set_state-Keeps i state drain_state s = put-Keeps i _ s (refl, refl)

all_acked-Keeps : (i : ℕ) (s : Server) → Post (λ _ s'. KeepsAt i s s') (all_acked i s)
unfolding all_acked
all_acked-Keeps i s =
    let conn = s.conns i in
    let calm : Connection = record conn { retransmit_at_loop = 0 } in
    let stays = put-Keeps i calm s (refl, refl) in
    let moved = set_state-Keeps i conn.drain_state conn.drain_state (put i calm s) in
    if-Post (λ _ s'. KeepsAt i s s') (leb conn.reliable_unsent conn.reliable_offset)
      (if is_draining conn.state
        then set_state i conn.drain_state conn.drain_state (put i calm s)
        else some (tt, put i calm s))
      (some (tt, s))
      (if-Post (λ _ s'. KeepsAt i s s') (is_draining conn.state)
        (set_state i conn.drain_state conn.drain_state (put i calm s)) (some (tt, put i calm s))
        (moved.0 ∙ stays.0, moved.1 ∙ stays.1) stays)
      (refl, refl)

replies_acked-Keeps : (i : ℕ) (s : Server) → Post (λ _ s'. KeepsAt i s s') (replies_acked i s)
unfolding replies_acked
replies_acked-Keeps i s =
    let conn = s.conns i in
    if-Post (λ _ s'. KeepsAt i s s')
      (is_ready conn.state && ((conn.c.len == 0) || not (is_reply (conn.c.buf 0))))
      (set_state i conn.drain_state conn.drain_state s) (some (tt, s))
      (set_state-Keeps i conn.drain_state conn.drain_state s) (refl, refl)

advance-length :
    (c : Sockbuf) (n : ℕ)
    → IsValid c
    → n ≤ c.len
    → ((advance c (pos n)).len + n ≡ c.len) × IsValid (advance c (pos n))
unfolding advance
advance-length c n v h = (ground arith, ground arith)

-- `conn'` has `diff` fewer bytes of reliable data than `conn`, and the same behind them.
abbrev Dropped : (ℕ → ℕ) → ℕ → Connection → Connection → Type 0
Dropped S diff conn conn' =
    (conn'.reliable_offset ≡ conn.reliable_offset + diff)
    × (conn'.c.len + diff ≡ conn.c.len)
    × IsValid conn'.c
    × Holds S conn'.reliable_offset conn'

Dropped-Keeps :
    (S : ℕ → ℕ) (diff : ℕ) (conn a b : Connection)
    → Dropped S diff conn a
    → Keeps a b
    → Dropped S diff conn b
Dropped-Keeps S diff conn a b (o, l, v, h) (c, f) = (
  f ∙ o,
  ap (λ (k : Sockbuf). k.len + diff) c ∙ l,
  subst IsValid (sym c) v,
  λ j lt.
      ap (λ (k : Sockbuf). k.buf j) c
      ∙ h j (subst (λ (k : Sockbuf). j < k.len) c lt)
      ∙ ap (λ n. S (n + j)) (sym f),
)

drop_acked-Dropped :
    (S : ℕ → ℕ) (diff : ℕ) (conn : Connection)
    → 0 < diff
    → diff ≤ conn.c.len
    → IsValid conn.c
    → Holds S conn.reliable_offset conn
    → Dropped S diff conn (drop_acked diff conn)
unfolding drop_acked
drop_acked-Dropped S diff conn p h v holds =
    let shorter = advance-length conn.c diff v h in
    (
      refl,
      shorter.0,
      shorter.1,
      λ j lt.
          (advance_lem conn.c diff j v (omega (arith, shorter.0))).4
          ∙ holds (j + diff) (omega (arith, shorter.0))
          ∙ ap S (omega arith),
    )

accept-Dropped :
    (S : ℕ → ℕ) (i diff : ℕ) (s : Server)
    → 0 < diff
    → diff ≤ (s.conns i).c.len
    → IsValid (s.conns i).c
    → Holds S (s.conns i).reliable_offset (s.conns i)
    → Post (λ r s'. (r ≡ pos 1) × Dropped S diff (s.conns i) (s'.conns i)) (accept i diff s)
unfolding accept
accept-Dropped S i diff s p h v holds =
    let conn = s.conns i in
    let s1 = put i (drop_acked diff conn) s in
    let first : Dropped S diff conn (s1.conns i) =
      subst (λ (c : Connection). Dropped S diff conn c) (sym (put-same i (drop_acked diff conn) s))
        (drop_acked-Dropped S diff conn p h v holds) in
    bind-Post (λ _ s'. KeepsAt i s1 s') _ _ (all_acked i s1) (all_acked-Keeps i s1)
      (λ _ s2 k2.
        bind-Post (λ _ s'. KeepsAt i s2 s') _ _ (replies_acked i s2) (replies_acked-Keeps i s2)
          (λ _ s3 k3.
            let quiet : Connection = record (s3.conns i) { rtt_timeouts = 0 } in
            let k4 = put-Keeps i quiet s3 (refl, refl) in
            (
              refl,
              Dropped-Keeps S diff conn (s1.conns i) ((put i quiet s3).conns i) first
                  (k4.0 ∙ k3.0 ∙ k2.0, k4.1 ∙ k3.1 ∙ k2.1),
            )))

destroy_free :
    (i : ℕ) (reason : String) (s : Server)
    → Post (λ _ s'. is_free (s'.conns i).state ≡ true) (destroy i reason s)
unfolding destroy set_state
destroy_free i reason s = elim (Bool-cases (is_free (s.conns i).state)) [
  | inl e ↦ rw (e, destroy) e
  | inr e ↦ rw (e, destroy, leave_game-leaving, ==_refl i) refl
]

pos_part-pos : (d : ℤ) → ltb_ℤ (pos 0) d ≡ true → 0 < pos_part d
pos_part-pos d h = ground arith

pos_part-le : (d : ℤ) (n : ℕ) → ltb_ℤ (pos n) d ≡ false → pos_part d ≤ n
pos_part-le d n h = ground arith

pos_part_zero : (d : ℤ) → ltb_ℤ (pos 0) d ≡ false → pos_part d ≡ 0
pos_part_zero d h = ground arith

Dropped-none :
    (S : ℕ → ℕ) (n : ℕ) (conn : Connection)
    → n ≡ 0
    → IsValid conn.c
    → Holds S conn.reliable_offset conn
    → Dropped S n conn conn
Dropped-none S n conn e v h = (omega arith, omega arith, v, h)

-- An acknowledgement up to `rel` ends as `Done` says.
abbrev pub Done : (ℕ → ℕ) → Connection → ℤ → ℤ → Connection → Type 0
Done S conn rel r conn' =
    let diff = rel -ℤ pos conn.reliable_offset in
    ((ltb_ℤ (pos conn.c.len) diff ≡ true) × (r ≡ minus_one) × (is_free conn'.state ≡ true))
    ⊎ ((ltb_ℤ (pos conn.c.len) diff ≡ false) × (r ≡ pos 1) × Dropped S (pos_part diff) conn conn')

refuse-Done :
    (S : ℕ → ℕ) (conn : Connection) (rel : ℤ) (i : ℕ) (s : Server)
    → ltb_ℤ (pos conn.c.len) (rel -ℤ pos conn.reliable_offset) ≡ true
    → Post (λ r s'. Done S conn rel r (s'.conns i)) (refuse i "bad ack" s)
unfolding refuse
refuse-Done S conn rel i s e =
    bind-Post (λ _ s'. is_free (s'.conns i).state ≡ true) (λ r s'. Done S conn rel r (s'.conns i)) _
      (destroy i "bad ack" s) (destroy_free i "bad ack" s) (λ _ s' f. inl (e, refl, f))

-- Let the reliable data of the connection be the stream `S` from `reliable_offset` on, and let the
-- client say that it has `S` up to `rel`. If that is behind the end of the reliable data, the
-- connection is destroyed and the result is -1. Otherwise the result is 1, and the reliable data is
-- `S` from `rel` on, up to the same end, or is unchanged where `rel` is before `reliable_offset`;
-- what was never sent can be acknowledged too.
pub acknowledge_lem :
    (S : ℕ → ℕ) (i : ℕ) (rel : ℤ) (s : Server)
    → IsValid (s.conns i).c
    → Holds S (s.conns i).reliable_offset (s.conns i)
    → (r : ℤ) × (s' : Server) × (acknowledge i rel s ≡ some (r, s'))
      × Done S (s.conns i) rel r (s'.conns i)
unfolding acknowledge
acknowledge_lem S i rel s v holds =
    let conn = s.conns i in
    let diff = rel -ℤ pos conn.reliable_offset in
    let Q = λ (r : ℤ) (s' : Server). Done S conn rel r (s'.conns i) in
    let after = if ltb_ℤ (pos 0) diff then accept i (pos_part diff) s else some (pos 1, s) in
    Post-out Q (acknowledge i rel s) (
      test-Post Q (ltb_ℤ (pos conn.c.len) diff) (refuse i "bad ack" s) after
        (λ e. refuse-Done S conn rel i s e)
        (λ e.
          test-Post Q (ltb_ℤ (pos 0) diff) (accept i (pos_part diff) s) (some (pos 1, s))
            (λ p.
              Post-map (λ r s'. (r ≡ pos 1) × Dropped S (pos_part diff) conn (s'.conns i)) Q
                (accept i (pos_part diff) s)
                (accept-Dropped S i (pos_part diff) s (pos_part-pos diff p)
                  (pos_part-le diff conn.c.len e) v holds)
                (λ r s' d. inr (e, d.0, d.1)))
            (λ p.
              inr (e, refl, Dropped-none S (pos_part diff) conn (pos_part_zero diff p) v holds))))
