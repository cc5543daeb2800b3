-- ===== src/Connections/Requests.antt =====
-- The answers to the packets of clients keep the invariant of the table.
use Prim.Native.String.{String}
use xpilot_fxi.Prelude.{
  ℕ, ◌*◌, ◌<◌, ◌≡◌, inl, inr, Bool, true, false, Option, some, List, [], ◌∷◌, ltb, leb, ◌==◌, ◌&&◌,
  ◌||◌, not, if◌then◌else◌, refl, Option-cases, ==_refl,
}
use xpilot_fxi.Prelude.Int.{ℤ, pos, negsuc, minus_one, ◌-ℤ◌, ltb_ℤ, pos_part, signed32}
use xpilot_fxi.Net.Format.{Arg, num, str}
use xpilot_fxi.Net.Scan.{scanf}
use xpilot_fxi.Connections.Server.{
  ConnState, free, listening, setup, login, playing, drain, ready, Connection, Server, ◌>>◌, pure,
  put, change, set_state,
}
use xpilot_fxi.Connections.Reliable.{positive}
use xpilot_fxi.Connections.Acks.{
  scan_r, refuse, estimate, update_rtt, drop_acked, all_acked, replies_acked, accept, acknowledge,
  ack_values, receive_ack, is_draining, is_ready, is_reply, pkt_ack, ack_format, max_rtt,
}
use xpilot_fxi.Connections.Invariant.{Legal, IsLegal, Safe, set_state-Safe}
use xpilot_fxi.Connections.Safety.{Keeps, bind-Safe, if-Safe, if-Keeps, IsSound-same, change-Keeps}
use xpilot_fxi.Connections.Steps.{put-quiet, destroy_then}

pub test-Safe :
    {A : Type 0} (n : ℕ) (b : Bool) (x y : Option (A × Server))
    → (b ≡ true → Safe n x)
    → (b ≡ false → Safe n y)
    → Safe n (if b then x else y)
test-Safe n true x y p q = p refl
test-Safe n false x y p q = q refl

-- The state behind a drain is legal for a connection that is in it.
Legal-drained :
    (state drain_state : ConnState) (pl : Option ℕ)
    → Legal state drain_state pl
    → is_draining state ≡ true
    → Legal drain_state drain_state pl
Legal-drained drain _ pl (inl e) d = rw e tt
Legal-drained drain _ pl (inr e) d = rw e tt
Legal-drained free _ pl l d = cc
Legal-drained listening _ pl l d = cc
Legal-drained setup _ pl l d = cc
Legal-drained login _ pl l d = cc
Legal-drained playing _ pl l d = cc
Legal-drained ready _ pl l d = cc

Legal-readied :
    (state drain_state : ConnState) (pl : Option ℕ)
    → Legal state drain_state pl
    → is_ready state ≡ true
    → Legal drain_state drain_state pl
Legal-readied ready _ pl (e, p) d = rw e p
Legal-readied free _ pl l d = cc
Legal-readied listening _ pl l d = cc
Legal-readied setup _ pl l d = cc
Legal-readied login _ pl l d = cc
Legal-readied playing _ pl l d = cc
Legal-readied drain _ pl l d = cc

and_left : (a b : Bool) → (a && b) ≡ true → a ≡ true
and_left true b e = refl
and_left false b e = cc

module _ (n i : ℕ) (inside : i < n) where
  pub scan_r-Keeps : (fmt : List ℕ) → Keeps n (scan_r i fmt)
  unfolding scan_r
  scan_r-Keeps fmt s v = elim (Option-cases (scanf (s.conns i).r fmt s.incoming)) [
    | inl e ↦ rw (e, scan_r) tt
    | inr (t, e) ↦
        rw (e, scan_r)
          (IsSound-same n (put i (record (s.conns i) { r = t.sbuf }) s) _ refl refl refl refl
            (put-quiet n i inside (record (s.conns i) { r = t.sbuf }) s refl refl refl v))
  ]

  pub refuse-Keeps : (reason : String) → Keeps n (refuse i reason)
  unfolding refuse
  refuse-Keeps reason = destroy_then n i inside minus_one reason

  all_acked-Keeps : Keeps n (all_acked i)
  unfolding all_acked
  all_acked-Keeps s v =
      let conn = s.conns i in
      let calm : Connection = record conn { retransmit_at_loop = 0 } in
      let stays = put-quiet n i inside calm s refl refl refl v in
      if-Safe n (leb conn.reliable_unsent conn.reliable_offset)
        (if is_draining conn.state
          then set_state i conn.drain_state conn.drain_state (put i calm s)
          else some (tt, put i calm s))
        (some (tt, s))
        (test-Safe n (is_draining conn.state)
          (set_state i conn.drain_state conn.drain_state (put i calm s)) (some (tt, put i calm s))
          (λ e.
            set_state-Safe n i inside conn.drain_state conn.drain_state (put i calm s)
              (rw (==_refl i) (Legal-drained conn.state conn.drain_state conn.pl (v.legal i) e))
              stays)
          (λ e. stays))
        v

  replies_acked-Keeps : Keeps n (replies_acked i)
  unfolding replies_acked
  replies_acked-Keeps s v =
      let conn = s.conns i in
      let over = (conn.c.len == 0) || not (is_reply (conn.c.buf 0)) in
      test-Safe n (is_ready conn.state && over) (set_state i conn.drain_state conn.drain_state s)
        (some (tt, s))
        (λ e.
          set_state-Safe n i inside conn.drain_state conn.drain_state s
            (Legal-readied conn.state conn.drain_state conn.pl (v.legal i)
              (and_left (is_ready conn.state) over e))
            v)
        (λ e. v)

  accept-Keeps : (diff : ℕ) → Keeps n (accept i diff)
  unfolding accept drop_acked
  accept-Keeps diff s v =
      bind-Safe n
        (λ _. do
          all_acked i
          replies_acked i
          change i (λ conn. record conn { rtt_timeouts = 0 })
          pure (pos 1))
        (change i (drop_acked diff) s)
        (change-Keeps n i inside (drop_acked diff) (λ c. (refl, λ l. l)) s v)
        (λ _ s1 v1.
          bind-Safe n
            (λ _. do
              replies_acked i
              change i (λ conn. record conn { rtt_timeouts = 0 })
              pure (pos 1))
            (all_acked i s1) (all_acked-Keeps s1 v1)
            (λ _ s2 v2.
              bind-Safe n
                (λ _. do change i (λ conn. record conn { rtt_timeouts = 0 }); pure (pos 1))
                (replies_acked i s2) (replies_acked-Keeps s2 v2)
                (λ _ s3 v3.
                  change-Keeps n i inside (λ conn. record conn { rtt_timeouts = 0 })
                    (λ c. (refl, λ l. l)) s3 v3)))

  acknowledge-Keeps : (rel : ℤ) → Keeps n (acknowledge i rel)
  unfolding acknowledge
  acknowledge-Keeps rel s v =
      let conn = s.conns i in
      let diff = rel -ℤ pos conn.reliable_offset in
      if-Safe n (ltb_ℤ (pos conn.c.len) diff) (refuse i "bad ack" s)
        (if ltb_ℤ (pos 0) diff then accept i (pos_part diff) s else some (pos 1, s))
        (refuse-Keeps "bad ack" s v)
        (if-Safe n (ltb_ℤ (pos 0) diff) (accept i (pos_part diff) s) (some (pos 1, s))
          (accept-Keeps (pos_part diff) s v) v)

  -- `conn'` differs from `conn` in no field that the invariant reads.
  abbrev Alike : Connection → Connection → Type 0
  Alike conn conn' = (conn'.state ≡ conn.state) × (IsLegal conn → IsLegal conn')

  if-Alike :
      (b : Bool) (conn x y : Connection)
      → Alike conn x
      → Alike conn y
      → Alike conn (if b then x else y)
  if-Alike true conn x y p q = p
  if-Alike false conn x y p q = q

  update_rtt-quiet : (fps : ℕ) (rtt : ℤ) (conn : Connection) → Alike conn (update_rtt fps rtt conn)
  unfolding update_rtt estimate
  update_rtt-quiet fps (negsuc k) conn = (refl, λ l. l)
  update_rtt-quiet fps (pos k) conn =
      let begun = if conn.rtt_smoothed == 0 then k * 8 else conn.rtt_smoothed in
      if-Alike ((k == 0) || ltb (max_rtt fps) k) conn conn (estimate fps k begun conn)
        (refl, λ l. l) (refl, λ l. l)

  ack_values-Keeps : (values : List Arg) → Keeps n (ack_values i values)
  unfolding ack_values
  ack_values-Keeps (num ch ∷ num rel ∷ num rel_loops ∷ []) s v =
      let rtt = pos s.main_loops -ℤ signed32 rel_loops in
      let timed = put i (update_rtt s.fps rtt (s.conns i)) s in
      if-Safe n (ch == pkt_ack) (acknowledge i (signed32 rel) timed) (refuse i "not ack" s)
        (acknowledge-Keeps (signed32 rel) timed
          (change-Keeps n i inside (update_rtt s.fps rtt) (update_rtt-quiet s.fps rtt) s v))
        (refuse-Keeps "not ack" s v)
  ack_values-Keeps [] s v = tt
  ack_values-Keeps (str a ∷ rest) s v = tt
  ack_values-Keeps (num a ∷ []) s v = tt
  ack_values-Keeps (num a ∷ str b ∷ rest) s v = tt
  ack_values-Keeps (num a ∷ num b ∷ []) s v = tt
  ack_values-Keeps (num a ∷ num b ∷ str c ∷ rest) s v = tt
  ack_values-Keeps (num a ∷ num b ∷ num c ∷ d ∷ rest) s v = tt

  pub receive_ack-Keeps : Keeps n (receive_ack i)
  unfolding receive_ack
  receive_ack-Keeps s v =
      bind-Safe n
        (λ (r : ℤ × List Arg). if positive r.0 then ack_values i r.1 else refuse i "read error")
        (scan_r i ack_format s) (scan_r-Keeps ack_format s v)
        (λ r.
          if-Keeps n (positive r.0) (ack_values i r.1) (refuse i "read error")
            (ack_values-Keeps r.1) (refuse-Keeps "read error"))
