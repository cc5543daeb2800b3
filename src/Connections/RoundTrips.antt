-- ===== src/Connections/RoundTrips.antt =====
-- The estimates of the round trip time in `Receive_ack`.
use xpilot_fxi.Prelude.{
  ℕ, ◌*◌, ◌≤◌, ◌≡◌, Bool, true, false, arith, refl, ltb, leb, ◌==◌, ◌||◌, ◌&&◌, if◌then◌else◌,
  Bool-cases, inl, inr,
}
use xpilot_fxi.Prelude.Int.{ℤ, pos, negsuc}
use xpilot_fxi.Connections.Server.{Connection}
use xpilot_fxi.Connections.Acks.{update_rtt, estimate, max_rtt, min_retransmit}

-- The estimators stay within their scale.
pub record InScale (fps : ℕ) (conn : Connection) : Type 0 where
  pub smoothed : conn.rtt_smoothed ≤ 8 * max_rtt fps
  pub dev : conn.rtt_dev ≤ 4 * max_rtt fps

abbrev NewEstimate : ℕ → Connection → Type 0
NewEstimate fps conn =
    InScale fps conn
    × (min_retransmit fps ≤ conn.rtt_retransmit)
    × (conn.rtt_retransmit ≤ 3 * max_rtt fps)

estimate-NewEstimate :
    (fps rtt smoothed : ℕ) (conn : Connection)
    → rtt ≤ max_rtt fps
    → smoothed ≤ 8 * max_rtt fps
    → conn.rtt_dev ≤ 4 * max_rtt fps
    → NewEstimate fps (estimate fps rtt smoothed conn)
unfolding estimate
estimate-NewEstimate fps rtt smoothed conn r h d =
    (record { smoothed = omega arith; dev = omega arith }, ground arith, ground arith)

-- The round trip time lies between 1 and the longest that counts.
abbrev pub counts : ℕ → ℤ → Bool
counts fps (negsuc n) = false
counts fps (pos n) = leb 1 n && leb n (max_rtt fps)

-- A round trip time, whatever it is, keeps the smoothed time and the deviation within eight and four
-- times the longest round trip that counts. Where it lies between 1 and that, the retransmission
-- time is then between its lower bound and three times the longest round trip, and where it does
-- not, nothing changes.
pub update_rtt_lem :
    (fps : ℕ) (rtt : ℤ) (conn : Connection)
    → InScale fps conn
    → InScale fps (update_rtt fps rtt conn)
      × (if counts fps rtt
          then (min_retransmit fps ≤ (update_rtt fps rtt conn).rtt_retransmit)
            × ((update_rtt fps rtt conn).rtt_retransmit ≤ 3 * max_rtt fps)
          else update_rtt fps rtt conn ≡ conn)
unfolding update_rtt
update_rtt_lem fps (negsuc n) conn s = (s, refl)
update_rtt_lem fps (pos rtt) conn s =
    let begun = if conn.rtt_smoothed == 0 then rtt * 8 else conn.rtt_smoothed in
    elim (Bool-cases ((rtt == 0) || ltb (max_rtt fps) rtt)) [
      | inl e ↦
          let out : counts fps (pos rtt) ≡ false = ground arith in rw (out, e, update_rtt) (s, refl)
      | inr e ↦
          let new =
            estimate-NewEstimate fps rtt begun conn (ground arith) (ground (arith, s.smoothed))
              s.dev in
          let inside : counts fps (pos rtt) ≡ true = ground arith in
          rw (inside, e, update_rtt) (new.0, (new.1, new.2))
    ]
