-- ===== src/Scores/Rating.antt =====
-- `Rate`.
use xpilot_fxi.Prelude.{
  ℕ, ◌+◌, ◌*◌, ◌/◌, ◌<◌, ◌≡◌, leb, not, ap, Bool-cases, inl, inr, true, false, arith,
}
use native.Mathlib.Nat.{div-lt_iff_lt-mul}
use xpilot_fxi.Prelude.Int.{ℤ, ◌-ℤ◌, ltb_ℤ}
use xpilot_fxi.Scores.{rate, rate_size, rate_range, distance}

-- The quotient of the rating, over the distance of the scores.
quotient : (d : ℕ) → (rate_size / 2 * rate_range / (d + rate_range) < 11)
quotient d =
    (div-lt_iff_lt-mul {k = d + rate_range} {x = rate_size / 2 * rate_range} {y = 11}
        (omega arith)).1
      (omega arith)

quotient_apart : (d : ℕ) → 0 < d → (rate_size / 2 * rate_range / (d + rate_range) < 10)
quotient_apart d h =
    (div-lt_iff_lt-mul {k = d + rate_range} {x = rate_size / 2 * rate_range} {y = 10}
        (omega arith)).1
      (omega arith)

distance_comm : (a b : ℤ) → distance a b ≡ distance b a
unfolding ◌-ℤ◌
distance_comm a b = ground arith

distance_apart : (a b : ℤ) → ltb_ℤ a b ≡ true → 0 < distance b a
unfolding ◌-ℤ◌
distance_apart a b h = ground arith

distance_same : (a b : ℤ) → ltb_ℤ a b ≡ false → ltb_ℤ b a ≡ false → distance b a ≡ 0
unfolding ◌-ℤ◌
distance_same a b h g = ground arith

abbrev share : ℕ → ℕ
share d = rate_size / 2 * rate_range / (d + rate_range)

-- What a kill is worth to one of two players and to the other makes `RATE_SIZE` together, and it
-- is worth no more than half of that just to a player whose score is no lower than the other's.
rate_lem :
    (winner loser : ℤ)
    → (rate winner loser + rate loser winner ≡ rate_size)
      × (leb (rate winner loser) (rate_size / 2) ≡ not (ltb_ℤ winner loser))
unfolding rate
rate_lem winner loser =
    let same = ap share (distance_comm winner loser) in
    elim (Bool-cases (ltb_ℤ winner loser)) [
      | inl e ↦
          let small = quotient_apart (distance loser winner) (distance_apart winner loser e) in
          let back : ltb_ℤ loser winner ≡ false = ground arith in
          (ground (arith, small, same), ground (arith, small, same))
      | inr e ↦ elim (Bool-cases (ltb_ℤ loser winner)) [
        | inl f ↦
            let small = quotient_apart (distance winner loser) (distance_apart loser winner f) in
            (ground (arith, small, same), ground (arith, small, same))
        | inr f ↦
            let none = ap share (distance_same winner loser e f) in
            let none' = ap share (distance_same loser winner f e) in
            (ground (arith, none, none'), ground (arith, none))
      ]
    ]
