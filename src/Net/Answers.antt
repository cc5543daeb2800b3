-- ===== src/Net/Answers.antt =====
-- The loops of `Sockbuf_flush`, on every answer of the kernel.
use xpilot_fxi.Prelude.{
  ℕ, zero, suc, ◌+◌, ◌<◌, ◌≡◌, ◌⊎◌, Bool, true, false, List, [], ◌∷◌, ◌++◌, arith, refl, ap,
  if◌then◌else◌, ◌==◌, ltb, ◌&&◌, not, ◌∙◌, inl, inr,
}
use xpilot_fxi.Prelude.Int.{ℤ, pos, minus_one}
use xpilot_fxi.Net.Sockbuf.{
  Sockbuf, max_sockbuf_retries, Sent, sent, would_block, interrupted, failed, clear, advance,
  flush_dgram, flush_stream, flush,
}
use xpilot_fxi.Net.Valid.{IsValid, Yields, test-Yields, map-Yields}

-- Among the kernel's answers is one that ends a flush on any socket.
abbrev pub settled : List Sent → Bool
settled [] = false
settled (sent n ∷ io) = true
settled (would_block ∷ io) = true
settled (interrupted ∷ io) = settled io
settled (failed b ∷ io) = settled io

-- The answers after which a flush asks the kernel again.
abbrev pub retried : List Sent → Bool → Bool
retried [] dgram = true
retried (interrupted ∷ io) dgram = retried io dgram
retried (failed false ∷ io) dgram = dgram && retried io dgram
retried (failed true ∷ io) dgram = false
retried (sent n ∷ io) dgram = false
retried (would_block ∷ io) dgram = false

-- `i` and the errors among the answers.
abbrev pub failures : List Sent → ℕ → ℕ
failures [] i = i
failures (failed b ∷ io) i = failures io (i + 1)
failures (interrupted ∷ io) i = failures io i
failures (sent n ∷ io) i = failures io i
failures (would_block ∷ io) i = failures io i

-- What the answer that ends a flush of `s` after `i` errors makes the flush return and leave.
abbrev pub Ended : Sockbuf → ℕ → Sent → ℤ → Sockbuf → Type 0
Ended s i (sent zero) r t =
    (r ≡ (if s.state.dgram then pos 0 else minus_one))
    × (t ≡ (if s.state.dgram then clear s else s))
Ended s i (sent (suc n)) r t =
    (r ≡ pos (suc n)) × (t ≡ (if s.state.dgram then clear s else advance s (pos (suc n))))
Ended s i would_block r t = (r ≡ pos 0) × (t ≡ (if s.state.dgram then clear s else s))
Ended s i interrupted r t = ⊥
Ended s i (failed b) r t =
    (r ≡ minus_one)
    × (t ≡ (if s.state.dgram && ltb max_sockbuf_retries (i + 1) then clear s else s))

-- The kernel gives some answers after which it is asked again, then one that ends the flush.
abbrev pub Asked : Sockbuf → ℕ → List Sent → ℤ → Sockbuf → Type 0
Asked s i io r t =
    (before : List Sent) × (a : Sent) × (after : List Sent) × (io ≡ before ++ (a ∷ after))
    × (retried before s.state.dgram ≡ true)
    × Ended s (failures before i) a r t

-- All ends of `Sockbuf_flush`: the buffer may not be written, it is empty, or the kernel is asked.
abbrev pub Flushed : Sockbuf → List Sent → ℤ → Sockbuf → Type 0
Flushed s io r t =
    ((s.state.write && not s.state.lock ≡ false) × (r ≡ minus_one) × (t ≡ s))
    ⊎ ((s.state.write && not s.state.lock ≡ true) × (s.len ≡ 0) × (r ≡ pos 0) × (t ≡ s))
    ⊎ ((s.state.write && not s.state.lock ≡ true) × (0 < s.len) × Asked s 0 io r t)

-- A result of `Sockbuf_flush` on `s`: a valid buffer of the same size.
abbrev pub Fine : Sockbuf → List Sent → ℤ → Sockbuf → Type 0
Fine s io r t = IsValid t × (t.size ≡ s.size) × Flushed s io r t

-- A valid buffer of the size of `s`, and what the kernel was asked.
abbrev Sound : Sockbuf → ℕ → List Sent → ℤ → Sockbuf → Type 0
Sound s i io r t = IsValid t × (t.size ≡ s.size) × Asked s i io r t

Sound-interrupted :
    (s : Sockbuf) (i : ℕ) (io : List Sent) (r : ℤ) (t : Sockbuf)
    → Sound s i io r t
    → Sound s i (interrupted ∷ io) r t
Sound-interrupted s i io r t (v, e, (before, a, after, split, again, end)) =
    (v, e, (interrupted ∷ before, a, after, ap (λ l. interrupted ∷ l) split, again, end))

module _ (s : Sockbuf) (v : IsValid s) where
  clear-IsValid : IsValid (clear s) × ((clear s).size ≡ s.size)
  unfolding clear
  clear-IsValid = (omega arith, refl)

  advance-IsValid : (n : ℕ) → IsValid (advance s (pos n)) × ((advance s (pos n)).size ≡ s.size)
  unfolding advance
  advance-IsValid n = (ground arith, ground arith)

  Sound-failed :
      (i : ℕ) (io : List Sent) (r : ℤ) (t : Sockbuf)
      → s.state.dgram ≡ true
      → Sound s (i + 1) io r t
      → Sound s i (failed false ∷ io) r t
  Sound-failed i io r t d (v', e, (before, a, after, split, again, end)) = (
    v',
    e,
    (
      failed false ∷ before,
      a,
      after,
      ap (λ l. failed false ∷ l) split,
      ap (λ b. b && retried before s.state.dgram) d ∙ again,
      end,
    ),
  )

  flush_dgram-Yields :
      (i : ℕ) (io : List Sent)
      → s.state.dgram ≡ true
      → settled io ≡ true
      → Yields (Sound s i io) (flush_dgram s i io)
  unfolding flush_dgram
  flush_dgram-Yields i [] d h = cc
  flush_dgram-Yields i (sent zero ∷ io) d h =
      (clear-IsValid.0, clear-IsValid.1, ([], _, io, refl, refl, (rw d refl, rw d refl)))
  flush_dgram-Yields i (sent (suc n) ∷ io) d h =
      (clear-IsValid.0, clear-IsValid.1, ([], _, io, refl, refl, (refl, rw d refl)))
  flush_dgram-Yields i (would_block ∷ io) d h =
      (clear-IsValid.0, clear-IsValid.1, ([], _, io, refl, refl, (refl, rw d refl)))
  flush_dgram-Yields i (interrupted ∷ io) d h =
      map-Yields (flush_dgram s i io) (Sound-interrupted s i io) (flush_dgram-Yields i io d h)
  flush_dgram-Yields i (failed true ∷ io) d h =
      test-Yields (ltb 2 (i + 1)) (Sound s i (failed true ∷ io)) _ _
        (λ e. (clear-IsValid.0, clear-IsValid.1, ([], _, io, refl, refl, (refl, rw (d, e) refl))))
        (λ e. (v, refl, ([], _, io, refl, refl, (refl, rw (d, e) refl))))
  flush_dgram-Yields i (failed false ∷ io) d h =
      test-Yields (ltb 2 (i + 1)) (Sound s i (failed false ∷ io)) _ _
        (λ e. (clear-IsValid.0, clear-IsValid.1, ([], _, io, refl, refl, (refl, rw (d, e) refl))))
        (λ e.
          map-Yields (flush_dgram s (i + 1) io) (λ r t. Sound-failed i io r t d)
            (flush_dgram-Yields (i + 1) io d h))

  flush_stream-Yields :
      (io : List Sent)
      → s.state.dgram ≡ false
      → settled io ≡ true
      → Yields (Sound s 0 io) (flush_stream s io)
  unfolding flush_stream
  flush_stream-Yields [] d h = cc
  flush_stream-Yields (sent zero ∷ io) d h =
      (v, refl, ([], _, io, refl, refl, (rw d refl, rw d refl)))
  flush_stream-Yields (sent (suc n) ∷ io) d h = (
    (advance-IsValid (suc n)).0,
    (advance-IsValid (suc n)).1,
    ([], _, io, refl, refl, (refl, rw d refl)),
  )
  flush_stream-Yields (would_block ∷ io) d h = (v, refl, ([], _, io, refl, refl, (refl, rw d refl)))
  flush_stream-Yields (interrupted ∷ io) d h =
      map-Yields (flush_stream s io) (Sound-interrupted s 0 io) (flush_stream-Yields io d h)
  flush_stream-Yields (failed b ∷ io) d h = (v, refl, ([], _, io, refl, refl, (refl, rw d refl)))

  pub flush-Yields : (io : List Sent) → settled io ≡ true → Yields (Fine s io) (flush s io)
  unfolding flush
  flush-Yields io h =
      test-Yields s.state.write (Fine s io) _ _
        (λ w.
          test-Yields s.state.lock (Fine s io) _ _ (λ l. (v, refl, inl (ground arith, refl, refl)))
            (λ l.
              test-Yields (s.len == 0) (Fine s io) _ _
                (λ z. (v, refl, inr (inl (ground arith, ground arith, refl, refl))))
                (λ z.
                  map-Yields (if s.state.dgram then flush_dgram s 0 io else flush_stream s io)
                    (λ r t (v', e, k). (v', e, inr (inr (ground arith, ground arith, k))))
                    (test-Yields s.state.dgram (Sound s 0 io) _ _ (λ d. flush_dgram-Yields 0 io d h)
                      (λ d. flush_stream-Yields io d h)))))
        (λ w. (v, refl, inl (ground arith, refl, refl)))
