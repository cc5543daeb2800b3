-- ===== src/Net/Fetching.antt =====
-- What `Sockbuf_read` makes of each answer of the kernel.
use xpilot_fxi.Prelude.{
  ℕ, ◌+◌, ◌-◌, ◌≤◌, ◌<◌, ◌≡◌, ◌⊎◌, inl, inr, Bool, true, false, List, [], ◌∷◌, ◌++◌, arith, refl,
  ap, ◌∙◌, take, length, leb, ltb, ◌&&◌, if◌then◌else◌,
}
use xpilot_fxi.Prelude.Int.{ℤ, pos, minus_one}
use xpilot_fxi.Prelude.Memory.{load, load-store}
use xpilot_fxi.Net.Sockbuf.{Sockbuf, Received, received, would_block, interrupted, failed}
use xpilot_fxi.Net.Recv.{absorb, read_dgram, read_stream, compact, read_room, read}
use xpilot_fxi.Net.Valid.{Yields, test-Yields, map-Yields}

-- Among the kernel's answers is one that ends a read on any socket.
abbrev pub answered : List Received → Bool
answered [] = false
answered (received bytes ∷ io) = true
answered (would_block ∷ io) = true
answered (interrupted ∷ io) = answered io
answered (failed b ∷ io) = answered io

-- The answers after which a read asks the kernel again.
abbrev pub passed : List Received → Bool → Bool
passed [] dgram = true
passed (interrupted ∷ io) dgram = passed io dgram
passed (failed false ∷ io) dgram = dgram && passed io dgram
passed (failed true ∷ io) dgram = false
passed (received bytes ∷ io) dgram = false
passed (would_block ∷ io) dgram = false

-- What the answer that ends a read into `s` makes it return and leave. Bytes that came stand behind
-- those in the buffer, as far as there is room.
abbrev pub Ended : Sockbuf → Received → ℤ → Sockbuf → Type 0
Ended s (received []) r t = (r ≡ pos 0) × (t ≡ s)
Ended s (received (b ∷ bs)) r t =
    let new = take (s.size - s.len) (b ∷ bs) in
    (r ≡ pos (s.len + length new))
    × (t.len ≡ s.len + length new)
    × (load t.buf s.len (length new) ≡ new)
Ended s would_block r t = (r ≡ pos 0) × (t ≡ s)
Ended s interrupted r t = ⊥
Ended s (failed b) r t = (r ≡ minus_one) × (t ≡ s)

-- The kernel gives some answers after which it is asked again, then one that ends the read.
abbrev pub Asked : Sockbuf → List Received → ℤ → Sockbuf → Type 0
Asked s io r t =
    (before : List Received) × (a : Received) × (after : List Received) × (io
      ≡ before ++ (a ∷ after))
    × (passed before s.state.dgram ≡ true)
    × Ended s a r t

-- All ends of `Sockbuf_read`, which first moves what is unread to the front.
abbrev pub Fetched : Sockbuf → List Received → ℤ → Sockbuf → Type 0
Fetched s io r t =
    let front = compact s in
    ((s.state.read ≡ false) × (r ≡ minus_one) × (t ≡ s))
    ⊎ ((s.state.read ≡ true) × (s.state.lock ≡ true) × (r ≡ pos 0) × (t ≡ s))
    ⊎ ((s.state.read ≡ true)
        × (s.state.lock ≡ false)
        × (front.size ≤ front.len)
        × (r ≡ minus_one)
        × (t ≡ front))
    ⊎ ((s.state.read ≡ true)
        × (s.state.lock ≡ false)
        × (front.len < front.size)
        × Asked front io r t)

Asked-interrupted :
    (s : Sockbuf) (io : List Received) (r : ℤ) (t : Sockbuf)
    → Asked s io r t
    → Asked s (interrupted ∷ io) r t
Asked-interrupted s io r t (before, a, after, split, again, end) =
    (interrupted ∷ before, a, after, ap (λ l. interrupted ∷ l) split, again, end)

Asked-failed :
    (s : Sockbuf) (io : List Received) (r : ℤ) (t : Sockbuf)
    → s.state.dgram ≡ true
    → Asked s io r t
    → Asked s (failed false ∷ io) r t
Asked-failed s io r t d (before, a, after, split, again, end) = (
  failed false ∷ before,
  a,
  after,
  ap (λ l. failed false ∷ l) split,
  ap (λ b. b && passed before s.state.dgram) d ∙ again,
  end,
)

absorb-Asked :
    (s : Sockbuf) (b : ℕ) (bs : List ℕ) (io : List Received)
    → let t = absorb s (s.size - s.len) (b ∷ bs) in Asked s (received (b ∷ bs) ∷ io) (pos t.len) t
unfolding absorb
absorb-Asked s b bs io =
    let new = take (s.size - s.len) (b ∷ bs) in
    ([], received (b ∷ bs), io, refl, refl, (refl, refl, load-store new s.buf s.len))

read_dgram-Asked :
    (s : Sockbuf) (i : ℕ) (io : List Received)
    → s.state.dgram ≡ true
    → answered io ≡ true
    → Yields (Asked s io) (read_dgram s (s.size - s.len) i io)
unfolding read_dgram
read_dgram-Asked s i [] d h = cc
read_dgram-Asked s i (received [] ∷ io) d h = ([], _, io, refl, refl, (refl, refl))
read_dgram-Asked s i (received (b ∷ bs) ∷ io) d h = absorb-Asked s b bs io
read_dgram-Asked s i (would_block ∷ io) d h = ([], _, io, refl, refl, (refl, refl))
read_dgram-Asked s i (interrupted ∷ io) d h =
    map-Yields (read_dgram s (s.size - s.len) i io) (Asked-interrupted s io)
      (read_dgram-Asked s i io d h)
read_dgram-Asked s i (failed true ∷ io) d h =
    test-Yields (ltb 2 (i + 1)) (Asked s (failed true ∷ io)) _ _
      (λ e. ([], _, io, refl, refl, (refl, refl))) (λ e. ([], _, io, refl, refl, (refl, refl)))
read_dgram-Asked s i (failed false ∷ io) d h =
    test-Yields (ltb 2 (i + 1)) (Asked s (failed false ∷ io)) _ _
      (λ e. ([], _, io, refl, refl, (refl, refl)))
      (λ e.
        map-Yields (read_dgram s (s.size - s.len) (i + 1) io) (λ r t. Asked-failed s io r t d)
          (read_dgram-Asked s (i + 1) io d h))

read_stream-Asked :
    (s : Sockbuf) (io : List Received)
    → answered io ≡ true
    → Yields (Asked s io) (read_stream s (s.size - s.len) io)
unfolding read_stream
read_stream-Asked s [] h = cc
read_stream-Asked s (received [] ∷ io) h = ([], _, io, refl, refl, (refl, refl))
read_stream-Asked s (received (b ∷ bs) ∷ io) h = absorb-Asked s b bs io
read_stream-Asked s (would_block ∷ io) h = ([], _, io, refl, refl, (refl, refl))
read_stream-Asked s (interrupted ∷ io) h =
    map-Yields (read_stream s (s.size - s.len) io) (Asked-interrupted s io)
      (read_stream-Asked s io h)
read_stream-Asked s (failed b ∷ io) h = ([], _, io, refl, refl, (refl, refl))

pub read-Fetched :
    (s : Sockbuf) (io : List Received) → answered io ≡ true → Yields (Fetched s io) (read s io)
unfolding read read_room
read-Fetched s io h =
    let front = compact s in
    test-Yields s.state.read (Fetched s io) _ _
      (λ e.
        test-Yields s.state.lock (Fetched s io) _ _ (λ l. inr (inl (e, l, refl, refl)))
          (λ l.
            test-Yields (leb front.size front.len) (Fetched s io) _ _
              (λ f. inr (inr (inl (e, l, ground (arith, f), refl, refl))))
              (λ f.
                map-Yields
                  (if front.state.dgram
                    then read_dgram front (front.size - front.len) 0 io
                    else read_stream front (front.size - front.len) io)
                  (λ r t asked. inr (inr (inr (e, l, ground (arith, f), asked))))
                  (test-Yields front.state.dgram (Asked front io) _ _
                    (λ d. read_dgram-Asked front 0 io d h) (λ d. read_stream-Asked front io h)))))
      (λ e. inl (e, refl, refl))
