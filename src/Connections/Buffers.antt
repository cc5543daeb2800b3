-- ===== src/Connections/Buffers.antt =====
-- The output buffer of a connection: what a flush leaves of it, and what was written to it.
use xpilot_fxi.Prelude.{
  ℕ, zero, suc, ◌+◌, ◌≤◌, ◌<◌, ◌≡◌, ◌⊎◌, inl, inr, Bool, true, false, Option, none, some, List, [],
  ◌∷◌, ◌++◌, ltb, ◌==◌, if◌then◌else◌, length, arith, refl, ap, ap₂, ◌∙◌,
}
use xpilot_fxi.Prelude.Int.{ℤ, minus_one}
use xpilot_fxi.Prelude.Memory.{load, store, store_before, load-store}
use xpilot_fxi.Net.Sockbuf.{
  Sockbuf, Sent, sent, would_block, interrupted, failed, clear, flush, flush_dgram,
}

-- The answers that end a flush.
abbrev pub answers : List Sent → ℕ
answers [] = 0
answers (sent n ∷ io) = suc (answers io)
answers (would_block ∷ io) = suc (answers io)
answers (interrupted ∷ io) = answers io
answers (failed b ∷ io) = answers io

-- A flush returns, has used up one such answer at most, and has emptied the buffer or failed.
abbrev pub Emptied : Sockbuf → List Sent → Option (ℤ × Sockbuf × List Sent) → Type 0
Emptied w io none = ⊥
Emptied w io (some (r, w', io')) =
    ((w' ≡ clear w) ⊎ (r ≡ minus_one)) × (answers io ≤ answers io' + 1)

if-Emptied :
    (b : Bool) (w : Sockbuf) (io : List Sent) (x y : Option (ℤ × Sockbuf × List Sent))
    → Emptied w io x
    → Emptied w io y
    → Emptied w io (if b then x else y)
if-Emptied true w io x y p q = p
if-Emptied false w io x y p q = q

flush_dgram-Emptied :
    (w : Sockbuf) (i : ℕ) (io : List Sent) → 0 < answers io → Emptied w io (flush_dgram w i io)
unfolding flush_dgram
flush_dgram-Emptied w i [] h = absurd (omega arith)
flush_dgram-Emptied w i (sent zero ∷ io) h = (inl refl, omega arith)
flush_dgram-Emptied w i (sent (suc n) ∷ io) h = (inl refl, omega arith)
flush_dgram-Emptied w i (would_block ∷ io) h = (inl refl, omega arith)
flush_dgram-Emptied w i (interrupted ∷ io) h = flush_dgram-Emptied w i io h
flush_dgram-Emptied w i (failed b ∷ io) h =
    if-Emptied (ltb 2 (i + 1)) w (failed b ∷ io) _ _ (inr refl, omega arith)
      (if-Emptied b w (failed b ∷ io) _ _ (inr refl, omega arith)
        (flush_dgram-Emptied w (i + 1) io h))

-- A buffer for datagrams, as `Setup_connection` makes it.
pub record IsOutput (w : Sockbuf) : Type 0 where
  pub writes : w.state.write ≡ true
  pub open_now : w.state.lock ≡ false
  pub dgram : w.state.dgram ≡ true

pub flush-Emptied :
    (w : Sockbuf) (io : List Sent)
    → IsOutput w
    → 0 < w.len
    → 0 < answers io
    → Emptied w io (flush w io)
unfolding flush
flush-Emptied w io o len h =
    let filled : (w.len == 0) ≡ false = ground arith in
    simp (o.writes, o.open_now, filled, o.dgram) (flush_dgram-Emptied w 0 io h)

-- The memory from its start to the end of what was appended.
pub load-append : (m : ℕ → ℕ) (i n k : ℕ) → load m i (n + k) ≡ load m i n ++ load m (i + n) k
unfolding load
load-append m i zero k = ap₂ (λ a b. load m a b) (omega arith) (omega arith)
load-append m i (suc n) k =
    let later : i + 1 + n ≡ i + suc n = omega arith in
    let sum : suc n + k ≡ suc (n + k) = omega arith in
    rw (sum, load)
      (ap (λ l. m i ∷ l)
        (load-append m (i + 1) n k ∙ ap (λ j. load m (i + 1) n ++ load m j k) later))

pub load-same :
    (m m' : ℕ → ℕ) (i j n : ℕ)
    → ((k : ℕ) → k < n → m (i + k) ≡ m' (j + k))
    → load m i n ≡ load m' j n
unfolding load
load-same m m' i j zero same = refl
load-same m m' i j (suc n) same =
    let first : m i ≡ m' j = ap m (omega arith) ∙ same 0 (omega arith) ∙ ap m' (omega arith) in
    ap₂ ◌∷◌ first (
      load-same m m' (i + 1) (j + 1) n
        (λ k h. ap m (omega arith) ∙ same (suc k) (omega arith) ∙ ap m' (omega arith)))

load_before : (bs : List ℕ) (m : ℕ → ℕ) (i n : ℕ) → load (store m (i + n) bs) i n ≡ load m i n
load_before bs m i n =
    load-same (store m (i + n) bs) m i i n (λ k h. store_before bs m (i + n) (i + k) (omega arith))

pub load-store_all :
    (m : ℕ → ℕ) (n : ℕ) (bs : List ℕ) → load (store m n bs) 0 (n + length bs) ≡ load m 0 n ++ bs
load-store_all m n bs =
    let back : 0 + n ≡ n = omega arith in
    load-append (store m n bs) 0 n (length bs)
    ∙ ap₂ ◌++◌ (ap (λ j. load (store m j bs) 0 n) (omega arith) ∙ load_before bs m 0 n)
        (ap (λ j. load (store m n bs) j (length bs)) back ∙ load-store bs m n)
