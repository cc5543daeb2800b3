-- ===== src/Net/Valid.antt =====
-- The invariant of a socket buffer, and `Sockbuf_advance`.
use xpilot_fxi.Prelude.{
  ℕ, ◌+◌, ◌-◌, ◌≤◌, ◌<◌, ◌≡◌, Bool, true, false, Option, none, some, arith, refl, if◌then◌else◌,
}
use xpilot_fxi.Prelude.Int.{ℤ, pos}
use xpilot_fxi.Net.Sockbuf.{Sockbuf, advance}

pub record IsValid (s : Sockbuf) : Type 0 where
  pub len_in : s.len ≤ s.size
  pub ptr_in : s.ptr ≤ s.len

-- An operation returns, and its result and the buffer that it leaves are as `P` says.
abbrev pub Yields {ℓ} : {E : Type ℓ} → (ℤ → Sockbuf → Type 0) → Option (ℤ × Sockbuf × E) → Type 0
Yields P none = ⊥
Yields P (some (r, s', io)) = P r s'

pub if-Yields {ℓ} :
    {E : Type ℓ} (b : Bool) (P : ℤ → Sockbuf → Type 0) (x y : Option (ℤ × Sockbuf × E))
    → Yields P x
    → Yields P y
    → Yields P (if b then x else y)
if-Yields true P x y p q = p
if-Yields false P x y p q = q

pub test-Yields {ℓ} :
    {E : Type ℓ} (b : Bool) (P : ℤ → Sockbuf → Type 0) (x y : Option (ℤ × Sockbuf × E))
    → (b ≡ true → Yields P x)
    → (b ≡ false → Yields P y)
    → Yields P (if b then x else y)
test-Yields true P x y p q = p refl
test-Yields false P x y p q = q refl

pub map-Yields {ℓ} :
    {E : Type ℓ} {P Q : ℤ → Sockbuf → Type 0} (x : Option (ℤ × Sockbuf × E))
    → ((r : ℤ) (t : Sockbuf) → P r t → Q r t)
    → Yields P x
    → Yields Q x
map-Yields none f p = p
map-Yields (some (r, t, io)) f p = f r t p

pub both-Yields {ℓ} :
    {E : Type ℓ} (P Q : ℤ → Sockbuf → Type 0) (x : Option (ℤ × Sockbuf × E))
    → Yields P x
    → Yields Q x
    → Yields (λ r t. P r t × Q r t) x
both-Yields P Q none p q = p
both-Yields P Q (some (r, t, io)) p q = (p, q)

pub Yields-out {ℓ} :
    {E : Type ℓ} (P : ℤ → Sockbuf → Type 0) (x : Option (ℤ × Sockbuf × E))
    → Yields P x
    → (r : ℤ) × (s' : Sockbuf) × (io : E) × (x ≡ some (r, s', io)) × P r s'
Yields-out P none p = elim p [ ]
Yields-out P (some (r, s', io)) p = (r, s', io, refl, p)

-- `Sockbuf_advance` by `n` bytes of a valid buffer drops the first `n` bytes: the rest moves to the
-- front, byte `j` of it from `j + n`, and `ptr` moves with it.
pub advance_lem :
    (s : Sockbuf) (n j : ℕ)
    → IsValid s
    → j < s.len - n
    → IsValid (advance s (pos n))
      × ((advance s (pos n)).size ≡ s.size)
      × ((advance s (pos n)).len ≡ s.len - n)
      × ((advance s (pos n)).ptr ≡ s.ptr - n)
      × ((advance s (pos n)).buf j ≡ s.buf (j + n))
unfolding advance
advance_lem s n j v h = (ground arith, ground arith, ground arith, ground arith, ground arith)
