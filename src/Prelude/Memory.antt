-- ===== src/Prelude/Memory.antt =====
-- Arrays and memory as functions of the index, and the loops over them.
use Prim.Native.Nat.{ℕ, zero, suc, ◌+◌, ◌≤◌, ◌<◌}
use mathlib.Core.Path.{◌≡◌, refl, ap₂}
use mathlib.Core.List.{List, [], ◌∷◌}
use native.Mathlib.Omega.{arith}
use xpilot_fxi.Prelude.Tests.{◌==◌, ltb, if◌then◌else◌}
use xpilot_fxi.Prelude.Lists.{length}

-- `a[i] = v`
abbrev pub update {ℓ} : {A : Type ℓ} → (ℕ → A) → ℕ → A → ℕ → A
update a i v j = if j == i then v else a j

-- `a[1] + … + a[n]`
unfoldable pub total : (ℕ → ℕ) → ℕ → ℕ
total a zero = 0
total a (suc n) = total a n + a (suc n)

pub total-update_above : (a : ℕ → ℕ) (n i v : ℕ) → n < i → total (update a i v) n ≡ total a n
unfolding total
total-update_above a zero i v h = omega arith
total-update_above a (suc n) i v h = ground (arith, total-update_above a n i v)

-- Writing one entry changes the sum by the difference of that entry.
pub total-update :
    (a : ℕ → ℕ) (n i v : ℕ) → 1 ≤ i → i ≤ n → total (update a i v) n + a i ≡ total a n + v
unfolding total
total-update a zero i v lo hi = absurd (omega arith)
total-update a (suc n) i v lo hi = ground (arith, total-update a n i v, total-update_above a n i v)

pub le-total : (a : ℕ → ℕ) (n i : ℕ) → 1 ≤ i → i ≤ n → a i ≤ total a n
unfolding total
le-total a zero i lo hi = absurd (omega arith)
le-total a (suc n) i lo hi = ground (arith, le-total a n i)

pub total_zero : (a : ℕ → ℕ) (n : ℕ) → ((i : ℕ) → a i ≡ 0) → total a n ≡ 0
unfolding total
total_zero a zero h = omega arith
total_zero a (suc n) h = omega (arith, total_zero a n h, h (suc n))

-- `memcpy(m + i, bs, …)`, byte by byte, and the `n` bytes from `i` on.
unfoldable pub store : (ℕ → ℕ) → ℕ → List ℕ → ℕ → ℕ
store m i [] = m
store m i (b ∷ bs) = store (update m i b) (i + 1) bs

unfoldable pub load : (ℕ → ℕ) → ℕ → ℕ → List ℕ
load m i zero = []
load m i (suc n) = m i ∷ load m (i + 1) n

-- `memmove(m, m + d, n)`
abbrev pub slide : (ℕ → ℕ) → ℕ → ℕ → ℕ → ℕ
slide m d n j = if ltb j n then m (j + d) else m j

pub store_before : (bs : List ℕ) (m : ℕ → ℕ) (i j : ℕ) → j < i → store m i bs j ≡ m j
unfolding store
store_before [] m i j h = refl
store_before (b ∷ bs) m i j h = ground (arith, store_before bs (update m i b) (i + 1) j)

pub store_after : (bs : List ℕ) (m : ℕ → ℕ) (i j : ℕ) → i + length bs ≤ j → store m i bs j ≡ m j
unfolding store
store_after [] m i j h = refl
store_after (b ∷ bs) m i j h = ground (arith, store_after bs (update m i b) (i + 1) j)

pub load-store : (bs : List ℕ) (m : ℕ → ℕ) (i : ℕ) → load (store m i bs) i (length bs) ≡ bs
unfolding store load
load-store [] m i = refl
load-store (b ∷ bs) m i =
    ap₂ ◌∷◌ (ground (arith, store_before bs (update m i b) (i + 1) i))
      (load-store bs (update m i b) (i + 1))
