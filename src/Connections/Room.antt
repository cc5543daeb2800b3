-- ===== src/Connections/Room.antt =====
-- The packets of points leave the spare room of the buffer.
use xpilot_fxi.Prelude.{
  ℕ, ◌+◌, ◌-◌, ◌*◌, ◌/◌, ◌≤◌, ◌<◌, ◌≡◌, ◌⊎◌, inl, inr, Bool, true, false, Option, none, some, List,
  ◌++◌, ltb, leb, if◌then◌else◌, length, arith, refl, Bool-cases,
}
use xpilot_fxi.Prelude.Int.{ℤ, pos}
use xpilot_fxi.Prelude.Memory.{load}
use xpilot_fxi.Net.Print.{write_spare}
use xpilot_fxi.Connections.Server.{Server, put}
use xpilot_fxi.Connections.Bursts.{
  fitting, available, add_bytes, put_points, send_points, debris_header, send_debris,
  fastshot_header, send_fastshot, fastradar_header, send_fastradar,
}

-- The end of a function that was to write `n` points of `unit` bytes at `p`: nothing was written, as
-- there are too many points for a byte or no room for one, or `m` of them were, all where they fit,
-- and the spare room is left.
abbrev pub Burst :
    ℕ → ℕ → ℕ → (ℕ → List ℕ) → (ℕ → ℕ) → (ℕ → ℕ) → ℕ → Server → Option (ℤ × Server) → Type 0
Burst i unit reserve header answer p n s x =
    let conn = s.conns i in
    ((x ≡ some (pos 0, s)) × ((256 ≤ n) ⊎ (available conn.w reserve ≤ unit)))
    ⊎ ((m : ℕ) × (m ≤ n)
        × (n * unit < available conn.w reserve → m ≡ n)
        × (conn.w.len + length (header m) + m * unit + write_spare ≤ conn.w.size)
        × (x
            ≡ some (
              pos (answer m),
              put i (record conn { w = add_bytes (header m ++ load p 0 (m * unit)) conn.w }) s,
            )))

-- What `fitting` answers.
abbrev Fitting : ℕ → ℕ → ℕ → Option ℕ → Type 0
Fitting unit avail n none = avail ≤ unit
Fitting unit avail n (some m) =
    (m ≤ n) × (n * unit < avail → m ≡ n) × (m * unit ≤ avail) × (0 < avail)

if-Fitting :
    (unit avail n : ℕ) (b : Bool) (x y : Option ℕ)
    → (b ≡ true → Fitting unit avail n x)
    → (b ≡ false → Fitting unit avail n y)
    → Fitting unit avail n (if b then x else y)
if-Fitting unit avail n true x y p q = p refl
if-Fitting unit avail n false x y p q = q refl

fitting-2 : (avail n : ℕ) → Fitting 2 avail n (fitting 2 avail n)
unfolding fitting
fitting-2 avail n =
    if-Fitting 2 avail n (leb avail (n * 2)) (if ltb 2 avail then some ((avail - 1) / 2) else none)
      (some n)
      (λ e.
        if-Fitting 2 avail n (ltb 2 avail) (some ((avail - 1) / 2)) none
          (λ e'. (ground arith, λ l. absurd (ground arith), ground arith, ground arith))
          (λ e'. ground arith))
      (λ e. (omega arith, λ l. refl, ground arith, ground arith))

fitting-3 : (avail n : ℕ) → Fitting 3 avail n (fitting 3 avail n)
unfolding fitting
fitting-3 avail n =
    if-Fitting 3 avail n (leb avail (n * 3)) (if ltb 3 avail then some ((avail - 2) / 3) else none)
      (some n)
      (λ e.
        if-Fitting 3 avail n (ltb 3 avail) (some ((avail - 2) / 3)) none
          (λ e'. (ground arith, λ l. absurd (ground arith), ground arith, ground arith))
          (λ e'. ground arith))
      (λ e. (omega arith, λ l. refl, ground arith, ground arith))

send_points-Burst :
    (i unit reserve : ℕ) (header : ℕ → List ℕ) (answer p : ℕ → ℕ) (n : ℕ) (s : Server)
    → ((m : ℕ) → length (header m) ≤ reserve)
    → Fitting unit
        (available (s.conns i).w reserve)
        n
        (fitting unit (available (s.conns i).w reserve) n)
    → Burst i unit reserve header answer p n s (send_points i unit reserve header answer p n s)
unfolding send_points put_points
send_points-Burst i unit reserve header answer p n s short f = elim (Bool-cases (leb 256 n)) [
  | inl e ↦ rw (send_points, e) (inl (refl, inl (ground arith)))
  | inr e ↦ rw (send_points, e) (go (fitting unit (available (s.conns i).w reserve) n) f)
]
  where
    go :
        (x : Option ℕ)
        → Fitting unit (available (s.conns i).w reserve) n x
        → Burst i unit reserve header answer p n s (put_points i unit header answer p x s)
    go none h = inl (refl, inr h)
    go (some m) h = inr (m, h.0, h.1, omega (arith, h.2, h.3, short m), refl)

-- `Send_debris`, `Send_fastshot` and `Send_fastradar`, whatever is in the buffer: either nothing is
-- written and the result is 0, and there are 256 points or more or room for one more at most; or at
-- most the given number of points goes behind a header that tells how many, all of them where they
-- fit, and the end of the data leaves the 8 spare bytes.
pub bursts_lem :
    (i kind : ℕ) (p : ℕ → ℕ) (n : ℕ) (s : Server)
    → Burst i 2 2 (debris_header kind) (λ m. m) p n s (send_debris i kind p n s)
      × Burst i 2 3 (fastshot_header kind) (λ m. m) p n s (send_fastshot i kind p n s)
      × Burst i 3 3 (fastradar_header) (λ m. 2 + m * 3) p n s (send_fastradar i p n s)
unfolding send_debris send_fastshot send_fastradar
bursts_lem i kind p n s = (
  send_points-Burst i 2 2 (debris_header kind) (λ m. m) p n s (λ m. omega arith)
      (fitting-2 (available (s.conns i).w 2) n),
  send_points-Burst i 2 3 (fastshot_header kind) (λ m. m) p n s (λ m. omega arith)
      (fitting-2 (available (s.conns i).w 3) n),
  send_points-Burst i 3 3 (fastradar_header) (λ m. 2 + m * 3) p n s (λ m. omega arith)
      (fitting-3 (available (s.conns i).w 3) n),
)
