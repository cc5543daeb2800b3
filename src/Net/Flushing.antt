-- ===== src/Net/Flushing.antt =====
-- What `Sockbuf_flush` and `Sockbuf_write` do, on every answer of the kernel.
use xpilot_fxi.Prelude.{ℕ, ◌+◌, ◌≤◌, ◌<◌, ◌≡◌, ◌≢◌, ◌⊎◌, true, false, List, length, ◌||◌}
use xpilot_fxi.Prelude.Int.{ℤ, pos, minus_one}
use xpilot_fxi.Net.Sockbuf.{Sockbuf, Sent, append, write}
use xpilot_fxi.Net.Valid.{IsValid}
use xpilot_fxi.Net.Answers.{Flushed}

-- `Sockbuf_write` of `bytes` after a flush that returned `q` and left `t`.
abbrev pub AfterFlush : Sockbuf → ℤ → List ℕ → ℤ → Sockbuf → Type 0
AfterFlush t q bytes r s' =
    ((q ≡ minus_one) × (r ≡ minus_one) × (s' ≡ t))
    ⊎ ((q ≢ minus_one) × (t.size < t.len + length bytes) × (r ≡ pos 0) × (s' ≡ t))
    ⊎ ((q ≢ minus_one)
        × (t.len + length bytes ≤ t.size)
        × (r ≡ pos (length bytes))
        × (s' ≡ (append t bytes).1))

-- All ends of `Sockbuf_write` of `bytes` into `s`.
abbrev pub Written : Sockbuf → List ℕ → List Sent → ℤ → Sockbuf → Type 0
Written s bytes io r s' =
    ((s.state.write ≡ false) × (r ≡ minus_one) × (s' ≡ s))
    ⊎ ((s.state.write ≡ true)
        × (s.len + length bytes ≤ s.size)
        × (r ≡ pos (length bytes))
        × (s' ≡ (append s bytes).1))
    ⊎ ((s.state.write ≡ true)
        × (s.size < s.len + length bytes)
        × (s.state.lock || s.state.dgram ≡ true)
        × (r ≡ minus_one)
        × (s' ≡ s))
    ⊎ ((s.state.write ≡ true)
        × (s.size < s.len + length bytes)
        × (s.state.lock || s.state.dgram ≡ false)
        × ((t : Sockbuf) × (q : ℤ) × Flushed s io q t × AfterFlush t q bytes r s'))

-- The buffer that it leaves is valid and of the same size.
abbrev pub Wrote : Sockbuf → List ℕ → List Sent → ℤ → Sockbuf → Type 0
Wrote s bytes io r s' = IsValid s' × (s'.size ≡ s.size) × Written s bytes io r s'

-- What is left of it after a flush that left `t`.
abbrev Rest : Sockbuf → ℤ → List ℕ → ℤ → Sockbuf → Type 0
Rest t q bytes r s' = IsValid s' × (s'.size ≡ t.size) × AfterFlush t q bytes r s'
