-- ===== src/Net/Reading.antt =====
-- What `Sockbuf_read` does, on every answer of the kernel.
use xpilot_fxi.Prelude.{ℕ, ◌+◌, ◌-◌, ◌≤◌, ◌<◌, ◌≡◌}
use xpilot_fxi.Prelude.Int.{ℤ}
use xpilot_fxi.Net.Sockbuf.{Sockbuf}
use xpilot_fxi.Net.Valid.{IsValid}

-- `t` is a valid buffer of the size of `s` which begins with what is unread in `s`.
abbrev pub Unread : Sockbuf → Sockbuf → Type 0
Unread s t =
    IsValid t
    × (t.size ≡ s.size)
    × (s.len - s.ptr ≤ t.len - t.ptr)
    × ((j : ℕ) → j < s.len - s.ptr → t.buf (t.ptr + j) ≡ s.buf (s.ptr + j))

module _ (s : Sockbuf) (v : IsValid s) where
  abbrev Kept : ℤ → Sockbuf → Type 0
  Kept r = Unread s
