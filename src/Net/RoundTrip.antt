-- ===== src/Net/RoundTrip.antt =====
-- `Packet_printf` in front of `Packet_scanf`.
use xpilot_fxi.Prelude.{
  ℕ, ◌+◌, ◌≤◌, ◌<◌, ◌≡◌, Bool, Option, some, List, arith, sym, ap, ap₂, ◌∙◌, length,
}
use xpilot_fxi.Prelude.Int.{ℤ, pos}
use xpilot_fxi.Prelude.Memory.{load, load-store}
use xpilot_fxi.Net.Sockbuf.{Sockbuf, Received}
use xpilot_fxi.Net.Format.{start, directives, Arg}
use xpilot_fxi.Net.Print.{printf}
use xpilot_fxi.Net.Scan.{scanf}
use xpilot_fxi.Net.Wire.{FitsAll, narrow_all, Reads-load}
use xpilot_fxi.Net.Printed.{spare, packet, printf-wire}
use xpilot_fxi.Net.Scanned.{scanf-wire}

printed_parts :
    {n k : ℕ} {s t : Sockbuf}
    → ◌≡◌ {A = Option (ℤ × Sockbuf)} (some (pos n, s)) (some (pos k, t))
    → (n ≡ k) × (s ≡ t)
printed_parts e = (cc, cc)

-- Let `r` have received, behind its `ptr`, the `n` bytes that `Packet_printf` appended to `s`. If
-- the values were right for the format and the packet had room, `Packet_scanf` with the same format
-- returns the number of directives and stores the values, numbers modulo their widths.
pub packet_roundtrip :
    (last : Bool) (s r : Sockbuf) (fmt : List ℕ) (args : List Arg) (io : List Received) {n : ℕ}
    {s' : Sockbuf}
    → FitsAll (directives start fmt) args
    → s.len + length (packet last s fmt args) + spare last s fmt args < s.size
    → printf last s fmt args ≡ some (pos n, s')
    → load r.buf r.ptr n ≡ load s'.buf s.len n
    → r.ptr + n ≤ r.len
    → scanf r fmt io
      ≡ some (record {
        result = pos (length (directives start fmt));
        sbuf = record r { ptr = r.ptr + n };
        io = io;
        out = narrow_all (directives start fmt) args;
      })
packet_roundtrip last s r fmt args io {n} {s'} f room e same there =
    let bytes = packet last s fmt args in
    let both = sym e ∙ printf-wire last s fmt args f room in
    let (count, buffer) = printed_parts both in
    let held : load r.buf r.ptr (length bytes) ≡ bytes =
      ap (load r.buf r.ptr) (sym count)
      ∙ same
      ∙ ap₂ (λ (t : Sockbuf) k. load t.buf s.len k) buffer count
      ∙ load-store bytes s.buf s.len in
    rw count (scanf-wire r fmt args io f (Reads-load r.buf bytes r.ptr held) (omega arith))
