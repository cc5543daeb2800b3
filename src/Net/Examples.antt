-- ===== src/Net/Examples.antt =====
-- Socket buffers on concrete inputs, and the theorems at such inputs.
use xpilot_fxi.Prelude.{
  ℕ, suc, ◌+◌, ◌≤◌, ◌≡◌, ◌⊎◌, refl, inr, arith, List, [], ◌∷◌, true, false, some,
}
use xpilot_fxi.Prelude.Int.{pos}
use xpilot_fxi.Prelude.Memory.{store, load}
use xpilot_fxi.Net.Sockbuf.{Sockbuf, Flags, no_flags, write}
use xpilot_fxi.Net.Recv.{read}
use xpilot_fxi.Net.Format.{Arg, num, str, directives}
use xpilot_fxi.Net.Print.{printf}
use xpilot_fxi.Net.Scan.{Scanned, scanf, error_text}
use xpilot_fxi.Net.Printed.{printf-wire}
use xpilot_fxi.Net.Scanned.{scanf-wire}
use xpilot_fxi.Net.RoundTrip.{packet_roundtrip}
use xpilot_fxi.Net.Overlong.{percent_s, overlong_string}
use xpilot_fxi.Net.Bounds.{printf_bounds}

abbrev rw_dgram : Flags
rw_dgram = record no_flags { read = true; write = true; dgram = true }

abbrev rw_stream : Flags
rw_stream = record no_flags { read = true; write = true }

abbrev empty : Sockbuf
empty = record {
  sock = 3;
  allocated = true;
  buf = λ _. 0;
  size = 1024;
  len = 0;
  ptr = 0;
  state = rw_dgram;
}

-- "%c%hd%s"
abbrev fmt : List ℕ
fmt = b'%' ∷ b'c' ∷ b'%' ∷ b'h' ∷ b'd' ∷ b'%' ∷ b's' ∷ []

abbrev values : List Arg
values = num 300 ∷ num 0x1234 ∷ str (b'h' ∷ b'i' ∷ []) ∷ []

abbrev sent_bytes : List ℕ
sent_bytes = 44 ∷ 0x12 ∷ 0x34 ∷ b'h' ∷ b'i' ∷ 0 ∷ []

-- The buffer after the packet has been printed, or after its bytes have been received.
abbrev full : Sockbuf
full = record empty { buf = store (λ _. 0) 0 sent_bytes; len = 6 }

printf-empty : printf false empty fmt values ≡ some (pos 6, full)
unfolding printf store
printf-empty = refl

scanf-full :
    scanf full fmt []
    ≡ some (record {
      result = pos 3;
      sbuf = record full { ptr = 6 };
      io = [];
      out = num 44 ∷ num 0x1234 ∷ str (b'h' ∷ b'i' ∷ []) ∷ [];
    })
unfolding scanf store
scanf-full = refl

printf-wire_example : printf false empty fmt values ≡ some (pos 6, full)
unfolding directives store
printf-wire_example = printf-wire false empty fmt values (omega arith) (omega arith)

abbrev scanned_full : Scanned
scanned_full = record {
  result = pos 3;
  sbuf = record full { ptr = 6 };
  io = [];
  out = num 44 ∷ num 0x1234 ∷ str (b'h' ∷ b'i' ∷ []) ∷ [];
}

scanf-wire_example : scanf full fmt [] ≡ some scanned_full
unfolding directives store
scanf-wire_example = scanf-wire full fmt values [] (omega arith) (omega arith) (omega arith)

packet_roundtrip_example : scanf full fmt [] ≡ some scanned_full
unfolding directives store load printf
packet_roundtrip_example =
    packet_roundtrip false empty full fmt values [] (omega arith) (omega arith) refl refl
      (omega arith)

-- 81 letters.
abbrev letters : ℕ → List ℕ
letters ℕ.zero = []
letters (suc n) = b'a' ∷ letters n

abbrev long_text : List ℕ
long_text = letters 81

abbrev received_letters : Sockbuf
received_letters = record empty { buf = λ _. b'a'; len = 80 }

overlong_string_example :
    (printf true empty percent_s (str long_text ∷ [])
      ≡ some (pos 80, record empty { buf = store (λ _. 0) 0 (letters 80); len = 80 }))
    × (scanf received_letters percent_s []
        ≡ some (record {
          result = pos 0;
          sbuf = received_letters;
          io = [];
          out = str error_text ∷ [];
        }))
overlong_string_example =
    overlong_string true empty received_letters long_text [] (omega arith) (omega arith)
      (omega arith) (omega arith) (omega arith)

printf_bounds_example :
    (full.buf 1020 ≡ 0)
    × (0 ≤ 6)
    × ((full.len ≡ 0) ⊎ (6 + 8 ≤ 1024))
    × (full.size ≡ 1024)
    × (full.ptr ≡ 0)
unfolding printf store
printf_bounds_example =
    printf_bounds false empty full fmt values (pos 6) 1020 refl (inr (omega arith))

-- Three bytes of six have been scanned.
abbrev half_read : Sockbuf
half_read = record full { ptr = 3; state = rw_stream }

abbrev tight : Sockbuf
tight = record half_read { size = 7 }
