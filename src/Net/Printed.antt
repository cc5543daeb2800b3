-- ===== src/Net/Printed.antt =====
-- `Packet_printf` against the wire format.
use xpilot_fxi.Prelude.{
  ℕ, zero, suc, ◌+◌, ◌<◌, ◌≡◌, ◌≢◌, Bool, none, some, List, [], ◌∷◌, ◌++◌, arith, refl, ap, ap₂,
  ◌∙◌, length, All, length-append, if◌then◌else◌,
}
use xpilot_fxi.Prelude.Int.{pos}
use xpilot_fxi.Prelude.Memory.{store}
use xpilot_fxi.Net.Sockbuf.{Sockbuf}
use xpilot_fxi.Net.Format.{
  Directive, char, int, uint, short, ushort, long, ulong, big_string, string, start, directives,
  Arg, num, str, max_chars, msg_len, bytes1, bytes2, bytes4,
}
use xpilot_fxi.Net.Print.{
  Printing, string_bytes, stop_room, put_num, put_bytes, put_string, put, put_all, emit, finish,
  printf, write_spare,
}
use xpilot_fxi.Net.Wire.{IsText, Fits, FitsAll, wire, wire_all, store-append}

string_bytes-text :
    (room : ℕ) (s : List ℕ)
    → length s < room
    → All (λ b. b ≢ 0) s
    → string_bytes room s ≡ s ++ (0 ∷ [])
unfolding string_bytes
string_bytes-text zero s h t = absurd (omega arith)
string_bytes-text (suc room) [] h t = refl
string_bytes-text (suc room) (b ∷ s) h t =
    ground (arith, string_bytes-text room s (omega arith) t.1)

-- A loop state in which nothing has failed.
abbrev going : (ℕ → ℕ) → ℕ → List Arg → Printing
going m at args = record { mem = m; at = at; args = args; failure = none }

-- The state after `bytes` have been written.
abbrev after : (ℕ → ℕ) → ℕ → List ℕ → List Arg → Printing
after m at bytes args = going (store m at bytes) (at + length bytes) args

module _ (size spare : ℕ) (m : ℕ → ℕ) (at : ℕ) (args : List Arg) where
  put_num-fits :
      (n v : ℕ) (bytes : ℕ → List ℕ)
      → at + n + spare < size
      → put_num size spare n bytes (going m at (num v ∷ args)) ≡ after m at (bytes v) args
  unfolding put_num emit
  put_num-fits n v bytes h = ground arith

  put_string-fits :
      (max : ℕ) (s : List ℕ)
      → IsText max s
      → at + length (s ++ (0 ∷ [])) + spare < size
      → put_string size spare max (going m at (str s ∷ args)) ≡ after m at (s ++ (0 ∷ [])) args
  unfolding put_string put_bytes emit
  put_string-fits max s t h =
      let room : length s < stop_room size spare max at =
        ground (arith, length-append s (0 ∷ [])) in
      rw (string_bytes-text (stop_room size spare max at) s room t.1) (ground arith)

  put-Fits :
      (d : Directive) (a : Arg)
      → Fits d a
      → at + length (wire d a) + spare < size
      → put size spare d (going m at (a ∷ args)) ≡ after m at (wire d a) args
  unfolding put
  put-Fits char (num v) f h = put_num-fits 1 v bytes1 h
  put-Fits int (num v) f h = put_num-fits 4 v bytes4 h
  put-Fits uint (num v) f h = put_num-fits 4 v bytes4 h
  put-Fits short (num v) f h = put_num-fits 2 v bytes2 h
  put-Fits ushort (num v) f h = put_num-fits 2 v bytes2 h
  put-Fits long (num v) f h = put_num-fits 4 v bytes4 h
  put-Fits ulong (num v) f h = put_num-fits 4 v bytes4 h
  put-Fits big_string (str s) f h = put_string-fits msg_len s f h
  put-Fits string (str s) f h = put_string-fits max_chars s f h
  put-Fits _ _ f h = absurd f

put_all-wire :
    (size spare : ℕ) (ds : List Directive) (args : List Arg) (m : ℕ → ℕ) (at : ℕ)
    → FitsAll ds args
    → at + length (wire_all ds args) + spare < size
    → put_all size spare ds (going m at args) ≡ after m at (wire_all ds args) []
unfolding put_all store
put_all-wire size spare [] [] m at f h = ap (λ i. going m i []) (omega arith)
put_all-wire size spare [] (a ∷ args) m at f h = absurd f
put_all-wire size spare (d ∷ ds) [] m at f h = absurd f
put_all-wire size spare (d ∷ ds) (a ∷ args) m at f h =
    let whole = length-append (wire d a) (wire_all ds args) in
    let first = put-Fits size spare m at args d a f.0 (omega (arith, whole)) in
    rw (put_all, first)
      (put_all-wire size spare ds args (store m at (wire d a)) (at + length (wire d a)) f.1
          (omega (arith, whole))
        ∙ ap₂ (λ m' i. going m' i []) (store-append (wire d a) (wire_all ds args) m at)
            (omega (arith, whole)))

module _ (last : Bool) (s : Sockbuf) (fmt : List ℕ) (args : List Arg) where
  -- The room that `Packet_printf` keeps free behind a packet.
  abbrev pub spare : ℕ
  spare = if last then 0 else write_spare

  abbrev pub packet : List ℕ
  packet = wire_all (directives start fmt) args

  -- Values that are right for the format, and fit with the spare room, are appended in the wire
  -- format; the number of bytes is returned and nothing else changes.
  pub printf-wire :
      FitsAll (directives start fmt) args
      → s.len + length packet + spare < s.size
      → printf last s fmt args
        ≡ some (
          pos (length packet),
          record s { buf = store s.buf s.len packet; len = s.len + length packet },
        )
  unfolding printf finish
  printf-wire f h =
      rw (printf, put_all-wire s.size spare (directives start fmt) args s.buf s.len f h)
        (ground arith)
