-- ===== src/Net/Scan.antt =====
-- common/net.c: `Packet_scanf`. The values stored through its pointers are its output, in order.
use xpilot_fxi.Prelude.{
  ℕ, zero, suc, ◌+◌, Bool, Option, none, some, List, [], ◌∷◌, ◌++◌, ltb, ◌==◌, ◌||◌, if◌then◌else◌,
}
use xpilot_fxi.Prelude.Int.{ℤ, pos, negsuc, minus_one}
use xpilot_fxi.Net.Sockbuf.{Sockbuf, Received}
use xpilot_fxi.Net.Recv.{read}
use xpilot_fxi.Net.Format.{
  Directive, char, int, uint, short, ushort, half_bad, long, ulong, long_bad, big_string, string,
  bad, start, directives, Arg, num, str, max_chars, msg_len, word2, word4,
}

-- The values 1, 2 and 3 of `failure`.
pub data ScanFailure : Type 0 where
  format_error io_error no_data : ScanFailure

-- The variables of the loop: `j` counts the bytes read from `ptr` on.
pub record Scanning : Type 0 where
  pub sbuf : Sockbuf
  pub io : List Received
  pub j : ℕ
  pub count : ℕ
  pub out : List Arg
  pub failure : Option ScanFailure

unfoldable pub fail : ScanFailure → Scanning → Scanning
fail e t = record t { failure = some e }

-- `sbuf->ptr[j + i]`
abbrev pub byte : Scanning → ℕ → ℕ
byte t i = t.sbuf.buf (t.sbuf.ptr + t.j + i)

-- `&sbuf->buf[sbuf->len] < &sbuf->ptr[j + n]`
abbrev pub short_of : Scanning → ℕ → Bool
short_of t n = ltb t.sbuf.len (t.sbuf.ptr + t.j + n)

-- After `Sockbuf_read`, which returned `r`.
unfoldable pub refilled : ℕ → Scanning → ℤ × Sockbuf × List Received → Scanning
unfolding fail
refilled n t (negsuc zero, s, io) = fail io_error (record t { sbuf = s; io = io })
refilled n t (_, s, io) =
    let t' : Scanning = record t { sbuf = s; io = io } in
    if short_of t' n then fail no_data t' else t'

-- The block before each read: `n` bytes must be there, or be fetched. `none` is a wait.
unfoldable pub need : ℕ → Scanning → Option Scanning
unfolding refilled fail read
need n t =
    if short_of t n
    then if t.sbuf.state.dgram || t.sbuf.state.lock
      then some (fail no_data t)
      else elim (read t.sbuf t.io) [ none ↦ none | some r ↦ some (refilled n t r) ]
    else some t

unfoldable pub take_bytes : ℕ → Arg → Scanning → Scanning
take_bytes n v t = record t { j = t.j + n; out = t.out ++ (v ∷ []) }

-- A value of `n` bytes, decoded by `value`.
unfoldable pub get_num : ℕ → (Scanning → ℕ) → Scanning → Option Scanning
unfolding need take_bytes
get_num n value t = elim (need n t) [
  | none ↦ none
  | some t' ↦ elim t'.failure [ none ↦ some (take_bytes n (num (value t')) t') | some e ↦ some t' ]
]

unfoldable pub get_bad : ℕ → Scanning → Option Scanning
unfolding need fail
get_bad n t = elim (need n t) [
  | none ↦ none
  | some t' ↦ elim t'.failure [ none ↦ some (fail format_error t') | some e ↦ some t' ]
]

-- `strcpy(str, "ErRoR")`
abbrev pub error_text : List ℕ
error_text = b'E' ∷ b'r' ∷ b'R' ∷ b'o' ∷ b'R' ∷ []

unfoldable pub spoil : ScanFailure → Scanning → Scanning
unfolding fail
spoil e t = fail e (record t { out = t.out ++ (str error_text ∷ []) })

-- A string too long for its buffer.
unfoldable pub overflow : Scanning → Scanning
unfolding spoil
overflow t = spoil (if t.sbuf.state.lock then io_error else no_data) t

unfoldable pub after_need : (Scanning → Option Scanning) → Option Scanning → Option Scanning
unfolding spoil
after_need k none = none
after_need k (some t) = elim t.failure [ none ↦ k t | some e ↦ some (spoil e t) ]

-- The `for (;;)` of a string: `left` is `max_str_size - k`, and `got` the bytes in `str`.
unfoldable pub get_chars : ℕ → List ℕ → Scanning → Option Scanning
unfolding after_need need overflow
get_chars zero got t = some (overflow t)
get_chars (suc left) got t =
    after_need
      (λ t'.
        let b = byte t' 0 in
        let t'' : Scanning = record t' { j = t'.j + 1 } in
        let more = get_chars left (got ++ (b ∷ [])) t'' in
        if b == 0
        then some (record t'' { out = t''.out ++ (str got ∷ []) })
        else if left == 0
        then some (overflow t'')
        else more)
      (need 1 t)

abbrev pub value1 : Scanning → ℕ
value1 t = byte t 0

abbrev pub value2 : Scanning → ℕ
value2 t = word2 (byte t 0) (byte t 1)

abbrev pub value4 : Scanning → ℕ
value4 t = word4 (byte t 0) (byte t 1) (byte t 2) (byte t 3)

unfoldable pub get : Directive → Scanning → Option Scanning
unfolding get_num get_bad get_chars fail
get char t = get_num 1 value1 t
get int t = get_num 4 value4 t
get uint t = get_num 4 value4 t
get short t = get_num 2 value2 t
get ushort t = get_num 2 value2 t
get half_bad t = get_bad 2 t
get long t = get_num 4 value4 t
get ulong t = get_num 4 value4 t
get long_bad t = get_bad 4 t
get big_string t = get_chars msg_len [] t
get string t = get_chars max_chars [] t
get bad t = some (fail format_error t)

unfoldable pub after_get : (Scanning → Option Scanning) → Option Scanning → Option Scanning
after_get k none = none
after_get k (some t) = elim t.failure [ none ↦ k t | some e ↦ some t ]

-- `count++` comes with each `%`; where the `%` itself is missing the count is not used.
unfoldable pub get_all : List Directive → Scanning → Option Scanning
unfolding get after_get
get_all [] t = some t
get_all (d ∷ ds) t = after_get (λ t'. get_all ds t') (get d (record t { count = t.count + 1 }))

pub record Scanned : Type 0 where
  pub result : ℤ
  pub sbuf : Sockbuf
  pub io : List Received
  pub out : List Arg

abbrev scanned : ℤ → Scanning → Scanned
scanned r t = record { result = r; sbuf = t.sbuf; io = t.io; out = t.out }

-- What follows the loop.
unfoldable pub finish : Scanning → Scanned
finish t = elim t.failure [
  | some format_error ↦ scanned minus_one t
  | some io_error ↦ scanned minus_one t
  | some no_data ↦ scanned (pos 0) t
  | none ↦
      if ltb t.sbuf.len (t.sbuf.ptr + t.j)
      then scanned minus_one t
      else scanned (pos t.count) (record t { sbuf = record t.sbuf { ptr = t.sbuf.ptr + t.j } })
]

abbrev pub scan_start : Sockbuf → List Received → Scanning
scan_start s io = record { sbuf = s; io = io; j = 0; count = 0; out = []; failure = none }

unfoldable pub scanf : Sockbuf → List ℕ → List Received → Option Scanned
unfolding get_all finish directives
scanf s fmt io = elim (get_all (directives start fmt) (scan_start s io)) [
  | none ↦ none
  | some t ↦ some (finish t)
]
