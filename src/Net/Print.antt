-- ===== src/Net/Print.antt =====
-- common/net.c: `Packet_printf`.
use xpilot_fxi.Prelude.{
  ℕ, zero, suc, ◌+◌, ◌-◌, Bool, Option, none, some, List, [], ◌∷◌, ltb, leb, ◌==◌, ◌&&◌,
  if◌then◌else◌, length,
}
use xpilot_fxi.Prelude.Int.{ℤ, pos, minus_one}
use xpilot_fxi.Prelude.Memory.{store}
use xpilot_fxi.Net.Sockbuf.{Sockbuf}
use xpilot_fxi.Net.Format.{
  Directive, char, int, uint, short, ushort, half_bad, long, ulong, long_bad, big_string, string,
  bad, start, directives, Arg, num, str, max_chars, msg_len, bytes1, bytes2, bytes4,
}

abbrev pub write_spare : ℕ
write_spare = 8

-- `PRINTF_FMT` and `PRINTF_SIZE`; `undefined` is a `va_arg` that meets no value of its type.
pub data PrintFailure : Type 0 where
  format_error size_error undefined : PrintFailure

-- The variables of the loop: the memory of `sbuf->buf`, the offset of `buf`, and what is left of
-- the variable arguments.
pub record Printing : Type 0 where
  pub mem : ℕ → ℕ
  pub at : ℕ
  pub args : List Arg
  pub failure : Option PrintFailure

unfoldable pub fail : PrintFailure → Printing → Printing
fail e p = record p { failure = some e }

unfoldable pub emit : List ℕ → List Arg → Printing → Printing
emit bytes args p = record p { mem = store p.mem p.at bytes; at = p.at + length bytes; args = args }

-- The bytes that the loop over a string writes, NUL included, before `buf` reaches `stop`.
unfoldable pub string_bytes : ℕ → List ℕ → List ℕ
string_bytes zero s = []
string_bytes (suc room) [] = 0 ∷ []
string_bytes (suc room) (b ∷ s) =
    let rest = b ∷ string_bytes room s in if b == 0 then 0 ∷ [] else rest

-- The loop goes on while `failure == 0`.
unfoldable pub after_put : (Printing → Printing) → Printing → Printing
after_put next p = elim p.failure [ none ↦ next p | some e ↦ p ]

module _ (size spare : ℕ) where
  -- A number of `n` bytes. The test is `buf + n >= end`, where `end` is `size - spare`.
  unfoldable pub put_num : ℕ → (ℕ → List ℕ) → Printing → Printing
  unfolding fail emit
  put_num n bytes p = if leb size (p.at + n + spare) then fail size_error p else elim p.args [
    | [] ↦ fail undefined p
    | num v ∷ args ↦ emit (bytes v) args p
    | str s ∷ args ↦ fail undefined p
  ]

  -- `%h` or `%l` before a wrong character: the room is tested first.
  unfoldable pub put_bad : ℕ → Printing → Printing
  unfolding fail
  put_bad n p = if leb size (p.at + n + spare) then fail size_error p else fail format_error p

  -- `stop` is `end`, or `buf + max_str_size` where that is nearer.
  unfoldable pub stop_room : ℕ → ℕ → ℕ
  stop_room max at = if leb size (at + max + spare) then size - (at + spare) else max

  unfoldable pub put_bytes : ℕ → List ℕ → List Arg → Printing → Printing
  unfolding fail emit string_bytes stop_room
  put_bytes max s args p =
      let p' = emit (string_bytes (stop_room max p.at) s) args p in
      if leb size (p.at + max + spare) && ltb size (p'.at + spare) then fail size_error p' else p'

  unfoldable pub put_string : ℕ → Printing → Printing
  unfolding fail put_bytes
  put_string max p = elim p.args [
    | [] ↦ fail undefined p
    | num v ∷ args ↦ fail undefined p
    | str s ∷ args ↦ put_bytes max s args p
  ]

  unfoldable pub put : Directive → Printing → Printing
  unfolding put_num put_bad put_string
  put char = put_num 1 bytes1
  put int = put_num 4 bytes4
  put uint = put_num 4 bytes4
  put short = put_num 2 bytes2
  put ushort = put_num 2 bytes2
  put half_bad = put_bad 2
  put long = put_num 4 bytes4
  put ulong = put_num 4 bytes4
  put long_bad = put_bad 4
  put big_string = put_string msg_len
  put string = put_string max_chars
  put bad = fail format_error

  unfoldable pub put_all : List Directive → Printing → Printing
  unfolding put after_put
  put_all [] p = p
  put_all (d ∷ ds) p = after_put (λ p'. put_all ds p') (put d p)

-- What follows the loop. Bytes written before a failure stay behind the end of the data.
unfoldable pub finish : Sockbuf → Printing → Option (ℤ × Sockbuf)
finish s p = elim p.failure [
  | none ↦ some (pos (p.at - s.len), record s { buf = p.mem; len = s.len + (p.at - s.len) })
  | some format_error ↦ some (minus_one, record s { buf = p.mem })
  | some size_error ↦ some (if s.state.dgram then pos 0 else minus_one, record s { buf = p.mem })
  | some undefined ↦ none
]

abbrev pub print_start : Sockbuf → List Arg → Printing
print_start s args = record { mem = s.buf; at = s.len; args = args; failure = none }

-- `last` is `last_packet_of_frame == 1`. The result is `none` where the arguments do not fit the
-- format, which C leaves undefined.
unfoldable pub printf : Bool → Sockbuf → List ℕ → List Arg → Option (ℤ × Sockbuf)
unfolding put_all finish directives
printf last s fmt args =
    finish s
      (put_all s.size (if last then 0 else write_spare) (directives start fmt) (print_start s args))
