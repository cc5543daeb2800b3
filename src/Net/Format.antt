-- ===== src/Net/Format.antt =====
-- common/net.c: the format strings of `Packet_printf` and `Packet_scanf`, which both functions
-- read by the same nested switches, and the values that go with them.
use xpilot_fxi.Prelude.{ℕ, ◌+◌, ◌*◌, ◌/◌, ◌%◌, ◌^◌, List, [], ◌∷◌, ◌==◌, if◌then◌else◌}

-- A case of the switches. `half_bad` and `long_bad` are `%h` and `%l` before another character, and
-- `bad` is any other mistake: no `%`, or an unknown character behind it.
pub data Directive : Type 0 where
  char : Directive
  int uint : Directive
  short ushort half_bad : Directive
  long ulong long_bad : Directive
  big_string string : Directive
  bad : Directive

-- Where the loop over `fmt` stands.
pub data Mode : Type 0 where
  start percent half long_mode : Mode

pub simple : ℕ → Directive
simple c =
    if c == b'c'
    then char
    else if c == b'd'
    then int
    else if c == b'u'
    then uint
    else if c == b'S'
    then big_string
    else if c == b's'
    then string
    else bad

pub in_half : ℕ → Directive
in_half c = if c == b'd' then short else if c == b'u' then ushort else half_bad

pub in_long : ℕ → Directive
in_long c = if c == b'd' then long else if c == b'u' then ulong else long_bad

-- The cases that `for (i = 0; fmt[i] != '\0'; i++)` enters; a bad one ends the loop.
unfoldable pub directives : Mode → List ℕ → List Directive
unfolding simple in_half in_long
directives start [] = []
directives start (c ∷ fmt) =
    let rest = directives percent fmt in if c == b'%' then rest else bad ∷ []
directives percent [] = bad ∷ []
directives percent (c ∷ fmt) =
    let in_h = directives half fmt in
    let in_l = directives long_mode fmt in
    let next = directives start fmt in
    if c == b'h' then in_h else if c == b'l' then in_l else simple c ∷ next
directives half [] = half_bad ∷ []
directives half (c ∷ fmt) = in_half c ∷ directives start fmt
directives long_mode [] = long_bad ∷ []
directives long_mode (c ∷ fmt) = in_long c ∷ directives start fmt

-- What `va_arg` gives or what is stored through it: a number as its bit pattern, or the bytes of a
-- string without its NUL.
pub data Arg : Type 0 where
  num : ℕ → Arg
  str : List ℕ → Arg

abbrev pub max_chars : ℕ
max_chars = 80

abbrev pub msg_len : ℕ
msg_len = 256

-- `*buf++ = v >> 24` and so on.
abbrev pub bytes1 : ℕ → List ℕ
bytes1 v = v % 256 ∷ []

abbrev pub bytes2 : ℕ → List ℕ
bytes2 v = v / 2 ^ 8 % 256 ∷ v % 256 ∷ []

abbrev pub bytes4 : ℕ → List ℕ
bytes4 v = v / 2 ^ 24 % 256 ∷ v / 2 ^ 16 % 256 ∷ v / 2 ^ 8 % 256 ∷ v % 256 ∷ []

-- The scanning side; the shifted bytes have no bit in common, so `|=` adds.
abbrev pub word2 : ℕ → ℕ → ℕ
word2 a b = a * 2 ^ 8 + b

abbrev pub word4 : ℕ → ℕ → ℕ → ℕ → ℕ
word4 a b c d = a * 2 ^ 24 + b * 2 ^ 16 + c * 2 ^ 8 + d
