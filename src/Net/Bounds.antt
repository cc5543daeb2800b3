-- ===== src/Net/Bounds.antt =====
-- Where in its buffer `Packet_printf` writes.
use xpilot_fxi.Prelude.{
  ℕ, zero, suc, ◌+◌, ◌≤◌, ◌<◌, ◌≡◌, ◌⊎◌, inl, inr, Bool, true, false, some, none, Option, List, [],
  ◌∷◌, arith, refl, length, if◌then◌else◌, ltb, leb, ◌&&◌,
}
use xpilot_fxi.Prelude.Int.{ℤ}
use xpilot_fxi.Prelude.Memory.{store_before, store_after}
use xpilot_fxi.Net.Sockbuf.{Sockbuf}
use xpilot_fxi.Net.Format.{
  Directive, char, int, uint, short, ushort, half_bad, long, ulong, long_bad, big_string, string,
  bad, start, directives, Arg, num, str, max_chars, msg_len, bytes1, bytes2, bytes4,
}
use xpilot_fxi.Net.Print.{
  Printing, PrintFailure, format_error, size_error, undefined, string_bytes, stop_room, put_num,
  put_bad, put_bytes, put_string, put, put_all, after_put, emit, fail, finish, printf, write_spare,
  print_start,
}

length-string_bytes : (room : ℕ) (s : List ℕ) → length (string_bytes room s) ≤ room
unfolding string_bytes
length-string_bytes zero s = omega arith
length-string_bytes (suc room) [] = omega arith
length-string_bytes (suc room) (b ∷ s) = ground (arith, length-string_bytes room s)

-- A string writes nothing, or ends before the spare room.
string_room :
    (size spare max at : ℕ) (s : List ℕ)
    → let bytes = string_bytes (stop_room size spare max at) s in
      (length bytes ≡ 0) ⊎ (at + length bytes + spare ≤ size)
unfolding stop_room
string_room size spare max at s =
    ground (arith, length-string_bytes (stop_room size spare max at) s)

module _ (m : ℕ → ℕ) (lo size spare : ℕ) where
  -- What a run of the loop that began at offset `lo` over the memory `m` may have done.
  pub record Inside (p : Printing) : Type 0 where
    pub from : lo ≤ p.at
    pub to : (p.at ≡ lo) ⊎ (p.at + spare ≤ size)
    pub same : (j : ℕ) → (j < lo) ⊎ (size ≤ j + spare) → p.mem j ≡ m j

  fail-Inside : (e : PrintFailure) {p : Printing} → Inside p → Inside (fail e p)
  unfolding fail
  fail-Inside e i = record { from = i.from; to = i.to; same = i.same }

  emit-Inside :
      (bytes : List ℕ) (args : List Arg) {p : Printing}
      → (length bytes ≡ 0) ⊎ (p.at + length bytes + spare ≤ size)
      → Inside p
      → Inside (emit bytes args p)
  unfolding emit
  emit-Inside bytes args {p} h i = record {
    from = omega (arith, i.from);
    to = ground (arith, h, i.to);
    same = λ j out. ground (
      arith,
      h,
      i.from,
      i.same j out,
      store_before bytes p.mem p.at j,
      store_after bytes p.mem p.at j,
    );
  }

  if-Inside :
      (b : Bool) {p q : Printing}
      → (b ≡ true → Inside p)
      → (b ≡ false → Inside q)
      → Inside (if b then p else q)
  if-Inside true yes_case no_case = yes_case refl
  if-Inside false yes_case no_case = no_case refl

  -- A loop state given by its parts, so that its arguments can be matched.
  abbrev state : (ℕ → ℕ) → ℕ → List Arg → Option PrintFailure → Printing
  state mem at args f = record { mem = mem; at = at; args = args; failure = f }

  put_num-Inside :
      (n : ℕ) (bytes : ℕ → List ℕ)
      → ((v : ℕ) → length (bytes v) ≡ n)
      → (mem : ℕ → ℕ) (at : ℕ) (args : List Arg) (f : Option PrintFailure)
      → Inside (state mem at args f)
      → Inside (put_num size spare n bytes (state mem at args f))
  unfolding put_num
  put_num-Inside n bytes w mem at [] f i =
      if-Inside (leb size (at + n + spare)) (λ _. fail-Inside size_error i)
        (λ _. fail-Inside undefined i)
  put_num-Inside n bytes w mem at (str s ∷ args) f i =
      if-Inside (leb size (at + n + spare)) (λ _. fail-Inside size_error i)
        (λ _. fail-Inside undefined i)
  put_num-Inside n bytes w mem at (num v ∷ args) f i =
      if-Inside (leb size (at + n + spare)) (λ _. fail-Inside size_error i)
        (λ e. emit-Inside (bytes v) args (inr (fits e)) i)
    where
      fits : leb size (at + n + spare) ≡ false → at + length (bytes v) + spare ≤ size
      fits e = ground (arith, w v)

  put_bad-Inside : (n : ℕ) {p : Printing} → Inside p → Inside (put_bad size spare n p)
  unfolding put_bad
  put_bad-Inside n {p} i =
      if-Inside (leb size (p.at + n + spare)) (λ _. fail-Inside size_error i)
        (λ _. fail-Inside format_error i)

  put_bytes-Inside :
      (max : ℕ) (s : List ℕ) (args : List Arg) {p : Printing}
      → Inside p
      → Inside (put_bytes size spare max s args p)
  unfolding put_bytes emit
  put_bytes-Inside max s args {p} i =
      let room = stop_room size spare max p.at in
      let written = emit-Inside (string_bytes room s) args (string_room size spare max p.at s) i in
      if-Inside
        (leb size (p.at + max + spare) && ltb size (p.at + length (string_bytes room s) + spare))
        (λ _. fail-Inside size_error written) (λ _. written)

  put_string-Inside :
      (max : ℕ)
      → (mem : ℕ → ℕ) (at : ℕ) (args : List Arg) (f : Option PrintFailure)
      → Inside (state mem at args f)
      → Inside (put_string size spare max (state mem at args f))
  unfolding put_string
  put_string-Inside max mem at [] f i = fail-Inside _ i
  put_string-Inside max mem at (num v ∷ args) f i = fail-Inside _ i
  put_string-Inside max mem at (str s ∷ args) f i = put_bytes-Inside max s args i

  put-Inside : (d : Directive) {p : Printing} → Inside p → Inside (put size spare d p)
  unfolding put
  put-Inside char {p} i = put_num-Inside 1 bytes1 (λ v. refl) p.mem p.at p.args p.failure i
  put-Inside int {p} i = put_num-Inside 4 bytes4 (λ v. refl) p.mem p.at p.args p.failure i
  put-Inside uint {p} i = put_num-Inside 4 bytes4 (λ v. refl) p.mem p.at p.args p.failure i
  put-Inside short {p} i = put_num-Inside 2 bytes2 (λ v. refl) p.mem p.at p.args p.failure i
  put-Inside ushort {p} i = put_num-Inside 2 bytes2 (λ v. refl) p.mem p.at p.args p.failure i
  put-Inside half_bad i = put_bad-Inside 2 i
  put-Inside long {p} i = put_num-Inside 4 bytes4 (λ v. refl) p.mem p.at p.args p.failure i
  put-Inside ulong {p} i = put_num-Inside 4 bytes4 (λ v. refl) p.mem p.at p.args p.failure i
  put-Inside long_bad i = put_bad-Inside 4 i
  put-Inside big_string {p} i = put_string-Inside msg_len p.mem p.at p.args p.failure i
  put-Inside string {p} i = put_string-Inside max_chars p.mem p.at p.args p.failure i
  put-Inside bad i = fail-Inside _ i

  after_put-Inside :
      (next : Printing → Printing) (mem : ℕ → ℕ) (at : ℕ) (args : List Arg)
      (f : Option PrintFailure)
      → Inside (state mem at args f)
      → Inside (next (state mem at args f))
      → Inside (after_put next (state mem at args f))
  unfolding after_put
  after_put-Inside next mem at args none i k = k
  after_put-Inside next mem at args (some e) i k = i

  put_all-Inside :
      (ds : List Directive) {p : Printing} → Inside p → Inside (put_all size spare ds p)
  unfolding put_all
  put_all-Inside [] i = i
  put_all-Inside (d ∷ ds) {p} i =
      let p' = put size spare d p in
      let i' = put-Inside d i in
      after_put-Inside (λ q. put_all size spare ds q) p'.mem p'.at p'.args p'.failure i'
        (put_all-Inside ds i')

-- What `Packet_printf` may have done to a buffer: nothing before the old end of the data or behind
-- `size - spare` is written, and the new end is the old one or leaves the spare room.
pub record StaysInside (spare : ℕ) (s s' : Sockbuf) : Type 0 where
  pub same : (j : ℕ) → (j < s.len) ⊎ (s.size ≤ j + spare) → s'.buf j ≡ s.buf j
  pub grows : s.len ≤ s'.len
  pub fits : (s'.len ≡ s.len) ⊎ (s'.len + spare ≤ s.size)
  pub size : s'.size ≡ s.size
  pub ptr : s'.ptr ≡ s.ptr

some_parts :
    {r t : ℤ} {s s' : Sockbuf}
    → ◌≡◌ {A = Option (ℤ × Sockbuf)} (some (r, s)) (some (t, s'))
    → (r ≡ t) × (s ≡ s')
some_parts e = (cc, cc)

finish-StaysInside :
    (s : Sockbuf) (spare : ℕ) (mem : ℕ → ℕ) (at : ℕ) (args : List Arg) (f : Option PrintFailure)
    {r : ℤ} {s' : Sockbuf}
    → Inside s.buf s.len s.size spare (record { mem = mem; at = at; args = args; failure = f })
    → finish s (record { mem = mem; at = at; args = args; failure = f }) ≡ some (r, s')
    → StaysInside spare s s'
unfolding finish
finish-StaysInside s spare mem at args none {s'} i e =
    let (same_r, e') = some_parts e in
    rw (← e')
      (record { same = i.same; grows = omega arith; fits = ground arith; size = refl; ptr = refl })
finish-StaysInside s spare mem at args (some format_error) {s'} i e =
    rw (← (some_parts e).1)
      (record { same = i.same; grows = omega arith; fits = inl refl; size = refl; ptr = refl })
finish-StaysInside s spare mem at args (some size_error) {s'} i e =
    rw (← (some_parts e).1)
      (record { same = i.same; grows = omega arith; fits = inl refl; size = refl; ptr = refl })
finish-StaysInside s spare mem at args (some undefined) {s'} i e = cc

printf-StaysInside :
    (last : Bool) (s : Sockbuf) (fmt : List ℕ) (args : List Arg) {r : ℤ} {s' : Sockbuf}
    → printf last s fmt args ≡ some (r, s')
    → StaysInside (if last then 0 else write_spare) s s'
unfolding printf
printf-StaysInside last s fmt args e =
    let spare = if last then 0 else write_spare in
    let p = put_all s.size spare (directives start fmt) (print_start s args) in
    finish-StaysInside s spare p.mem p.at p.args p.failure
      (put_all-Inside s.buf s.len s.size spare (directives start fmt)
        (record { from = omega arith; to = inl refl; same = λ j out. refl }))
      e

-- Whatever the format and the values, where `Packet_printf` returns it has kept the size and `ptr`,
-- has written at no place `j` before the old end of the data or in the spare room at the end of
-- the memory, and the new end of the data is the old one or leaves the spare room.
pub printf_bounds :
    (last : Bool) (s s' : Sockbuf) (fmt : List ℕ) (args : List Arg) (r : ℤ) (j : ℕ)
    → printf last s fmt args ≡ some (r, s')
    → (j < s.len) ⊎ (s.size ≤ j + (if last then 0 else write_spare))
    → (s'.buf j ≡ s.buf j)
      × (s.len ≤ s'.len)
      × ((s'.len ≡ s.len) ⊎ (s'.len + (if last then 0 else write_spare) ≤ s.size))
      × (s'.size ≡ s.size)
      × (s'.ptr ≡ s.ptr)
printf_bounds last s s' fmt args r j e out =
    let i = printf-StaysInside last s fmt args e in (i.same j out, i.grows, i.fits, i.size, i.ptr)
