-- ===== src/Net/Overlong.antt =====
-- A string of `MAX_CHARS` characters or more under `%s`.
use xpilot_fxi.Prelude.{
  ℕ, zero, suc, ◌+◌, ◌≤◌, ◌<◌, ◌≡◌, ◌≢◌, Bool, false, none, some, leb, Bool-cases, inl, inr, List,
  [], ◌∷◌, ◌++◌, arith, refl, ap, ◌∙◌, length, All, take, if◌then◌else◌, ◌==◌, length-take,
}
use mathlib.Core.Path.{subst}
use xpilot_fxi.Prelude.Int.{pos, minus_one}
use xpilot_fxi.Prelude.Memory.{store}
use xpilot_fxi.Net.Sockbuf.{Sockbuf, Received}
use xpilot_fxi.Net.Format.{Arg, str, max_chars}
use xpilot_fxi.Net.Print.{
  printf, string_bytes, stop_room, put_bytes, put_string, put, put_all, emit, finish, after_put,
  write_spare,
}
use xpilot_fxi.Net.Scan.{
  scanf, get_chars, get, get_all, finish as scan_finish, after_get, overflow, spoil, fail,
  error_text,
}
use xpilot_fxi.Net.Wire.{Reads}
use xpilot_fxi.Net.Scanned.{reading, Holds, chars_step}

abbrev pub percent_s : List ℕ
percent_s = b'%' ∷ b's' ∷ []

string_bytes-long :
    (room : ℕ) (s : List ℕ)
    → room ≤ length s
    → All (λ b. b ≢ 0) s
    → string_bytes room s ≡ take room s
unfolding string_bytes
string_bytes-long zero s h t = refl
string_bytes-long (suc room) [] h t = absurd (omega arith)
string_bytes-long (suc room) (b ∷ s) h t =
    ground (arith, string_bytes-long room s (omega arith) t.1)

length-take_le {ℓ} : {A : Type ℓ} (n : ℕ) (xs : List A) → n ≤ length xs → length (take n xs) ≡ n
length-take_le n xs h = omega (arith, length-take n xs)

All-take : (n : ℕ) (xs : List ℕ) → All (λ b. b ≢ 0) xs → All (λ b. b ≢ 0) (take n xs)
All-take zero xs t = tt
All-take (suc n) [] t = tt
All-take (suc n) (x ∷ xs) t = (t.0, All-take n xs t.1)

put_string-long :
    (size spare max : ℕ) (m : ℕ → ℕ) (at : ℕ) (text : List ℕ)
    → max ≤ length text
    → All (λ b. b ≢ 0) text
    → at + max + spare < size
    → put_string size spare max (record { mem = m; at = at; args = str text ∷ []; failure = none })
      ≡ record { mem = store m at (take max text); at = at + max; args = []; failure = none }
unfolding put_string put_bytes emit stop_room
put_string-long size spare max m at text h t room =
    let near : leb size (at + max + spare) ≡ false = ground arith in
    rw (near, string_bytes-long max text h t, length-take_le max text h)

-- The first 80 characters go out, and no NUL; the call reports success.
pub printf-overlong :
    (last : Bool) (s : Sockbuf) (text : List ℕ)
    → max_chars ≤ length text
    → All (λ b. b ≢ 0) text
    → s.len + max_chars + (if last then 0 else write_spare) < s.size
    → printf last s percent_s (str text ∷ [])
      ≡ some (
        pos max_chars,
        record s { buf = store s.buf s.len (take max_chars text); len = s.len + max_chars },
      )
unfolding printf put_all after_put put finish
printf-overlong last s text h t room =
    let spare = if last then 0 else write_spare in
    rw (printf, put_all, put_string-long s.size spare max_chars s.buf s.len text h t room)
      (ground arith)

module _ (s : Sockbuf) (io : List Received) (count : ℕ) (out : List Arg) where
  -- A string of which no NUL comes within the receiver's buffer.
  get_chars-full :
      (left j : ℕ) (got bs : List ℕ)
      → Holds s io j bs
      → length bs ≡ suc left
      → All (λ b. b ≢ 0) bs
      → get_chars (suc left) got (reading s io j count out)
        ≡ some (overflow (reading s io (j + suc left) count out))
  get_chars-full left j got [] h e t = absurd (omega arith)
  get_chars-full zero j got (b ∷ []) h e t =
      chars_step s io count out zero j b got [] h ∙ ground arith
  get_chars-full (suc left) j got (b ∷ bs) h e t =
      chars_step s io count out (suc left) j b got bs h
      ∙ rw (more, room)
          (get_chars-full left (j + 1) (got ++ (b ∷ [])) bs (next, omega arith) (omega arith) t.1
            ∙ ap (λ k. some (overflow (reading s io k count out))) (omega arith))
    where
      more : (b == 0) ≡ false
      more = ground arith

      room : (suc left == 0) ≡ false
      room = ground arith

      next : Reads s.buf (s.ptr + (j + 1)) bs
      next = subst (λ k. Reads s.buf k bs) (omega arith) h.0.1
  get_chars-full zero j got (b ∷ c ∷ bs) h e t = absurd (omega arith)

finish-overflow :
    (r : Sockbuf) (io : List Received) (j count : ℕ)
    → scan_finish (overflow (reading r io j count [])) ≡ record {
      result = if r.state.lock then minus_one else pos 0;
      sbuf = r;
      io = io;
      out = str error_text ∷ [];
    }
unfolding scan_finish overflow spoil fail
finish-overflow r io j count = elim (Bool-cases r.state.lock) [
  | inl locked ↦ simp locked
  | inr free ↦ simp free
]

-- A string of `MAX_CHARS` or more characters is printed under `%s` with success, but only its
-- first `MAX_CHARS` characters and no NUL are sent. Whoever receives these bytes does not get a
-- string: the scan gives nothing, or fails on a locked buffer, and the text it stores is "ErRoR".
pub overlong_string :
    (last : Bool) (s r : Sockbuf) (text : List ℕ) (io : List Received)
    → max_chars ≤ length text
    → All (λ b. b ≢ 0) text
    → s.len + max_chars + (if last then 0 else write_spare) < s.size
    → Reads r.buf r.ptr (take max_chars text)
    → r.ptr + max_chars ≤ r.len
    → (printf last s percent_s (str text ∷ [])
        ≡ some (
          pos max_chars,
          record s { buf = store s.buf s.len (take max_chars text); len = s.len + max_chars },
        ))
      × (scanf r percent_s io
          ≡ some (record {
            result = if r.state.lock then minus_one else pos 0;
            sbuf = r;
            io = io;
            out = str error_text ∷ [];
          }))
unfolding scanf get_all after_get get scan_finish overflow spoil fail
overlong_string last s r text io h t room held there =
    let here =
      subst (λ k. Reads r.buf k (take max_chars text)) {x = r.ptr} {y = r.ptr + 0} (omega arith)
        held in
    let full =
      get_chars-full r io 1 [] 79 0 [] (take max_chars text)
        (here, omega (arith, length-take_le max_chars text h)) (length-take_le max_chars text h)
        (All-take max_chars text t) in
    (
      printf-overlong last s text h t room,
      rw (scanf, get_all, full) (ap some (finish-overflow r io 80 1)),
    )
