-- ===== src/Net/Scanned.antt =====
-- `Packet_scanf` against the wire format.
use xpilot_fxi.Prelude.{
  ℕ, zero, suc, ◌+◌, ◌≤◌, ◌<◌, ◌≡◌, ◌≢◌, ◌%◌, ◌^◌, false, none, some, List, [], ◌∷◌, ◌++◌, arith,
  sym, ◌==◌, ap, ap₂, ◌∙◌, length, All, length-append, if◌then◌else◌, append-nil, append_assoc,
}
use xpilot_fxi.Prelude.Int.{pos}
use xpilot_fxi.Net.Sockbuf.{Sockbuf, Received}
use xpilot_fxi.Net.Format.{
  Directive, char, int, uint, short, ushort, long, ulong, big_string, string, start, directives,
  Arg, num, str, max_chars, msg_len,
}
use mathlib.Core.Path.{subst}
use xpilot_fxi.Net.Scan.{
  overflow, Scanning, need, take_bytes, get_num, get_chars, get, get_all, after_need, after_get,
  finish, scanf, value1, value2, value4,
}
use xpilot_fxi.Net.Wire.{Fits, FitsAll, wire, wire_all, narrow, narrow_all, Reads, Reads-append}

module _ (s : Sockbuf) (io : List Received) where
  -- A loop state in which nothing has failed.
  abbrev pub reading : ℕ → ℕ → List Arg → Scanning
  reading j count out = record {
    sbuf = s;
    io = io;
    j = j;
    count = count;
    out = out;
    failure = none;
  }

  -- The unread bytes from `j` on begin with `bs`.
  abbrev pub Holds : ℕ → List ℕ → Type 0
  Holds j bs = Reads s.buf (s.ptr + j) bs × (s.ptr + j + length bs ≤ s.len)

  module _ (j count : ℕ) (out : List Arg) where
    need-there :
        (n : ℕ) → s.ptr + j + n ≤ s.len → need n (reading j count out) ≡ some (reading j count out)
    unfolding need
    need-there n h = ground arith

    get_num-there :
        (n v : ℕ) (value : Scanning → ℕ)
        → s.ptr + j + n ≤ s.len
        → value (reading j count out) ≡ v
        → get_num n value (reading j count out) ≡ some (reading (j + n) count (out ++ (num v ∷ [])))
    unfolding get_num take_bytes
    get_num-there n v value h e = rw (get_num, need-there n h, e)

    value1-wire : (v : ℕ) → Holds j (wire char (num v)) → value1 (reading j count out) ≡ v % 256
    value1-wire v h = ground (arith)

    value2-wire : (v : ℕ) → Holds j (wire short (num v)) → value2 (reading j count out) ≡ v % 2 ^ 16
    value2-wire v h = ground arith

    value4-wire : (v : ℕ) → Holds j (wire int (num v)) → value4 (reading j count out) ≡ v % 2 ^ 32
    value4-wire v h = ground arith

  module _ (count : ℕ) (out : List Arg) where
    -- The byte at `j` is there and is read.
    pub chars_step :
        (left j b : ℕ) (got bs : List ℕ)
        → Holds j (b ∷ bs)
        → get_chars (suc left) got (reading j count out) ≡ (
            if b == 0
            then some (reading (j + 1) count (out ++ (str got ∷ [])))
            else if left == 0
            then some (overflow (reading (j + 1) count out))
            else get_chars left (got ++ (b ∷ [])) (reading (j + 1) count out))
    unfolding get_chars after_need
    chars_step left j b got bs h =
        let here : s.buf (s.ptr + j + 0) ≡ b = ap s.buf (omega arith) ∙ h.0.0 in
        rw (get_chars, need-there j count out 1 (omega arith), here)

    get_chars-text :
        (left j : ℕ) (got text : List ℕ)
        → Holds j (text ++ (0 ∷ []))
        → length text < left
        → All (λ b. b ≢ 0) text
        → get_chars left got (reading j count out)
          ≡ some (reading (j + length (text ++ (0 ∷ []))) count (out ++ (str (got ++ text) ∷ [])))
    get_chars-text zero j got text h lt t = absurd (omega arith)
    get_chars-text (suc left) j got [] h lt t =
        chars_step left j 0 got [] h
        ∙ ap (λ g. some (reading (j + 1) count (out ++ (str g ∷ [])))) (sym (append-nil got))
    get_chars-text (suc left) j got (b ∷ text) h lt t =
        let next : Reads s.buf (s.ptr + (j + 1)) (text ++ (0 ∷ [])) =
          subst (λ k. Reads s.buf k (text ++ (0 ∷ []))) (omega arith) h.0.1 in
        let more : (b == 0) ≡ false = ground arith in
        let room : (left == 0) ≡ false = ground arith in
        let rest =
          get_chars-text left (j + 1) (got ++ (b ∷ [])) text (next, omega arith) (omega arith)
            t.1 in
        chars_step left j b got (text ++ (0 ∷ [])) h
        ∙ rw (more, room)
            (rest
              ∙ ap₂ (λ k g. some (reading k count (out ++ (str g ∷ [])))) (omega arith)
                  (append_assoc got (b ∷ []) text))

  get-wire :
      (d : Directive) (a : Arg) (j count : ℕ) (out : List Arg)
      → Fits d a
      → Holds j (wire d a)
      → get d (reading j count out)
        ≡ some (reading (j + length (wire d a)) count (out ++ (narrow d a ∷ [])))
  unfolding get
  get-wire char (num v) j c out f h =
      get_num-there j c out 1 (v % 256) value1 h.1 (value1-wire j c out v h)
  get-wire int (num v) j c out f h =
      get_num-there j c out 4 (v % 2 ^ 32) value4 h.1 (value4-wire j c out v h)
  get-wire uint (num v) j c out f h =
      get_num-there j c out 4 (v % 2 ^ 32) value4 h.1 (value4-wire j c out v h)
  get-wire short (num v) j c out f h =
      get_num-there j c out 2 (v % 2 ^ 16) value2 h.1 (value2-wire j c out v h)
  get-wire ushort (num v) j c out f h =
      get_num-there j c out 2 (v % 2 ^ 16) value2 h.1 (value2-wire j c out v h)
  get-wire long (num v) j c out f h =
      get_num-there j c out 4 (v % 2 ^ 32) value4 h.1 (value4-wire j c out v h)
  get-wire ulong (num v) j c out f h =
      get_num-there j c out 4 (v % 2 ^ 32) value4 h.1 (value4-wire j c out v h)
  get-wire big_string (str t) j c out f h = get_chars-text c out msg_len j [] t h f.0 f.1
  get-wire string (str t) j c out f h = get_chars-text c out max_chars j [] t h f.0 f.1
  get-wire _ _ j c out f h = absurd f

  get_all-wire :
      (ds : List Directive) (args : List Arg) (j count : ℕ) (out : List Arg)
      → FitsAll ds args
      → Holds j (wire_all ds args)
      → get_all ds (reading j count out)
        ≡ some (
            reading (j + length (wire_all ds args)) (count + length ds) (out ++ narrow_all ds args))
  unfolding get_all after_get
  get_all-wire [] [] j c out f h = ground (arith, append-nil out)
  get_all-wire [] (a ∷ args) j c out f h = absurd f
  get_all-wire (d ∷ ds) [] j c out f h = absurd f
  get_all-wire (d ∷ ds) (a ∷ args) j c out f h =
      let whole = length-append (wire d a) (wire_all ds args) in
      let (front, back) = Reads-append s.buf (wire d a) (wire_all ds args) (s.ptr + j) h.0 in
      let first = get-wire d a j (c + 1) out f.0 (front, omega (arith, whole)) in
      let next =
        subst (λ k. Reads s.buf k (wire_all ds args)) {x = s.ptr + j + length (wire d a)}
          {y = s.ptr + (j + length (wire d a))} (omega arith) back in
      let rest =
        get_all-wire ds args (j + length (wire d a)) (c + 1) (out ++ (narrow d a ∷ [])) f.1
          (next, omega (arith, whole)) in
      rw (get_all, first)
        (rest ∙ ground (arith, whole, append_assoc out (narrow d a ∷ []) (narrow_all ds args)))

-- Unread bytes that begin with a packet are scanned as its values: the number of directives is
-- returned, `ptr` moves over the packet, and nothing is fetched from the socket.
pub scanf-wire :
    (s : Sockbuf) (fmt : List ℕ) (args : List Arg) (io : List Received)
    → FitsAll (directives start fmt) args
    → Reads s.buf s.ptr (wire_all (directives start fmt) args)
    → s.ptr + length (wire_all (directives start fmt) args) ≤ s.len
    → scanf s fmt io
      ≡ some (record {
        result = pos (length (directives start fmt));
        sbuf = record s { ptr = s.ptr + length (wire_all (directives start fmt) args) };
        io = io;
        out = narrow_all (directives start fmt) args;
      })
unfolding scanf finish
scanf-wire s fmt args io f r h =
    let packet = wire_all (directives start fmt) args in
    let here = subst (λ k. Reads s.buf k packet) {x = s.ptr} {y = s.ptr + 0} (omega arith) r in
    rw (scanf, get_all-wire s io (directives start fmt) args 0 0 [] f (here, omega arith))
      (ground arith)
