-- ===== src/Net/Wire.antt =====
-- The wire format of a packet, said without buffers: what each value becomes, and what of it comes
-- back.
use xpilot_fxi.Prelude.{
  ℕ, ◌+◌, ◌%◌, ◌^◌, ◌<◌, ◌≡◌, ◌≢◌, List, [], ◌∷◌, ◌++◌, arith, ap, length, All, ◌∙◌,
}
use mathlib.Core.Path.{subst}
use xpilot_fxi.Prelude.Memory.{store, load, update}
use xpilot_fxi.Net.Format.{
  Directive, char, int, uint, short, ushort, long, ulong, big_string, string, Arg, num, str,
  max_chars, msg_len, bytes1, bytes2, bytes4,
}

-- A string that the receiver's buffer of `max` bytes can hold, with no NUL inside.
abbrev pub IsText : ℕ → List ℕ → Type 0
IsText max s = (length s < max) × All (λ b. b ≢ 0) s

-- The value is one that the directive is for.
abbrev pub Fits : Directive → Arg → Type 0
Fits char (num v) = Unit
Fits int (num v) = Unit
Fits uint (num v) = Unit
Fits short (num v) = Unit
Fits ushort (num v) = Unit
Fits long (num v) = Unit
Fits ulong (num v) = Unit
Fits big_string (str s) = IsText msg_len s
Fits string (str s) = IsText max_chars s
Fits _ _ = ⊥

abbrev pub FitsAll : List Directive → List Arg → Type 0
FitsAll [] [] = Unit
FitsAll (d ∷ ds) (a ∷ args) = Fits d a × FitsAll ds args
FitsAll _ _ = ⊥

-- Big-endian bytes, and a string with its NUL.
abbrev pub wire : Directive → Arg → List ℕ
wire char (num v) = bytes1 v
wire short (num v) = bytes2 v
wire ushort (num v) = bytes2 v
wire _ (num v) = bytes4 v
wire _ (str s) = s ++ (0 ∷ [])

abbrev pub wire_all : List Directive → List Arg → List ℕ
wire_all (d ∷ ds) (a ∷ args) = wire d a ++ wire_all ds args
wire_all _ _ = []

-- Numbers come back modulo the width of the directive, strings as they are.
abbrev pub narrow : Directive → Arg → Arg
narrow char (num v) = num (v % 256)
narrow short (num v) = num (v % 2 ^ 16)
narrow ushort (num v) = num (v % 2 ^ 16)
narrow _ (num v) = num (v % 2 ^ 32)
narrow _ (str s) = str s

abbrev pub narrow_all : List Directive → List Arg → List Arg
narrow_all (d ∷ ds) (a ∷ args) = narrow d a ∷ narrow_all ds args
narrow_all _ _ = []

-- The memory holds `bs` from `i` on.
abbrev pub Reads : (ℕ → ℕ) → ℕ → List ℕ → Type 0
Reads m i [] = Unit
Reads m i (b ∷ bs) = (m i ≡ b) × Reads m (i + 1) bs

pub store-append :
    (xs ys : List ℕ) (m : ℕ → ℕ) (i : ℕ)
    → store (store m i xs) (i + length xs) ys ≡ store m i (xs ++ ys)
unfolding store
store-append [] ys m i = ap (λ k. store m k ys) (omega arith)
store-append (x ∷ xs) ys m i =
    ap (λ k. store (store (update m i x) (i + 1) xs) k ys) (omega arith)
    ∙ store-append xs ys (update m i x) (i + 1)

pub Reads-append :
    (m : ℕ → ℕ) (xs ys : List ℕ) (i : ℕ)
    → Reads m i (xs ++ ys)
    → Reads m i xs × Reads m (i + length xs) ys
Reads-append m [] ys i r = (tt, subst (λ k. Reads m k ys) (omega arith) r)
Reads-append m (x ∷ xs) ys i r =
    let (front, back) = Reads-append m xs ys (i + 1) r.1 in
    ((r.0, front), subst (λ k. Reads m k ys) (omega arith) back)

pub Reads-load : (m : ℕ → ℕ) (bs : List ℕ) (i : ℕ) → load m i (length bs) ≡ bs → Reads m i bs
unfolding load
Reads-load m [] i e = tt
Reads-load m (b ∷ bs) i e = (ground arith, Reads-load m bs (i + 1) (ground arith))
