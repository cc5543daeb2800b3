-- ===== src/Names/Nick.antt =====
-- `Fix_nick_name` against `Check_nick_name`.
use xpilot_fxi.Prelude.{
  ℕ, zero, suc, ◌+◌, ◌/◌, ◌%◌, ◌≤◌, ◌<◌, ◌≡◌, Bool, true, false, ◌&&◌, not, List, [], ◌∷◌, ◌++◌,
  arith, refl, ap, ◌∙◌, length, take, take_all, length-take, length-append, map, Bool-cases, inl,
  inr, ltb,
}
use xpilot_fxi.Names.{
  name_ok, all, check_nick, check_nick_name, fix_first, fix_print, fix_nick, fix_nick_name, trim,
  last, decimal,
}
use xpilot_fxi.Names.Ctype.{isprint, isupper, isspace}

fix_print-isprint : (c : ℕ) → isprint (fix_print c) ≡ true
unfolding fix_print
fix_print-isprint c = ground arith

all-fix_print : (s : List ℕ) → all isprint (map fix_print s) ≡ true
unfolding all
all-fix_print [] = refl
all-fix_print (c ∷ s) = rw (fix_print-isprint c) (all-fix_print s)

length-fix_print : (s : List ℕ) → length (map fix_print s) ≡ length s
length-fix_print [] = refl
length-fix_print (c ∷ s) = ap suc (length-fix_print s)

-- The first letter is a capital, and is printable.
fix_first-isupper : (c : ℕ) → isupper (fix_print (fix_first c)) ≡ true
unfolding fix_first fix_print isprint
fix_first-isupper c = ground arith

upper-isspace : (c : ℕ) → isupper c ≡ true → isspace c ≡ false
unfolding isupper isspace
upper-isspace c h = ground arith

all-trim : (test : ℕ → Bool) (s : List ℕ) → all test s ≡ true → all test (trim s) ≡ true
unfolding all trim
all-trim test [] h = refl
all-trim test (c ∷ s) h = ground (arith, all-trim test s)

length-trim : (s : List ℕ) → length (trim s) ≤ length s
unfolding trim
length-trim [] = omega arith
length-trim (c ∷ s) = ground (arith, length-trim s)

-- A trimmed text does not end in a space.
last-trim : (c : ℕ) (s : List ℕ) → isspace c ≡ false → isspace (last c (trim s)) ≡ false
unfolding trim last
last-trim c [] h = h
last-trim c (d ∷ s) h = ground (arith, last-trim c s)

trim_head : (c : ℕ) (s : List ℕ) → isspace c ≡ false → trim (c ∷ s) ≡ c ∷ trim s
unfolding trim
trim_head c s h = ground arith

all-append :
    (test : ℕ → Bool) (xs ys : List ℕ)
    → all test xs ≡ true
    → all test ys ≡ true
    → all test (xs ++ ys) ≡ true
unfolding all
all-append test [] ys hx hy = hy
all-append test (x ∷ xs) ys hx hy = ground (arith, all-append test xs ys)

-- A character that prints and is no space.
visible : ℕ → Bool
visible c = isprint c && not (isspace c)

visible-digit : (k : ℕ) → k < 10 → visible (b'0' + k) ≡ true
unfolding visible isprint isspace
visible-digit k h = ground arith

decimal-visible : (f n : ℕ) → all visible (decimal f n) ≡ true
unfolding decimal all
decimal-visible zero n = refl
decimal-visible (suc f) n =
    let digit = visible-digit (n % 10) (omega arith) in
    let both =
      all-append visible (decimal f (n / 10)) ((b'0' + n % 10) ∷ []) (decimal-visible f (n / 10))
        (rw digit) in
    elim (Bool-cases (ltb n 10)) [ inl small ↦ rw (small, digit) | inr large ↦ rw large both ]

length-decimal : (f n : ℕ) → length (decimal f n) ≤ f
unfolding decimal
length-decimal zero n = omega arith
length-decimal (suc f) n =
    ground
      (arith, length-decimal f (n / 10), length-append (decimal f (n / 10)) ((b'0' + n % 10) ∷ []))

all-visible→isprint : (s : List ℕ) → all visible s ≡ true → all isprint s ≡ true
unfolding all visible
all-visible→isprint [] h = refl
all-visible→isprint (c ∷ s) h = ground (arith, all-visible→isprint s)

last-visible :
    (c : ℕ) (s : List ℕ) → isspace c ≡ false → all visible s ≡ true → isspace (last c s) ≡ false
unfolding all visible last
last-visible c [] h v = h
last-visible c (d ∷ s) h v = last-visible d s (ground arith) (ground arith)

fix_nick-ok : (n : ℕ) (s : List ℕ) → check_nick (fix_nick n s) ≡ name_ok
unfolding check_nick fix_nick all
fix_nick-ok n [] = ground (
  arith,
  all-visible→isprint (decimal 11 n) (decimal-visible 11 n),
  last-visible b'X' (decimal 11 n) refl (decimal-visible 11 n),
)
fix_nick-ok n (c ∷ s) =
    let first = fix_print (fix_first c) in
    let capital = fix_first-isupper c in
    let dark = upper-isspace first capital in
    rw (trim_head first (map fix_print s) dark) (
      ground (
        arith,
        capital,
        fix_print-isprint (fix_first c),
        all-trim isprint (map fix_print s) (all-fix_print s),
        last-trim first (map fix_print s) dark,
      ))

length-fix_nick : (n : ℕ) (s : List ℕ) → length s ≤ 15 → length (fix_nick n s) ≤ 15
unfolding fix_nick
length-fix_nick n [] h = omega (arith, length-decimal 11 n)
length-fix_nick n (c ∷ s) h =
    omega (arith, length-trim (map fix_print (fix_first c ∷ s)), length-fix_print s)

-- What `Fix_nick_name` makes of any name is accepted by `Check_nick_name`, and is not cut by it:
-- it begins with a capital, prints, and does not end in a space.
pub fix_nick_name-ok :
    (n : ℕ) (name : List ℕ)
    → check_nick_name (fix_nick_name n name).0 ≡ (name_ok, (fix_nick_name n name).0)
unfolding check_nick_name fix_nick_name
fix_nick_name-ok n name =
    let s = take 15 name in
    let short = length-fix_nick n s (omega (arith, length-take 15 name)) in
    rw (take_all 15 (fix_nick n s) short, fix_nick-ok n s)

fix_print_id : (s : List ℕ) → all isprint s ≡ true → map fix_print s ≡ s
unfolding all fix_print
fix_print_id [] h = refl
fix_print_id (c ∷ s) h = ground (arith, fix_print_id s)

trim_id : (c : ℕ) (s : List ℕ) → isspace (last c s) ≡ false → trim (c ∷ s) ≡ c ∷ s
unfolding trim last
trim_id c [] h = rw h
trim_id c (d ∷ s) h = ground (arith, trim_id d s)

fix_first_id : (c : ℕ) → isupper c ≡ true → fix_first c ≡ c
unfolding fix_first
fix_first_id c h = rw h

check_nick_parts :
    (c : ℕ) (s : List ℕ)
    → check_nick (c ∷ s) ≡ name_ok
    → (isupper c ≡ true) × (all isprint (c ∷ s) ≡ true) × (isspace (last c s) ≡ false)
unfolding check_nick
check_nick_parts c s h = ground arith

fix_nick_id : (n : ℕ) (s : List ℕ) → check_nick s ≡ name_ok → fix_nick n s ≡ s
unfolding check_nick fix_nick
fix_nick_id n [] h = cc
fix_nick_id n (c ∷ s) h =
    let (capital, prints, dark) = check_nick_parts c s h in
    ap (λ d. trim (map fix_print (d ∷ s))) (fix_first_id c capital)
    ∙ ap trim (fix_print_id (c ∷ s) prints)
    ∙ trim_id c s dark

-- A name that `Check_nick_name` accepts is left as the check has cut it.
fix_nick_name_id :
    (n : ℕ) (name : List ℕ)
    → (check_nick_name name).0 ≡ name_ok
    → (fix_nick_name n name).0 ≡ (check_nick_name name).1
unfolding check_nick_name fix_nick_name
fix_nick_name_id n name h = fix_nick_id n (take 15 name) h
