-- ===== src/Names.antt =====
-- common/checknames.c: the checks of the names that a client sends, and their repairs. A name is the
-- list of its bytes before the NUL; storing a NUL at index `n` cuts the list there. A function that
-- changes its argument returns the new name.
pub mod Ctype
pub mod Real
pub mod Nick
pub mod Host
mod Examples
use xpilot_fxi.Prelude.{
  ℕ, zero, suc, ◌+◌, ◌-◌, ◌/◌, ◌%◌, Bool, true, false, List, [], ◌∷◌, ◌++◌, ◌==◌, ltb, ◌&&◌, ◌||◌,
  not, if◌then◌else◌, take, map,
}
use Ctype.{isgraph, isprint, isupper, islower, isspace, toupper}

-- `NAME_OK` and `NAME_ERROR`.
pub data NameCheck : Type 0 where
  name_ok name_error : NameCheck

abbrev pub max_name_len : ℕ
max_name_len = 16

abbrev pub max_host_len : ℕ
max_host_len = 64

abbrev pub max_chars : ℕ
max_chars = 80

-- `for (; *str; str++) if (!test(*str)) return NAME_ERROR;`
unfoldable pub all : (ℕ → Bool) → List ℕ → Bool
all test [] = true
all test (c ∷ s) = test c && all test s

abbrev pub status : Bool → NameCheck
status true = name_ok
status false = name_error

pub check_real : List ℕ → NameCheck
unfolding all isgraph
check_real [] = name_error
check_real (c ∷ s) = status (all isgraph (c ∷ s))

-- `Check_real_name`; the cut name is kept.
unfoldable pub check_real_name : List ℕ → NameCheck × List ℕ
unfolding check_real
check_real_name name = let s = take (max_name_len - 1) name in (check_real s, s)

pub fix_graph : ℕ → ℕ
unfolding isgraph
fix_graph c = if isgraph c then c else b'x'

pub fix_real : List ℕ → List ℕ
unfolding fix_graph
fix_real [] = b'X' ∷ []
fix_real (c ∷ s) = map fix_graph (c ∷ s)

unfoldable pub fix_real_name : List ℕ → List ℕ
unfolding fix_real
fix_real_name name = fix_real (take (max_name_len - 1) name)

-- The character before the NUL.
pub last : ℕ → List ℕ → ℕ
last c [] = c
last c (d ∷ s) = last d s

pub check_nick : List ℕ → NameCheck
unfolding all isupper isprint isspace last
check_nick [] = name_error
check_nick (c ∷ s) = status (isupper c && all isprint (c ∷ s) && not (isspace (last c s)))

unfoldable pub check_nick_name : List ℕ → NameCheck × List ℕ
unfolding check_nick
check_nick_name name = let s = take (max_name_len - 1) name in (check_nick s, s)

-- `sprintf("%d", n)`, with more rounds than `n` has digits.
pub decimal : ℕ → ℕ → List ℕ
decimal zero n = []
decimal (suc f) n =
    let front = decimal f (n / 10) in
    let digit = b'0' + n % 10 in if ltb n 10 then digit ∷ [] else front ++ (digit ∷ [])

-- The first letter of a nick name.
pub fix_first : ℕ → ℕ
unfolding isupper islower toupper
fix_first c = if isupper c then c else if islower c then toupper c else b'X'

pub fix_print : ℕ → ℕ
unfolding isprint
fix_print c = if isprint c then c else b'x'

-- The loop that walks back over spaces and overwrites them by NULs: the last run of spaces is cut.
-- It stops at the first letter at the latest, which is no space.
pub trim : List ℕ → List ℕ
unfolding isspace
trim [] = []
trim (c ∷ s) = elim (trim s) [ [] ↦ if isspace c then [] else c ∷ [] | d ∷ r ↦ c ∷ d ∷ r ]

pub fix_nick : ℕ → List ℕ → List ℕ
unfolding decimal fix_first fix_print trim
fix_nick n [] = b'X' ∷ decimal 11 n
fix_nick n (c ∷ s) = trim (map fix_print (fix_first c ∷ s))

-- `Fix_nick_name`; the static counter `n` goes in and out.
unfoldable pub fix_nick_name : ℕ → List ℕ → List ℕ × ℕ
unfolding fix_nick
fix_nick_name n name =
    let s = take (max_name_len - 1) name in (fix_nick n s, elim s [ [] ↦ n + 1 | c ∷ r ↦ n ])
