-- ===== src/Names/Host.antt =====
-- common/checknames.c: the names of hosts and of displays, and `Fix_host_name` against
-- `Check_host_name`.
use xpilot_fxi.Prelude.{
  ℕ, suc, ◌-◌, ◌≤◌, ◌≡◌, Bool, true, false, ◌&&◌, ◌||◌, not, List, [], ◌∷◌, arith, refl, ap, length,
  take, take_all, length-take, map, if◌then◌else◌, ◌==◌, leb,
}
use xpilot_fxi.Names.{
  NameCheck, name_ok, name_error, max_name_len, max_host_len, all, status, fix_graph,
}
use xpilot_fxi.Names.Real.{all-fix_graph, length-fix_graph}
use xpilot_fxi.Names.Ctype.{isgraph}

-- `is_alpha_numeric`
pub alpha_numeric : ℕ → Bool
alpha_numeric c =
    (leb b'A' c && leb c b'Z') || (leb b'a' c && leb c b'z') || (leb b'0' c && leb c b'9')

abbrev pub separator : ℕ → Bool
separator c = (c == b'.') || (c == b'-')

-- The character at the front, which is the NUL at the end of a string.
abbrev pub front : List ℕ → ℕ
front [] = 0
front (c ∷ s) = c

-- `str[1] == '.' || str[1] == '-' || !str[1]`
abbrev pub ends_label : List ℕ → Bool
ends_label s = separator (front s) || (front s == 0)

-- The body of the loop of `Check_host_name` at `c`, before the characters `s`.
pub host_char : ℕ → List ℕ → Bool
unfolding alpha_numeric
host_char c s = alpha_numeric c || (separator c && not (ends_label s))

pub host_chars : List ℕ → Bool
unfolding host_char
host_chars [] = true
host_chars (c ∷ s) = host_char c s && host_chars s

pub check_host : List ℕ → NameCheck
unfolding alpha_numeric host_chars
check_host s = if alpha_numeric (front s) then status (host_chars s) else name_error

unfoldable pub check_host_name : List ℕ → NameCheck × List ℕ
unfolding check_host
check_host_name name = let s = take (max_host_len - 1) name in (check_host s, s)

-- The loop of `Fix_host_name`, which looks at the next character before it is repaired.
pub fix_host_chars : List ℕ → List ℕ
unfolding host_char
fix_host_chars [] = []
fix_host_chars (c ∷ s) = (if host_char c s then c else b'x') ∷ fix_host_chars s

-- "xxx.xxx"
abbrev pub no_host : List ℕ
no_host = b'x' ∷ b'x' ∷ b'x' ∷ b'.' ∷ b'x' ∷ b'x' ∷ b'x' ∷ []

pub fix_host : List ℕ → List ℕ
unfolding alpha_numeric fix_host_chars
fix_host s = if alpha_numeric (front s) then fix_host_chars s else no_host

unfoldable pub fix_host_name : List ℕ → List ℕ
unfolding fix_host
fix_host_name name = fix_host (take (max_host_len - 1) name)

-- These two store their NUL at index `MAX_NAME_LEN`, where the others store it one earlier.
unfoldable pub check_disp_name : List ℕ → NameCheck × List ℕ
unfolding all isgraph
check_disp_name name = let s = take max_name_len name in (status (all isgraph s), s)

unfoldable pub fix_disp_name : List ℕ → List ℕ
unfolding fix_graph
fix_disp_name name = map fix_graph (take max_name_len name)

-- What stands behind a repaired character ends a label only if it did before the repair.
front-fix_host_chars : (s : List ℕ) → ends_label s ≡ false → ends_label (fix_host_chars s) ≡ false
unfolding fix_host_chars
front-fix_host_chars [] h = h
front-fix_host_chars (c ∷ s) h = ground arith

fix_host_chars-ok : (s : List ℕ) → host_chars (fix_host_chars s) ≡ true
unfolding fix_host_chars host_chars host_char alpha_numeric
fix_host_chars-ok [] = refl
fix_host_chars-ok (c ∷ s) = ground (arith, front-fix_host_chars s, fix_host_chars-ok s)

length-fix_host_chars : (s : List ℕ) → length (fix_host_chars s) ≡ length s
unfolding fix_host_chars
length-fix_host_chars [] = refl
length-fix_host_chars (c ∷ s) = ap suc (length-fix_host_chars s)

fix_host-ok : (s : List ℕ) → check_host (fix_host s) ≡ name_ok
unfolding check_host fix_host
fix_host-ok [] = refl
fix_host-ok (c ∷ s) = ground (arith, fix_host_chars-ok (c ∷ s))

length-fix_host : (s : List ℕ) → length s ≤ 63 → length (fix_host s) ≤ 63
unfolding fix_host
length-fix_host s h = ground (arith, length-fix_host_chars s)

-- What `Fix_host_name` makes of any name is accepted by `Check_host_name`, and is not cut by it.
pub fix_host_name-ok :
    (name : List ℕ) → check_host_name (fix_host_name name) ≡ (name_ok, fix_host_name name)
unfolding check_host_name fix_host_name
fix_host_name-ok name =
    let s = take 63 name in
    let short = length-fix_host s (omega (arith, length-take 63 name)) in
    rw (take_all 63 (fix_host s) short, fix_host-ok s)

-- What `Fix_disp_name` makes of any name is accepted by `Check_disp_name`, and is not cut by it.
fix_disp_name-ok :
    (name : List ℕ) → check_disp_name (fix_disp_name name) ≡ (name_ok, fix_disp_name name)
unfolding check_disp_name fix_disp_name
fix_disp_name-ok name =
    let s = take 16 name in
    let short : length (map fix_graph s) ≤ 16 =
      omega (arith, length-take 16 name, length-fix_graph s) in
    rw (take_all 16 (map fix_graph s) short, all-fix_graph s)
