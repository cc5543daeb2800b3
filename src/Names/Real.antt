-- ===== src/Names/Real.antt =====
-- `Fix_real_name` against `Check_real_name`.
use xpilot_fxi.Prelude.{
  ℕ, suc, ◌≤◌, ◌≡◌, true, List, [], ◌∷◌, arith, refl, ap, length, take, take_all, length-take, map,
}
use xpilot_fxi.Names.{name_ok, all, check_real, check_real_name, fix_graph, fix_real, fix_real_name}
use xpilot_fxi.Names.Ctype.{isgraph}

fix_graph-isgraph : (c : ℕ) → isgraph (fix_graph c) ≡ true
unfolding fix_graph
fix_graph-isgraph c = ground arith

pub all-fix_graph : (s : List ℕ) → all isgraph (map fix_graph s) ≡ true
unfolding all
all-fix_graph [] = refl
all-fix_graph (c ∷ s) = rw (fix_graph-isgraph c) (all-fix_graph s)

pub length-fix_graph : (s : List ℕ) → length (map fix_graph s) ≡ length s
length-fix_graph [] = refl
length-fix_graph (c ∷ s) = ap suc (length-fix_graph s)

fix_real-ok : (s : List ℕ) → check_real (fix_real s) ≡ name_ok
unfolding check_real fix_real
fix_real-ok [] = refl
fix_real-ok (c ∷ s) = rw (all-fix_graph (c ∷ s))

length-fix_real : (s : List ℕ) → length s ≤ 15 → length (fix_real s) ≤ 15
unfolding fix_real
length-fix_real [] h = omega arith
length-fix_real (c ∷ s) h = omega (arith, length-fix_graph s)

-- What `Fix_real_name` makes of any name is accepted by `Check_real_name`, and is not cut by it.
pub fix_real_name-ok :
    (name : List ℕ) → check_real_name (fix_real_name name) ≡ (name_ok, fix_real_name name)
unfolding check_real_name fix_real_name
fix_real_name-ok name =
    let s = take 15 name in
    let short = length-fix_real s (omega (arith, length-take 15 name)) in
    rw (take_all 15 (fix_real s) short, fix_real-ok s)

fix_graph_id : (s : List ℕ) → all isgraph s ≡ true → map fix_graph s ≡ s
unfolding all fix_graph
fix_graph_id [] h = refl
fix_graph_id (c ∷ s) h = ground (arith, fix_graph_id s)

fix_real_id : (s : List ℕ) → check_real s ≡ name_ok → fix_real s ≡ s
unfolding check_real fix_real
fix_real_id [] h = cc
fix_real_id (c ∷ s) h = fix_graph_id (c ∷ s) (ground arith)

-- A name that `Check_real_name` accepts is left as the check has cut it.
fix_real_name_id :
    (name : List ℕ)
    → (check_real_name name).0 ≡ name_ok
    → fix_real_name name ≡ (check_real_name name).1
unfolding check_real_name fix_real_name
fix_real_name_id name h = fix_real_id (take 15 name) h
