-- ===== src/Ids/History.antt =====
-- The whole of id.c against its specification: a queue of the free ids.
use xpilot_fxi.Prelude.{
  ℕ, zero, suc, ◌+◌, ◌≤◌, ◌<◌, ◌≡◌, Bool, true, false, some, none, arith, refl, ◌==◌, ap, ap₂, ◌∙◌,
  inl, inr, Bool-cases, if◌then◌else◌, List, [], ◌∷◌, ◌++◌, ◌||◌, ltb,
}
use xpilot_fxi.Prelude.Int.{ℤ, pos, negsuc, pos_part}
use xpilot_fxi.Ids.{Ids, num_ids, request_id, release_id, give_back, start}
use xpilot_fxi.Ids.Valid.{initial-slot, IsValid, slot, initial, initial-IsValid}
use xpilot_fxi.Ids.Request.{taken, slot-taken, request_id_lem, request_id-exhausted, taken-IsValid}
use xpilot_fxi.Ids.Release.{
  InUse, release_id-legal, release_id-exits, slot-give_back_old, slot-give_back_new,
  give_back-IsValid,
}

-- What the program asks of the pool, and what it sees. After an exit there is nothing more.
pub data Op : Type 0 where
  request : Op
  release : ℤ → Op

pub data Reply : Type 0 where
  issued : ℕ → Reply
  released : Reply
  exited : Reply

unfoldable pub run : Ids → List Op → List Reply
unfolding request_id release_id
run s [] = []
run s (request ∷ ops) = elim (request_id s) [
  | none ↦ exited ∷ []
  | some (id, s') ↦ issued id ∷ run s' ops
]
run s (release id ∷ ops) = elim (release_id id s) [
  | none ↦ exited ∷ []
  | some s' ↦ released ∷ run s' ops
]

pub has : ℕ → List ℕ → Bool
has i [] = false
has i (x ∷ xs) = (i == x) || has i xs

-- The specification: ids are handed out oldest first, 0 when there is none; an id may come back if
-- it is one of the `NUM_IDS` and is not free.
pub spec_free : ℤ → List ℕ → Bool
unfolding has
spec_free id free = (pos_part id == 0) || ltb num_ids (pos_part id) || has (pos_part id) free

pub spec : List ℕ → List Op → List Reply
unfolding spec_free
spec free [] = []
spec [] (request ∷ ops) = issued 0 ∷ spec [] ops
spec (x ∷ free) (request ∷ ops) = issued x ∷ spec free ops
spec free (release id ∷ ops) =
    let rest = released ∷ spec (free ++ (pos_part id ∷ [])) ops in
    if spec_free id free then exited ∷ [] else rest

-- The free ids in the order of the ring.
pub window : Ids → ℕ → ℕ → List ℕ
window s k zero = []
window s k (suc n) = slot s k ∷ window s (k + 1) n

window-taken :
    (s : Ids) (n : ℕ) (v : IsValid s (suc n)) (k m : ℕ) → window (taken s) k m ≡ window s (k + 1) m
unfolding window
window-taken s n v k zero = refl
window-taken s n v k (suc m) = ap₂ ◌∷◌ (slot-taken v k) (window-taken s n v (k + 1) m)

window-give_back :
    {s : Ids} {n : ℕ} (v : IsValid s n) (id : ℕ) (h : InUse v id) (m k : ℕ)
    → k + m ≡ n
    → window (give_back id s) k (suc m) ≡ window s k m ++ (id ∷ [])
unfolding window
window-give_back {s} v id h zero k e =
    ap (λ i. i ∷ []) (ap (slot (give_back id s)) (omega arith) ∙ slot-give_back_new v id h)
window-give_back v id h (suc m) k e =
    ap₂ ◌∷◌ (slot-give_back_old v id h k (omega arith))
      (window-give_back v id h m (k + 1) (omega arith))

has-window : (s : Ids) (j m k : ℕ) → k ≤ j → j < k + m → has (slot s j) (window s k m) ≡ true
unfolding window has
has-window s j zero k lo hi = absurd (omega arith)
has-window s j (suc m) k lo hi = elim (Bool-cases (j == k)) [
  | inl here ↦ ground arith
  | inr later ↦ ground (arith, has-window s j m (k + 1))
]

slot_of_has :
    (s : Ids) (i m k : ℕ) → has i (window s k m) ≡ true → (j : ℕ) × (j < k + m) × (slot s j ≡ i)
unfolding window has
slot_of_has s i zero k h = cc
slot_of_has s i (suc m) k h = elim (Bool-cases (i == slot s k)) [
  | inl here ↦ (k, omega arith, ground arith)
  | inr later ↦ let (j, lt, e) = slot_of_has s i m (k + 1) (ground arith) in (j, omega arith, e)
]

module _ {s : Ids} {n : ℕ} (v : IsValid s n) (id : ℤ) where
  -- What the specification refuses is what the table does not mark as in use.
  refused : spec_free id (window s 0 n) ≡ true → InUse v (pos_part id) → ⊥
  unfolding spec_free
  refused h used = elim (Bool-cases (has (pos_part id) (window s 0 n))) [
    | inl free ↦
        let (j, lt, e) = slot_of_has s (pos_part id) n 0 free in
        ground (arith, v.unused j (omega arith))
    | inr not_free ↦ ground arith
  ]

  allowed : spec_free id (window s 0 n) ≡ false → InUse v (pos_part id)
  unfolding spec_free
  allowed h = elim (Bool-cases (s.inuse (pos_part id) == 1)) [
    | inl marked ↦ ground arith
    | inr unmarked ↦
        let (j, lt, e) = v.found (pos_part id) (ground arith) (ground arith) (ground arith) in
        ground (arith, has-window s j n 0)
  ]

  release_id-allowed : InUse v (pos_part id) → release_id id s ≡ some (give_back (pos_part id) s)
  release_id-allowed h = positive id h
    where
      positive : (i : ℤ) → InUse v (pos_part i) → release_id i s ≡ some (give_back (pos_part i) s)
      positive (pos i) used = release_id-legal v i used
      positive (negsuc i) used = absurd (omega arith)

run-valid : (ops : List Op) {s : Ids} (n : ℕ) → IsValid s n → run s ops ≡ spec (window s 0 n) ops
unfolding run spec window
run-valid [] zero v = refl
run-valid [] (suc n) v = refl
run-valid (request ∷ ops) zero v =
    rw (run, request_id-exhausted v) (ap (λ rs. issued 0 ∷ rs) (run-valid ops 0 v))
run-valid (request ∷ ops) {s} (suc n) v =
    rw (run, request_id_lem v)
      (ap (λ rs. issued (slot s 0) ∷ rs)
        (run-valid ops n (taken-IsValid v) ∙ ap (λ free. spec free ops) (window-taken s n v 0 n)))
run-valid (release id ∷ ops) {s} n v = elim (Bool-cases (spec_free id (window s 0 n))) [
  | inl bad ↦ rw (bad, run, release_id-exits v id (refused v id bad))
  | inr fine ↦
      let used = allowed v id fine in
      let rest = run-valid ops (suc n) (give_back-IsValid v (pos_part id) used) in
      rw (fine, run, release_id-allowed v id used)
        (ap (λ rs. released ∷ rs)
          (rest
            ∙ ap (λ free. spec free ops) (window-give_back v (pos_part id) used n 0 (omega arith))))
]

-- `a, a + 1, …`, in all `n` numbers.
pub count_from : ℕ → ℕ → List ℕ
count_from a zero = []
count_from a (suc n) = a ∷ count_from (a + 1) n

window-initial : (m k : ℕ) → k + m ≤ num_ids → window initial k m ≡ count_from (k + 1) m
unfolding window count_from
window-initial zero k h = refl
window-initial (suc m) k h =
    ap₂ ◌∷◌ (initial-slot k (omega arith)) (window-initial m (k + 1) (omega arith))

-- The first call of any operation fills the pool.
run-start : (ops : List Op) → run start ops ≡ run initial ops
unfolding run
run-start [] = refl
run-start (request ∷ ops) = refl
run-start (release id ∷ ops) = refl

-- From the start of the program, every sequence of requests and releases gets exactly the answers
-- of a queue of free ids that holds 1 to `NUM_IDS` in order: the oldest free id, 0 when there is
-- none, and an exit for the first id that is given back while it is free or no id at all.
pub run-spec : (ops : List Op) → run start ops ≡ spec (count_from 1 num_ids) ops
run-spec ops =
    run-start ops
    ∙ run-valid ops num_ids initial-IsValid
    ∙ ap (λ free. spec free ops) (window-initial num_ids 0 (omega arith))
