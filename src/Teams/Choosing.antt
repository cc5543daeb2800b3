-- ===== src/Teams/Choosing.antt =====
-- `Team_find_available` for a human player: the teams to choose from.
use xpilot_fxi.Prelude.{
  ℕ, zero, suc, ◌+◌, ◌≤◌, ◌<◌, ◌≡◌, ◌≢◌, ◌⊎◌, inl, inr, Bool, true, false, Option, some, List, [],
  ◌∷◌, arith, refl, sym, ◌∙◌, ap, ◌==◌, ◌&&◌, ◌||◌, not, ltb, leb, Bool-cases,
}
use mathlib.Core.Path.{subst}
use xpilot_fxi.Prelude.Int.{ℤ, ltb_ℤ}
use xpilot_fxi.Teams.Players.{max_teams}
use xpilot_fxi.Teams.Choice.{
  Tally, select, least_loop, available_first, available, is_team, losing_loop,
}

abbrev pub has : ℕ → List ℕ → Bool
has x [] = false
has x (y ∷ ys) = (x == y) || has x ys

-- Just the teams in range that pass the test are selected.
pub select-has :
    (test : ℕ → Bool) (n i x : ℕ) → has x (select test i n) ≡ (test x && leb i x && ltb x (i + n))
unfolding select
select-has test zero i x = ground arith
select-has test (suc n) i x = ground (arith, select-has test n (i + 1) x)

pub select-nil :
    (test : ℕ → Bool) (n i x : ℕ) → select test i n ≡ [] → i ≤ x → x < i + n → test x ≡ false
select-nil test n i x e a b = ground (arith, ap (λ xs. has x xs) e, select-has test n i x)

-- The selected teams stand in order, so the first two differ.
select-order : (test : ℕ → Bool) (n k i j : ℕ) (is : List ℕ) → select test k n ≡ i ∷ j ∷ is → i ≢ j
unfolding select
select-order test zero k i j is e = cc
select-order test (suc n) k i j is e = elim (Bool-cases (test k)) [
  | inl t ↦
      let whole : (k ∷ select test (k + 1) n) ≡ i ∷ j ∷ is = sym (simp (select, t)) ∙ e in
      let head : k ≡ i = cc in
      let rest : select test (k + 1) n ≡ j ∷ is = cc in
      let later = ap (λ xs. has j xs) rest in ground (arith, later, select-has test n (k + 1) j)
  | inr t ↦ select-order test n (k + 1) i j is (sym (simp (select, t)) ∙ e)
]

module _ (t : Tally) (free : ℕ → ℕ) (num : ℕ) where
  -- The tests of the three loops that select teams.
  abbrev empty_team : ℕ → Bool
  empty_team i = (t.playing i == 0) && ltb 0 (free i)

  abbrev pub least : ℕ
  least = least_loop t.playing free max_teams 0 num

  abbrev pub least_team : ℕ → Bool
  least_team i = ltb 0 (free i) && ((least == num) || (t.playing i == least))

  abbrev free_team : ℕ → Bool
  free_team i = ltb 0 (free i)

  first-few :
      leb t.playing_teams 1 ≡ true → available_first t free num ≡ select empty_team 0 max_teams
  unfolding available_first
  first-few e = simp (available_first, e)

  pub first-many :
      leb t.playing_teams 1 ≡ false → available_first t free num ≡ select least_team 0 max_teams
  unfolding available_first
  first-many e = simp (available_first, e)

  first-has : (x : ℕ) → has x (available_first t free num) ≡ true → (x < max_teams) × (0 < free x)
  first-has x h = elim (Bool-cases (leb t.playing_teams 1)) [
    | inl e ↦
        let h' = subst (λ xs. has x xs ≡ true) (first-few e) h in
        ground (arith, h', select-has empty_team max_teams 0 x)
    | inr e ↦
        let h' = subst (λ xs. has x xs ≡ true) (first-many e) h in
        ground (arith, h', select-has least_team max_teams 0 x)
  ]

  -- What `available` is.
  pub available-cases :
      ((available t free num ≡ available_first t free num) × (available_first t free num ≢ []))
      ⊎ ((available_first t free num ≡ []) × (available t free num ≡ select free_team 0 max_teams))
  unfolding available
  available-cases = cases (available_first t free num)
    where
      cases :
          (xs : List ℕ)
          → ((elim xs as (λ _. List ℕ) [ [] ↦ select free_team 0 max_teams | i ∷ is ↦ i ∷ is ] ≡ xs)
              × (xs ≢ []))
            ⊎ ((xs ≡ [])
                × (elim xs as (λ _. List ℕ) [ [] ↦ select free_team 0 max_teams | i ∷ is ↦ i ∷ is ]
                    ≡ select free_team 0 max_teams))
      cases [] = inr (refl, refl)
      cases (i ∷ is) = inl (refl, λ e. cc)

  pub available-has : (x : ℕ) → has x (available t free num) ≡ true → (x < max_teams) × (0 < free x)
  available-has x h = elim available-cases [
    | inl (e, ne) ↦ first-has x (subst (λ xs. has x xs ≡ true) e h)
    | inr (n, e) ↦
        let h' = subst (λ xs. has x xs ≡ true) e h in
        ground (arith, h', select-has free_team max_teams 0 x)
  ]

  pub available-nil : (x : ℕ) → available t free num ≡ [] → x < max_teams → free x ≡ 0
  available-nil x h lt = elim available-cases [
    | inl (e, ne) ↦ absurd (ne (sym e ∙ h))
    | inr (n, e) ↦ ground (arith, select-nil free_team max_teams 0 x (sym e ∙ h))
  ]

  pub available-order : (i j : ℕ) (is : List ℕ) → available t free num ≡ i ∷ j ∷ is → i ≢ j
  available-order i j is h = elim available-cases [
    | inl (e, ne) ↦ elim (Bool-cases (leb t.playing_teams 1)) [
      | inl f ↦ select-order empty_team max_teams 0 i j is (sym (first-few f) ∙ sym e ∙ h)
      | inr f ↦ select-order least_team max_teams 0 i j is (sym (first-many f) ∙ sym e ∙ h)
    ]
    | inr (n, e) ↦ select-order free_team max_teams 0 i j is (sym e ∙ h)
  ]

-- Once a team has been taken in the loop over the scores, the result is one of the teams, whose
-- score is no higher than that of any team `y` that is not the robots'.
pub losing_loop-some :
    (score : ℕ → ℤ) (r : Option ℕ) (is : List ℕ) (k y : ℕ)
    → (m : ℕ) × (losing_loop score r is (some k) (score k) ≡ some m)
      × ((m == k) || has m is ≡ true)
      × (ltb_ℤ (score k) (score m) ≡ false)
      × ((has y is && not (is_team r y) && ltb_ℤ (score y) (score m)) ≡ false)
unfolding losing_loop
losing_loop-some score r [] k y = (k, refl, ground arith, ground arith, refl)
losing_loop-some score r (i ∷ is) k y =
    elim (Bool-cases (ltb_ℤ (score i) (score k) && not (is_team r i))) [
      | inl e ↦
          let (m, run, where_m, low, best) = losing_loop-some score r is i y in
          (m, simp (losing_loop, e, run), ground arith, ground arith, ground arith)
      | inr e ↦
          let (m, run, where_m, low, best) = losing_loop-some score r is k y in
          (m, simp (losing_loop, e, run), ground arith, low, ground arith)
    ]
