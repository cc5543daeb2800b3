-- ===== src/Teams/Bases.antt =====
-- `Team_pick_free_base`.
use xpilot_fxi.Prelude.{
  ℕ, zero, suc, ◌+◌, ◌-◌, ◌≤◌, ◌<◌, ◌≡◌, ◌⊎◌, inl, inr, Bool, true, false, Option, none, some, List,
  [], ◌∷◌, arith, refl, ◌∙◌, ap, ◌==◌, ◌&&◌, ◌||◌, not, ltb, leb, if◌then◌else◌, Bool-cases,
}
use mathlib.Core.Path.{subst}
use xpilot_fxi.Prelude.Memory.{update}
use xpilot_fxi.Teams.Players.{Player}
use xpilot_fxi.Teams.Choice.{is_team, mark_bases, occupy, pick_loop, team_pick_free_base}

-- How many of the `n` bases from `i` on are marked.
abbrev count : (ℕ → Bool) → ℕ → ℕ → ℕ
count free i zero = 0
count free i (suc n) = if free i then suc (count free (i + 1) n) else count free (i + 1) n

-- The base is the home of a player.
abbrev pub occupied : ℕ → List Player → Bool
occupied b [] = false
occupied b (pl ∷ players) = is_team pl.home_base b || occupied b players

count_same :
    (f g : ℕ → Bool) (i n : ℕ)
    → ((b : ℕ) → i ≤ b → b < i + n → f b ≡ g b)
    → count f i n ≡ count g i n
count_same f g i zero e = refl
count_same f g i (suc n) e = ground (
  arith,
  e i (omega arith) (omega arith),
  count_same f g (i + 1) n (λ b low high. e b (omega arith) (omega arith)),
)

count-update :
    (free : ℕ → Bool) (i n b : ℕ)
    → free b ≡ true
    → i ≤ b
    → b < i + n
    → count (update free b false) i n + 1 ≡ count free i n
count-update free i zero b f lo hi = absurd (omega arith)
count-update free i (suc n) b f lo hi = elim (Bool-cases (i == b)) [
  | inl e ↦
      let here : i ≡ b = ground arith in
      let rest = count_same (update free b false) free (i + 1) n (λ c low high. ground arith) in
      ground (arith, rest)
  | inr ne ↦ ground (arith, count-update free (i + 1) n b f (ground arith) (omega arith))
]

mark_bases-free :
    (team : ℕ) (base_team : ℕ → ℕ) (n i : ℕ) (free : ℕ → Bool) (b : ℕ)
    → (mark_bases team base_team n i free).1 b
      ≡ (if leb i b && ltb b (i + n) then base_team b == team else free b)
unfolding mark_bases
mark_bases-free team base_team zero i free b = ground arith
mark_bases-free team base_team (suc n) i free b =
    ground (arith, mark_bases-free team base_team n (i + 1) (update free i (base_team i == team)) b)

mark_bases-count :
    (team : ℕ) (base_team : ℕ → ℕ) (n i : ℕ) (free : ℕ → Bool)
    → (mark_bases team base_team n i free).0 ≡ count (λ b. base_team b == team) i n
unfolding mark_bases
mark_bases-count team base_team zero i free = refl
mark_bases-count team base_team (suc n) i free =
    ground (arith, mark_bases-count team base_team n (i + 1) (update free i (base_team i == team)))

occupy-free :
    (players : List Player) (num : ℕ) (free : ℕ → Bool) (b : ℕ)
    → (occupy players (num, free)).1 b ≡ (free b && not (occupied b players))
unfolding occupy
occupy-free [] num free b = ground arith
occupy-free (pl ∷ players) num free b = home pl.home_base (λ k f. occupy-free players k f b)
  where
    Rest : Type 0
    Rest = (k : ℕ) (f : ℕ → Bool) → (occupy players (k, f)).1 b ≡ (f b && not (occupied b players))

    taken :
        (c : ℕ) (t : Bool)
        → Rest
        → free c ≡ t
        → (if t
              then occupy players (num - 1, update free c false)
              else occupy players (num, free)).1
            b
          ≡ (free b && not ((c == b) || occupied b players))
    taken c true ih e = ground (arith, ih (num - 1) (update free c false))
    taken c false ih e = ground (arith, ih num free)

    home :
        (h : Option ℕ)
        → Rest
        → (elim h as (λ _. ℕ × (ℕ → Bool)) [
          | none ↦ occupy players (num, free)
          | some c ↦
              if free c
              then occupy players (num - 1, update free c false)
              else occupy players (num, free)
        ]).1
            b
          ≡ (free b && not (is_team h b || occupied b players))
    home none ih = ih num free
    home (some c) ih = taken c (free c) ih refl

occupy-count :
    (players : List Player) (num : ℕ) (free : ℕ → Bool) (n : ℕ)
    → num ≡ count free 0 n
    → ((b : ℕ) → free b ≡ true → b < n)
    → (occupy players (num, free)).0 ≡ count (occupy players (num, free)).1 0 n
unfolding occupy
occupy-count [] num free n e inside = e
occupy-count (pl ∷ players) num free n e inside =
    home pl.home_base (λ k f. occupy-count players k f n)
  where
    Counted : ℕ × (ℕ → Bool) → Type 0
    Counted (k, marked) = k ≡ count marked 0 n

    Rest : Type 0
    Rest =
        (k : ℕ) (f : ℕ → Bool)
        → k ≡ count f 0 n
        → ((b : ℕ) → f b ≡ true → b < n)
        → Counted (occupy players (k, f))

    taken :
        (c : ℕ) (t : Bool)
        → Rest
        → free c ≡ t
        → Counted (
            if t then occupy players (num - 1, update free c false) else occupy players (num, free))
    taken c true ih f =
        ih (num - 1) (update free c false)
          (omega (arith, count-update free 0 n c f (omega arith) (omega (arith, inside c f))))
          (λ b marked. inside b (ground arith))
    taken c false ih f = ih num free e inside

    home :
        (h : Option ℕ)
        → Rest
        → Counted (elim h as (λ _. ℕ × (ℕ → Bool)) [
          | none ↦ occupy players (num, free)
          | some c ↦
              if free c
              then occupy players (num - 1, update free c false)
              else occupy players (num, free)
        ])
    home none ih = ih num free e inside
    home (some c) ih = taken c (free c) ih refl

-- The loop ends at a marked base, unless there are too few.
pick_loop_lem :
    (free : ℕ → Bool) (n i left : ℕ)
    → left < count free i n
    → (b : ℕ) × (pick_loop free n i left ≡ some b) × (free b ≡ true)
unfolding pick_loop
pick_loop_lem free zero i left h = absurd (omega arith)
pick_loop_lem free (suc n) i zero h = elim (Bool-cases (free i)) [
  | inl f ↦ (i, simp (pick_loop, f), f)
  | inr f ↦
      let (b, run, marked) = pick_loop_lem free n (i + 1) zero (ground (arith, h)) in
      (b, simp (pick_loop, f, run), marked)
]
pick_loop_lem free (suc n) i (suc left) h = elim (Bool-cases (free i)) [
  | inl f ↦
      let (b, run, marked) = pick_loop_lem free n (i + 1) left (ground (arith, h)) in
      (b, simp (pick_loop, f, run), marked)
  | inr f ↦
      let (b, run, marked) = pick_loop_lem free n (i + 1) (suc left) (ground (arith, h)) in
      (b, simp (pick_loop, f, run), marked)
]

count-zero : (free : ℕ → Bool) (n i j : ℕ) → count free i n ≡ 0 → i ≤ j → j < i + n → free j ≡ false
count-zero free zero i j h a b = absurd (omega arith)
count-zero free (suc n) i j h a b = elim (Bool-cases (i == j)) [
  | inl e ↦ let same : i ≡ j = ground arith in subst (λ k. free k ≡ false) same (ground (arith, h))
  | inr e ↦ count-zero free n (i + 1) j (ground (arith, h)) (ground arith) (omega arith)
]

pick_loop-zero : (free : ℕ → Bool) (n i : ℕ) → count free i n ≡ 0 → pick_loop free n i 0 ≡ none
unfolding pick_loop
pick_loop-zero free zero i h = refl
pick_loop-zero free (suc n) i h =
    let f : free i ≡ false = count-zero free (suc n) i i h (omega arith) (omega arith) in
    simp (pick_loop, f, pick_loop-zero free n (i + 1) (ground (arith, h)))

-- `draw n` is `(int32_t) (rfrac() * n)` with a fraction below 1. `Team_pick_free_base` returns
-- `NULL` only if no base `j` of the team is free; otherwise it returns one of the `num_bases`
-- bases, of the team, that is no player's home.
pub team_pick_free_base_lem :
    (draw : ℕ → ℕ) (team : ℕ) (base_team : ℕ → ℕ) (num_bases : ℕ) (players : List Player) (j : ℕ)
    → draw 0 ≡ 0
    → ((n : ℕ) → 0 < n → draw n < n)
    → j < num_bases
    → ((team_pick_free_base draw team base_team num_bases players ≡ none)
        × (((base_team j == team) && not (occupied j players)) ≡ false))
      ⊎ ((b : ℕ) × (team_pick_free_base draw team base_team num_bases players ≡ some b)
          × (b < num_bases)
          × (base_team b ≡ team)
          × (occupied b players ≡ false))
unfolding team_pick_free_base
team_pick_free_base_lem draw team base_team num_bases players j d0 dn hj =
    elim (Bool-cases (num == 0)) [
      | inl e ↦
          let none_left : count free 0 num_bases ≡ 0 = ground (arith, counted) in
          let no_draw : draw num ≡ 0 = ap draw (ground arith) ∙ d0 in
          inl (
            simp (team_pick_free_base, no_draw, pick_loop-zero free num_bases 0 none_left),
            ground (
              arith,
              count-zero free num_bases 0 j none_left (omega arith) (omega arith),
              marks j,
            ),
          )
      | inr e ↦
          let (b, run, marked) =
            pick_loop_lem free num_bases 0 (draw num) (rw (← counted) (dn num (ground arith))) in
          inr (
            b,
            run,
            ground (arith, marked, marks b),
            ground (arith, marked, marks b),
            ground (arith, marked, marks b),
          )
    ]
  where
    whole : ℕ × (ℕ → Bool)
    whole = mark_bases team base_team num_bases 0 (λ _. false)

    num : ℕ
    num = (occupy players whole).0

    free : ℕ → Bool
    free = (occupy players whole).1

    marked_free : (b : ℕ) → whole.1 b ≡ (ltb b num_bases && (base_team b == team))
    marked_free b = ground (arith, mark_bases-free team base_team num_bases 0 (λ _. false) b)

    marks :
        (b : ℕ) → free b ≡ (ltb b num_bases && (base_team b == team) && not (occupied b players))
    marks b = ground (arith, occupy-free players whole.0 whole.1 b, marked_free b)

    counted : num ≡ count free 0 num_bases
    counted =
        occupy-count players whole.0 whole.1 num_bases
          (mark_bases-count team base_team num_bases 0 (λ _. false)
            ∙ count_same (λ b. base_team b == team) whole.1 0 num_bases
                (λ b low high. ground (arith, marked_free b)))
          (λ b f. ground (arith, marked_free b))
