-- ===== src/Teams/Balance.antt =====
-- `Team_find_available`: the numbers of playing players in the teams.
use xpilot_fxi.Prelude.{
  ℕ, zero, suc, ◌+◌, ◌≤◌, ◌<◌, ◌≡◌, ◌⊎◌, inl, inr, Bool, true, false, Option, List, [], ◌∷◌, arith,
  refl, sym, ◌∙◌, ◌==◌, ◌&&◌, not, ltb, if◌then◌else◌, length, Bool-cases,
}
use mathlib.Core.Path.{subst}
use xpilot_fxi.Prelude.Int.{ltb_ℤ}
use xpilot_fxi.Teams.Players.{max_teams, Player, human, Team}
use xpilot_fxi.Teams.Choice.{
  Tally, no_tally, tally_player, tally_all, free_bases, select, least_loop, available, int_max,
  is_team, no_team, found, pick, find_for_human, team_find_available,
}
use xpilot_fxi.Teams.Choosing.{
  has, select-has, select-nil, least_team, first-many, available-cases, available-order,
}
use xpilot_fxi.Teams.Finding.{candidates, team_scores, pick_lem}

-- No team has more playing players than there are players.
tally_all-playing :
    (players : List Player) (t : Tally) (x : ℕ)
    → (tally_all players t).playing x ≤ t.playing x + length players
unfolding tally_all tally_player
tally_all-playing [] t x = omega arith
tally_all-playing (pl ∷ players) t x =
    let rest = tally_all-playing players (tally_player pl t) x in
    let one : (tally_player pl t).playing x ≤ t.playing x + 1 = ground arith in
    omega (arith, rest, one)

-- One round of the loop for the least number, on its own.
next_low : (playing free : ℕ → ℕ) (i low : ℕ) → ℕ
next_low playing free i low =
    if ltb 0 (playing i) && ltb 0 (free i) && ltb (playing i) low then playing i else low

module _ (playing free : ℕ → ℕ) where
  next_low_lem :
      (i low : ℕ)
      → (next_low playing free i low ≤ low)
        × ((next_low playing free i low ≡ low)
            ⊎ ((0 < free i) × (next_low playing free i low ≡ playing i)))
  unfolding next_low
  next_low_lem i low = ground arith

  next_low-below :
      (i low : ℕ) → 0 < playing i → 0 < free i → next_low playing free i low ≤ playing i
  unfolding next_low
  next_low-below i low p f = ground arith

  least_loop-below : (n i low : ℕ) → least_loop playing free n i low ≤ low
  unfolding least_loop next_low
  least_loop-below zero i low = omega arith
  least_loop-below (suc n) i low =
      omega
        (arith, (next_low_lem i low).0, least_loop-below n (i + 1) (next_low playing free i low))

  -- The least number is no more than that of any team with players and a free base.
  least_loop-low :
      (n i low j : ℕ)
      → i ≤ j
      → j < i + n
      → 0 < playing j
      → 0 < free j
      → least_loop playing free n i low ≤ playing j
  unfolding least_loop next_low
  least_loop-low zero i low j a b p f = absurd (omega arith)
  least_loop-low (suc n) i low j a b p f = elim (Bool-cases (i == j)) [
    | inl e ↦
        let here : next_low playing free j low ≤ playing j = next_low-below j low p f in
        let same : i ≡ j = ground arith in
        omega (
          arith,
          least_loop-below n (i + 1) (next_low playing free i low),
          subst (λ k. next_low playing free k low ≤ playing j) (sym same) here,
        )
    | inr e ↦
        least_loop-low n (i + 1) (next_low playing free i low) j (ground arith) (omega arith) p f
  ]

  -- It is the number that the loop began with, or that of a team with a free base.
  least_loop-attained :
      (n i low : ℕ)
      → (least_loop playing free n i low ≡ low)
        ⊎ ((k : ℕ) × (i ≤ k)
            × (k < i + n)
            × (0 < free k)
            × (least_loop playing free n i low ≡ playing k))
  unfolding least_loop next_low
  least_loop-attained zero i low = inl refl
  least_loop-attained (suc n) i low =
      elim (least_loop-attained n (i + 1) (next_low playing free i low)) [
        | inl e ↦ elim ((next_low_lem i low).1) [
          | inl e' ↦ inl (e ∙ e')
          | inr (f, e') ↦ inr (i, omega arith, omega arith, f, e ∙ e')
        ]
        | inr (k, a, b, f, e) ↦ inr (k, omega arith, omega arith, f, e)
      ]

module _ (t : Tally) (free : ℕ → ℕ) (n j : ℕ) (many : 1 < t.playing_teams) (hj : j < max_teams)
    (room : 0 < free j) (some_play : 0 < t.playing j) where
  some_least : (k : ℕ) × (k < max_teams) × (least_team t free n k ≡ true)
  some_least = elim (least_loop-attained t.playing free max_teams 0 n) [
    | inl e ↦ (j, hj, ground (arith, room))
    | inr (k, a, b, f, e) ↦ (k, omega arith, ground (arith, f))
  ]

  available-least : available t free n ≡ select (least_team t free n) 0 max_teams
  available-least =
      let first = first-many t free n (ground arith) in
      let (k, hk, test) = some_least in
      elim (available-cases t free n) [
        | inl (e, ne) ↦ e ∙ first
        | inr (nil, e) ↦
            let fails =
              select-nil (least_team t free n) max_teams 0 k (sym first ∙ nil) (omega arith) hk in
            absurd (ground arith)
      ]

  least-low :
      (m : ℕ) → has m (available t free n) ≡ true → t.playing m ≤ n → t.playing m ≤ t.playing j
  least-low m h bound =
      let h' = subst (λ xs. has m xs ≡ true) available-least h in
      let low = least_loop-low t.playing free max_teams 0 n j (omega arith) hj some_play room in
      ground (arith, h', low, select-has (least_team t free n) max_teams 0 m)

-- Every team's score is below `INT_MAX`. When more than one team plays, some team with players has a free base, and a human is sent to a
-- team, then that team `m` has no more playing players than any team `j` with players and a free
-- base.
pub team_find_available-balance :
    (restrict : Bool) (teams : ℕ → Team) (r : Option ℕ) (players : List Player) (m j : ℕ)
    → ((i : ℕ) → ltb_ℤ (team_scores players i) int_max ≡ true)
    → 1 < (tally_all players no_tally).playing_teams
    → j < max_teams
    → 0 < free_bases restrict teams j
    → 0 < (tally_all players no_tally).playing j
    → team_find_available human restrict teams r players ≡ found m
    → (tally_all players no_tally).playing m ≤ (tally_all players no_tally).playing j
unfolding team_find_available find_for_human
team_find_available-balance restrict teams r players m j small many hj room some_play e =
    let t = tally_all players no_tally in
    let free = free_bases restrict teams in
    let n = length players in
    least-low t free n j many hj room some_play m
      (picked (
        pick_lem t.team_score r small (candidates restrict teams players) m
          (available-order t free n)))
      (omega (arith, tally_all-playing players no_tally m))
  where
    xs : List ℕ
    xs = candidates restrict teams players

    picked :
        ((xs ≡ []) × (pick (team_scores players) r xs ≡ no_team))
          ⊎ ((k : ℕ) × (pick (team_scores players) r xs ≡ found k)
              × (has k xs ≡ true)
              × ((has m xs
                    && not (is_team r m)
                    && ltb_ℤ (team_scores players m) (team_scores players k))
                  ≡ false))
        → has m xs ≡ true
    picked (inl (nil, p)) = cc
    picked (inr (k, p, i, best)) = let same : k ≡ m = cc in subst (λ q. has q xs ≡ true) same i
