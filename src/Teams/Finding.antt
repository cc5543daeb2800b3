-- ===== src/Teams/Finding.antt =====
-- `Team_find_available` for a human player: the team that is found.
use xpilot_fxi.Prelude.{
  ℕ, ◌<◌, ◌≡◌, ◌≢◌, ◌⊎◌, inl, inr, Bool, true, false, Option, none, some, List, [], ◌∷◌, arith,
  refl, ◌&&◌, not, length, Bool-cases,
}
use xpilot_fxi.Prelude.Int.{ℤ, ltb_ℤ}
use xpilot_fxi.Teams.Players.{max_teams, Player, human, Team}
use xpilot_fxi.Teams.Choice.{
  no_tally, tally_all, free_bases, available, int_max, is_team, losing_loop, no_team, found, pick,
  find_for_human, team_find_available,
}
use xpilot_fxi.Teams.Choosing.{has, available-has, available-nil, available-order, losing_loop-some}

module _ (score : ℕ → ℤ) (r : Option ℕ) (small : (i : ℕ) → ltb_ℤ (score i) int_max ≡ true) where
  -- Among the teams there is one that is not the robots'; then one is taken, with the lowest score.
  losing_loop-none :
      (is : List ℕ) (x y : ℕ)
      → has x is ≡ true
      → is_team r x ≡ false
      → (m : ℕ) × (losing_loop score r is none int_max ≡ some m)
        × (has m is ≡ true)
        × ((has y is && not (is_team r y) && ltb_ℤ (score y) (score m)) ≡ false)
  unfolding losing_loop
  losing_loop-none [] x y h o = cc
  losing_loop-none (i ∷ is) x y h o = elim (Bool-cases (is_team r i)) [
    | inl e ↦
        let (m, run, where_m, best) = losing_loop-none is x y (ground arith) o in
        (m, simp (losing_loop, e, small i, run), ground arith, ground arith)
    | inr e ↦
        let (m, run, where_m, low, best) = losing_loop-some score r is i y in
        (m, simp (losing_loop, e, small i, run), ground arith, ground arith)
  ]

  robot_or_not : (i j : ℕ) → i ≢ j → (is_team r i ≡ false) ⊎ (is_team r j ≡ false)
  robot_or_not i j ne = split r
    where
      split : (q : Option ℕ) → (is_team q i ≡ false) ⊎ (is_team q j ≡ false)
      split none = inl refl
      split (some k) = ground arith

  -- One of the teams is picked.
  pub pick_lem :
      (xs : List ℕ) (y : ℕ)
      → ((i j : ℕ) (is : List ℕ) → xs ≡ i ∷ j ∷ is → i ≢ j)
      → ((xs ≡ []) × (pick score r xs ≡ no_team))
        ⊎ ((m : ℕ) × (pick score r xs ≡ found m)
            × (has m xs ≡ true)
            × ((has y xs && not (is_team r y) && ltb_ℤ (score y) (score m)) ≡ false))
  unfolding pick
  pick_lem [] y order = inl (refl, refl)
  pick_lem (i ∷ []) y order = inr (i, refl, ground arith, ground arith)
  pick_lem (i ∷ j ∷ is) y order =
      let (x, in_x, not_robot) = other (robot_or_not i j (order i j is refl)) in
      let (m, run, where_m, best) = losing_loop-none (i ∷ j ∷ is) x y in_x not_robot in
      inr (m, simp (pick, run), where_m, best)
    where
      other :
          (is_team r i ≡ false) ⊎ (is_team r j ≡ false)
          → (x : ℕ) × (has x (i ∷ j ∷ is) ≡ true) × (is_team r x ≡ false)
      other (inl e) = (i, ground arith, e)
      other (inr e) = (j, ground arith, e)

-- The teams that `Team_find_available` chooses from, and their scores.
abbrev pub candidates : Bool → (ℕ → Team) → List Player → List ℕ
candidates restrict teams players =
    available (tally_all players no_tally) (free_bases restrict teams) (length players)

abbrev pub team_scores : List Player → ℕ → ℤ
team_scores players = (tally_all players no_tally).team_score

-- For a human player, while the scores of all teams are below `INT_MAX`, `Team_find_available`
-- returns `NULL` only if no team `j` has a free base. Otherwise it returns one of the ten teams,
-- which has a free base, and never the address before the first team; and no other team `y` that
-- it chooses from has a lower score, but for the robots'.
pub team_find_available_lem :
    (restrict : Bool) (teams : ℕ → Team) (r : Option ℕ) (players : List Player) (j y : ℕ)
    → ((i : ℕ) → ltb_ℤ (team_scores players i) int_max ≡ true)
    → j < max_teams
    → ((team_find_available human restrict teams r players ≡ no_team)
        × (free_bases restrict teams j ≡ 0))
      ⊎ ((m : ℕ) × (team_find_available human restrict teams r players ≡ found m)
          × (m < max_teams)
          × (0 < free_bases restrict teams m)
          × ((has y (candidates restrict teams players)
                && not (is_team r y)
                && ltb_ℤ (team_scores players y) (team_scores players m))
              ≡ false))
unfolding team_find_available find_for_human
team_find_available_lem restrict teams r players j y small hj =
    let t = tally_all players no_tally in
    let free = free_bases restrict teams in
    let n = length players in
    elim (pick_lem t.team_score r small (candidates restrict teams players) y
      (available-order t free n)) [
        | inl (nil, p) ↦ inl (p, available-nil t free n j nil hj)
        | inr (m, p, i, best) ↦
            let (lt, room) = available-has t free n m i in inr (m, p, lt, room, best)
      ]
