-- ===== src/Teams/Choice.antt =====
-- server/team.c: `Team_find_available` and `Team_pick_free_base`.
use xpilot_fxi.Prelude.{
  ℕ, zero, suc, ◌+◌, ◌-◌, ◌^◌, Bool, true, false, Option, none, some, List, [], ◌∷◌, ◌==◌, ◌&&◌,
  ◌||◌, not, ltb, leb, if◌then◌else◌, length,
}
use xpilot_fxi.Prelude.Int.{ℤ, pos, ◌+ℤ◌, ltb_ℤ}
use xpilot_fxi.Prelude.Memory.{update}
use xpilot_fxi.Teams.Players.{
  max_teams, PlayerType, Player, Team, takes_part, human, robot, tank, only_robots, only_pausers,
  any,
}

-- `free_bases[i]`, used only to see if it is positive, so what is below 0 is 0.
unfoldable pub free_bases : Bool → (ℕ → Team) → ℕ → ℕ
free_bases restrict teams i = elim (teams i).properties [
  | only_pausers ↦ 0
  | only_robots ↦ if restrict then 0 else (teams i).num_bases - (teams i).num_members
  | any ↦ (teams i).num_bases - (teams i).num_members
]

-- The variables of the loop over the players in `Team_find_available`.
pub record Tally : Type 0 where
  pub playing : ℕ → ℕ
  pub playing_teams : ℕ
  pub team_score : ℕ → ℤ

abbrev scores : PlayerType → Bool
scores human = true
scores robot = true
scores tank = false

unfoldable pub tally_player : Player → Tally → Tally
tally_player pl t =
    if takes_part pl.state
    then record {
      playing = update t.playing pl.team (t.playing pl.team + 1);
      playing_teams = if t.playing pl.team == 0 then t.playing_teams + 1 else t.playing_teams;
      team_score =
          if scores pl.kind
          then update t.team_score pl.team (t.team_score pl.team +ℤ pl.score)
          else t.team_score;
    }
    else t

unfoldable pub tally_all : List Player → Tally → Tally
unfolding tally_player
tally_all [] t = t
tally_all (pl ∷ players) t = tally_all players (tally_player pl t)

abbrev pub no_tally : Tally
no_tally = record { playing = λ _. 0; playing_teams = 0; team_score = λ _. pos 0 }

-- `for (i ...) if (test(i)) available_teams[num_available_teams++] = i;`, for `n` teams from `i` on.
unfoldable pub select : (ℕ → Bool) → ℕ → ℕ → List ℕ
select test i zero = []
select test i (suc n) = let rest = select test (i + 1) n in if test i then i ∷ rest else rest

-- The loop that computes `least_players`.
unfoldable pub least_loop : (ℕ → ℕ) → (ℕ → ℕ) → ℕ → ℕ → ℕ → ℕ
least_loop playing free zero i least = least
least_loop playing free (suc n) i least =
    let better = ltb 0 (playing i) && ltb 0 (free i) && ltb (playing i) least in
    least_loop playing free n (i + 1) (if better then playing i else least)

unfoldable pub available_first : Tally → (ℕ → ℕ) → ℕ → List ℕ
unfolding select least_loop
available_first t free num_players =
    let least = least_loop t.playing free max_teams 0 num_players in
    if leb t.playing_teams 1
    then select (λ i. (t.playing i == 0) && ltb 0 (free i)) 0 max_teams
    else select (λ i. ltb 0 (free i) && ((least == num_players) || (t.playing i == least))) 0
        max_teams

-- The teams to choose from.
unfoldable pub available : Tally → (ℕ → ℕ) → ℕ → List ℕ
unfolding available_first select
available t free num_players = elim (available_first t free num_players) [
  | [] ↦ select (λ i. ltb 0 (free i)) 0 max_teams
  | i ∷ is ↦ i ∷ is
]

-- `INT_MAX`
abbrev pub int_max : ℤ
int_max = pos (2 ^ 31 - 1)

-- The loop that looks for the team with the lowest score: `losing_team`, `none` for -1, and its
-- score. `robot_team` is `none` if it is no team's number.
abbrev pub is_team : Option ℕ → ℕ → Bool
is_team none i = false
is_team (some r) i = r == i

unfoldable pub losing_loop : (ℕ → ℤ) → Option ℕ → List ℕ → Option ℕ → ℤ → Option ℕ
losing_loop score robot_team [] losing low = losing
losing_loop score robot_team (i ∷ is) losing low =
    let taken = losing_loop score robot_team is (some i) (score i) in
    let passed = losing_loop score robot_team is losing low in
    if ltb_ℤ (score i) low && not (is_team robot_team i) then taken else passed

-- What `Team_find_available` returns: `NULL`, a team, or the address of `World.teams[-1]`.
pub data Choice : Type 0 where
  no_team : Choice
  found : ℕ → Choice
  outside : Choice

abbrev pub chosen : Option ℕ → Choice
chosen none = outside
chosen (some i) = found i

unfoldable pub pick : (ℕ → ℤ) → Option ℕ → List ℕ → Choice
unfolding losing_loop
pick score robot_team [] = no_team
pick score robot_team (i ∷ []) = found i
pick score robot_team (i ∷ j ∷ is) = chosen (losing_loop score robot_team (i ∷ j ∷ is) none int_max)

unfoldable pub find_for_robot : (ℕ → Team) → Option ℕ → Choice
find_for_robot teams none = no_team
find_for_robot teams (some r) =
    if ltb (teams r).num_members (teams r).num_bases then found r else no_team

unfoldable pub find_for_human : Bool → (ℕ → Team) → Option ℕ → List Player → Choice
unfolding free_bases tally_all available pick
find_for_human restrict teams robot_team players =
    let t = tally_all players no_tally in
    pick t.team_score robot_team (available t (free_bases restrict teams) (length players))

-- `Team_find_available`
unfoldable pub team_find_available :
    PlayerType → Bool → (ℕ → Team) → Option ℕ → List Player → Choice
unfolding find_for_robot find_for_human
team_find_available robot restrict teams robot_team players = find_for_robot teams robot_team
team_find_available human restrict teams robot_team players =
    find_for_human restrict teams robot_team players
team_find_available tank restrict teams robot_team players = no_team

-- The two loops of `Team_pick_free_base` that fill `free_bases`; `base_team` is the team of a base.
unfoldable pub mark_bases : ℕ → (ℕ → ℕ) → ℕ → ℕ → (ℕ → Bool) → ℕ × (ℕ → Bool)
mark_bases team base_team zero i free = (0, free)
mark_bases team base_team (suc n) i free =
    let (num, marked) = mark_bases team base_team n (i + 1) (update free i (base_team i == team)) in
    (if base_team i == team then suc num else num, marked)

unfoldable pub occupy : List Player → ℕ × (ℕ → Bool) → ℕ × (ℕ → Bool)
occupy [] s = s
occupy (pl ∷ players) (num, free) = elim pl.home_base [
  | none ↦ occupy players (num, free)
  | some b ↦
      let taken = occupy players (num - 1, update free b false) in
      let passed = occupy players (num, free) in if free b then taken else passed
]

-- The last loop, for `n` bases from `i` on, with `pick - seen` bases to pass over.
unfoldable pub pick_loop : (ℕ → Bool) → ℕ → ℕ → ℕ → Option ℕ
pick_loop free zero i left = none
pick_loop free (suc n) i zero =
    let rest = pick_loop free n (i + 1) zero in if free i then some i else rest
pick_loop free (suc n) i (suc left) =
    let seen = pick_loop free n (i + 1) left in
    let rest = pick_loop free n (i + 1) (suc left) in if free i then seen else rest

-- `Team_pick_free_base`, where `draw n` is `(int32_t) (rfrac() * n)`.
unfoldable pub team_pick_free_base : (ℕ → ℕ) → ℕ → (ℕ → ℕ) → ℕ → List Player → Option ℕ
unfolding mark_bases occupy pick_loop
team_pick_free_base draw team base_team num_bases players =
    let (num, free) = occupy players (mark_bases team base_team num_bases 0 (λ _. false)) in
    pick_loop free num_bases 0 (draw num)
