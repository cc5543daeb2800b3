-- ===== src/Teams/Players.antt =====
-- server/team.c: the teams and players, and the counts over them.
use xpilot_fxi.Prelude.{
  ℕ, suc, Bool, true, false, Option, none, some, List, [], ◌∷◌, ◌==◌, ◌&&◌, ◌||◌, ltb,
  if◌then◌else◌,
}
use xpilot_fxi.Prelude.Int.{ℤ, pos, ◌+ℤ◌}

abbrev pub max_teams : ℕ
max_teams = 10

-- The values of `player_state_t`.
pub data PlayerState : Type 0 where
  undefined waiting appearing alive killed dead paused : PlayerState

-- `player_type_t`
pub data PlayerType : Type 0 where
  human robot tank : PlayerType

-- The fields of `player_t` that team.c reads: the number of the team, and the id of the home base.
-- The sum of scores of a team is taken to stay in range.
pub record Player : Type 0 where
  pub team : ℕ
  pub state : PlayerState
  pub kind : PlayerType
  pub score : ℤ
  pub home_base : Option ℕ

pub data Properties : Type 0 where
  only_robots only_pausers any : Properties

pub record Team : Type 0 where
  pub properties : Properties
  pub num_bases : ℕ
  pub num_members : ℕ
  pub num_treasures : ℕ
  pub treasures_destroyed : ℕ
  pub treasures_left : ℕ

abbrev pub is_alive : PlayerState → Bool
is_alive alive = true
is_alive _ = false

abbrev pub is_appearing : PlayerState → Bool
is_appearing appearing = true
is_appearing _ = false

-- `Player_is_alive(pl) || Player_is_appearing(pl) || Player_is_dead(pl) || Player_is_waiting(pl)`
abbrev pub takes_part : PlayerState → Bool
takes_part alive = true
takes_part appearing = true
takes_part dead = true
takes_part waiting = true
takes_part _ = false

-- `Player_is_active`
abbrev pub is_active : PlayerState → Bool
is_active alive = true
is_active appearing = true
is_active waiting = true
is_active killed = true
is_active dead = true
is_active _ = false

-- `Teams_reset`
unfoldable pub teams_reset : (ℕ → Team) → ℕ → Team
teams_reset teams i =
    if ltb i max_teams
    then record (teams i) { treasures_destroyed = 0; treasures_left = (teams i).num_treasures }
    else teams i

-- `Team_is_dead`, whose loop stops at the first player who lives.
unfoldable pub team_is_dead : ℕ → List Player → Bool
team_is_dead team [] = true
team_is_dead team (pl ∷ players) =
    let rest = team_is_dead team players in
    if (pl.team == team) && (is_alive pl.state || is_appearing pl.state) then false else rest

-- `Team_count_active_players`; `none` is any team.
abbrev pub on_team : Option ℕ → Player → Bool
on_team none pl = true
on_team (some t) pl = pl.team == t

unfoldable pub team_count_active_players : Option ℕ → List Player → ℕ
team_count_active_players team [] = 0
team_count_active_players team (pl ∷ players) =
    let rest = team_count_active_players team players in
    if on_team team pl && is_active pl.state then suc rest else rest

-- The bit of a state; `pl_state` has just one bit, so `Player_is_state` compares.
abbrev pub state_bit : PlayerState → ℕ
state_bit undefined = 1
state_bit waiting = 2
state_bit appearing = 4
state_bit alive = 8
state_bit killed = 16
state_bit dead = 32
state_bit paused = 64

-- `Team_count_players`, where `count` is not set before the loop: `unset` is what it holds.
unfoldable pub team_count_players : ℤ → ℕ → PlayerState → List Player → ℤ
unfolding ◌+ℤ◌
team_count_players unset team state [] = unset
team_count_players unset team state (pl ∷ players) =
    team_count_players
      (if (pl.team == team) && (state_bit pl.state == state_bit state)
        then unset +ℤ pos 1
        else unset)
      team state players
