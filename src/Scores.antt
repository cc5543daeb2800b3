-- ===== src/Scores.antt =====
-- server/score.c: the rating of a kill, and the points for a destroyed treasure.
pub mod Rating
pub mod Punishment
mod Examples
use xpilot_fxi.Prelude.{
  ℕ, zero, suc, ◌+◌, ◌-◌, ◌*◌, ◌/◌, Bool, true, false, List, [], ◌∷◌, ◌==◌, ◌&&◌, ltb,
  if◌then◌else◌,
}
use xpilot_fxi.Prelude.Memory.{update}
use xpilot_fxi.Prelude.Int.{ℤ, pos, negsuc, pos_part, neg_part, sub_ℕ, ◌+ℤ◌, ◌-ℤ◌, ltb_ℤ}
use xpilot_fxi.Teams.Players.{Player, PlayerState, alive, appearing, dead}

abbrev pub rate_size : ℕ
rate_size = 20

abbrev pub rate_range : ℕ
rate_range = 1024

-- `ABS(loser - winner)`
abbrev pub distance : ℤ → ℤ → ℕ
distance a b = pos_part (a -ℤ b) + neg_part (a -ℤ b)

-- `Rate`; scores are taken to stay far below 2 ^ 31.
unfoldable pub rate : ℤ → ℤ → ℕ
rate winner loser =
    let t = rate_size / 2 * rate_range / (distance loser winner + rate_range) in
    if ltb_ℤ winner loser then rate_size - t else t

-- `Player_is_alive(pl2) || Player_is_appearing(pl2) || Player_is_dead(pl2)`
abbrev pub in_round : PlayerState → Bool
in_round alive = true
in_round appearing = true
in_round dead = true
in_round _ = false

abbrev pub is_loser : ℕ → Player → Bool
is_loser loser pl = in_round pl.state && (pl.team == loser)

-- The team of the lost treasure is tested first.
abbrev pub is_winner : ℕ → ℕ → Player → Bool
is_winner loser winner pl =
    if in_round pl.state then if pl.team == loser then false else pl.team == winner else false

-- The first loop of `Punish_team`, whose variables start at 0.
unfoldable pub team_members : (Player → Bool) → List Player → ℕ
team_members member [] = 0
team_members member (pl ∷ players) =
    let rest = team_members member players in if member pl then suc rest else rest

unfoldable pub team_score : (Player → Bool) → List Player → ℤ
team_score member [] = pos 0
team_score member (pl ∷ players) =
    let rest = team_score member players in if member pl then rest +ℤ pl.score else rest

-- `Score_add` with points, and with points taken away.
abbrev pub add_points : ℕ → Player → Player
add_points n pl = record pl { score = pl.score +ℤ pos n }

abbrev pub take_points : ℕ → Player → Player
take_points n pl = record pl { score = pl.score -ℤ pos n }

-- The body of the second loop, at the player with index `i`; `actor` is the index of `pl`.
unfoldable pub settle_score : ℕ → ℕ → ℕ → ℕ → ℕ → ℕ → Player → Player
settle_score loser winner actor sc por i pl =
    if is_loser loser pl
    then take_points sc pl
    else if is_winner loser winner pl
    then add_points (if i == actor then 3 * por else 2 * por) pl
    else pl

unfoldable pub settle_scores : ℕ → ℕ → ℕ → ℕ → ℕ → ℕ → List Player → List Player
unfolding settle_score
settle_scores loser winner actor sc por i [] = []
settle_scores loser winner actor sc por i (pl ∷ players) =
    settle_score loser winner actor sc por i pl
    ∷ settle_scores loser winner actor sc por (i + 1) players

-- `sc` and `por`.
unfoldable pub fine : ℕ → ℕ → List Player → ℕ
unfolding rate team_score
fine loser winner players =
    3 * rate (team_score (is_winner loser winner) players) (team_score (is_loser loser) players)

unfoldable pub portion : ℕ → ℕ → List Player → ℕ
unfolding fine team_members
portion loser winner players =
    fine loser winner players
    * team_members (is_loser loser) players
    / (2 * team_members (is_winner loser winner) players + 1)

-- What `Punish_team` changes: the players, how often each treasure was destroyed, and the counters
-- of the teams. Scores, which are doubles, are taken to be whole.
pub record Game : Type 0 where
  pub players : List Player
  pub destroyed : ℕ → ℕ
  pub treasures_left : ℕ → ℤ
  pub treasures_destroyed : ℕ → ℕ

-- `Punish_team` at two treasures, of which `treasure_team` says whose they are; the player who
-- destroyed the first has the index `actor`.
unfoldable pub punish_team : (ℕ → ℕ) → ℕ → ℕ → ℕ → Game → Game
unfolding settle_scores fine portion
punish_team treasure_team loser_treasure winner_treasure actor g =
    let loser = treasure_team loser_treasure in
    let winner = treasure_team winner_treasure in
    record {
      players =
          settle_scores loser winner actor (fine loser winner g.players)
            (portion loser winner g.players) 0 g.players;
      destroyed = update g.destroyed loser_treasure (g.destroyed loser_treasure + 1);
      treasures_left = update g.treasures_left loser (g.treasures_left loser -ℤ pos 1);
      treasures_destroyed = update g.treasures_destroyed winner (g.treasures_destroyed winner + 1);
    }
