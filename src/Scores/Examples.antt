-- ===== src/Scores/Examples.antt =====
-- Two teams with a score, and the theorems at them.
use xpilot_fxi.Prelude.{ℕ, ◌+◌, ◌*◌, ◌<◌, ◌≡◌, none, List, [], ◌∷◌, refl}
use xpilot_fxi.Prelude.Int.{ℤ, pos, negsuc, ◌+ℤ◌, ◌-ℤ◌}
use xpilot_fxi.Teams.Players.{Player, alive, human}
use xpilot_fxi.Scores.{rate, is_winner, team_members, Game, punish_team}
use xpilot_fxi.Scores.Punishment.{total, punish_team_lem}

rate-weaker : rate (pos 0) (pos 1024) ≡ 15
unfolding rate ◌-ℤ◌
rate-weaker = refl

abbrev member : ℕ → ℤ → Player
member t score = record { team = t; state = alive; kind = human; score = score; home_base = none }

abbrev players : List Player
players = member 1 (pos 5) ∷ member 2 (negsuc 3) ∷ member 1 (pos 9) ∷ []

-- Team 1 loses treasure 0 to team 2, by its player with index 1.
abbrev treasure_team : ℕ → ℕ
treasure_team t = t + 1

abbrev game : Game
game = record {
  players = players;
  destroyed = λ _. 0;
  treasures_left = λ _. pos 1;
  treasures_destroyed = λ _. 0;
}

punish_team_lem_example :
    (rest : ℕ) × (rest < 2 * team_members (is_winner 1 2) players + 1)
    × (total players ≡ total (punish_team treasure_team 0 1 1 game).players +ℤ pos rest)
punish_team_lem_example = punish_team_lem treasure_team 0 1 1 game refl
