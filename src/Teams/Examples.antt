-- ===== src/Teams/Examples.antt =====
-- A game with players on two teams, and the theorems at it.
use xpilot_fxi.Prelude.{
  ℕ, ◌/◌, ◌||◌, ◌≤◌, ◌<◌, ◌≡◌, ◌⊎◌, true, false, none, some, List, [], ◌∷◌, arith, refl, ◌==◌, ◌&&◌,
  ltb, not, if◌then◌else◌,
}
use xpilot_fxi.Prelude.Int.{ℤ, pos, negsuc, ltb_ℤ, ◌+ℤ◌}
use xpilot_fxi.Teams.Players.{max_teams, Player, human, alive, Team, any, team_count_players}
use xpilot_fxi.Teams.Choice.{
  free_bases, no_tally, tally_all, int_max, is_team, no_team, found, team_find_available,
  team_pick_free_base,
}
use xpilot_fxi.Teams.Choosing.{has}
use xpilot_fxi.Teams.Finding.{candidates, team_scores, team_find_available_lem}
use xpilot_fxi.Teams.Balance.{team_find_available-balance}
use xpilot_fxi.Teams.Bases.{occupied, team_pick_free_base_lem}
use xpilot_fxi.Teams.Counts.{Counted, team_count_players_unset}

-- Teams 1 and 2 have four bases each.
abbrev teams : ℕ → Team
teams i = record {
  properties = any;
  num_bases = if (i == 1) || (i == 2) then 4 else 0;
  num_members = if i == 1 then 2 else if i == 2 then 1 else 0;
  num_treasures = 1;
  treasures_destroyed = 0;
  treasures_left = 1;
}

abbrev member : ℕ → ℕ → ℤ → Player
member t base score = record {
  team = t;
  state = alive;
  kind = human;
  score = score;
  home_base = some base;
}

abbrev players : List Player
players = member 1 0 (pos 7) ∷ member 1 1 (negsuc 2) ∷ member 2 4 (pos 5) ∷ []

find-players : team_find_available human false teams (some 2) players ≡ found 2
unfolding team_find_available
find-players = refl

small : (i : ℕ) → ltb_ℤ (team_scores players i) int_max ≡ true
unfolding tally_all ◌+ℤ◌
small i = ground arith

team_find_available_lem_example :
    ((team_find_available human false teams (some 2) players ≡ no_team)
      × (free_bases false teams 1 ≡ 0))
    ⊎ ((m : ℕ) × (team_find_available human false teams (some 2) players ≡ found m)
        × (m < max_teams)
        × (0 < free_bases false teams m)
        × ((has 1 (candidates false teams players)
              && not (is_team (some 2) 1)
              && ltb_ℤ (team_scores players 1) (team_scores players m))
            ≡ false))
team_find_available_lem_example =
    team_find_available_lem false teams (some 2) players 1 1 small (omega arith)

team_find_available-balance_example :
    (tally_all players no_tally).playing 2 ≤ (tally_all players no_tally).playing 1
unfolding team_find_available tally_all free_bases
team_find_available-balance_example =
    team_find_available-balance false teams (some 2) players 2 1 small (omega arith) (omega arith)
      (omega arith) (omega arith) refl

-- Bases 0 to 3 belong to team 1, and 4 to 7 to team 2.
abbrev base_team : ℕ → ℕ
base_team b = if ltb b 4 then 1 else 2

halve_lt : (n : ℕ) → 0 < n → n / 2 < n
halve_lt n h = omega arith

team_pick_free_base_lem_example :
    ((team_pick_free_base (λ n. n / 2) 1 base_team 8 players ≡ none)
      × (((base_team 2 == 1) && not (occupied 2 players)) ≡ false))
    ⊎ ((b : ℕ) × (team_pick_free_base (λ n. n / 2) 1 base_team 8 players ≡ some b)
        × (b < 8)
        × (base_team b ≡ 1)
        × (occupied b players ≡ false))
team_pick_free_base_lem_example =
    team_pick_free_base_lem (λ n. n / 2) 1 base_team 8 players 2 refl halve_lt (omega arith)

team_count_players_unset_example :
    (n : ℕ) × Counted 1 alive players n
    × (team_count_players (negsuc 99) 1 alive players ≡ negsuc 99 +ℤ pos n)
team_count_players_unset_example = team_count_players_unset (negsuc 99) 1 alive players
