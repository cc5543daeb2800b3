-- ===== src/Scores/Punishment.antt =====
-- `Punish_team`.
use xpilot_fxi.Prelude.{
  ℕ, suc, ◌+◌, ◌*◌, ◌%◌, ◌<◌, ◌≡◌, List, [], ◌∷◌, arith, ◌==◌, ◌&&◌, if◌then◌else◌, sym, ap, ◌∙◌,
}
use native.Mathlib.Nat.{mod-add-div, mod-lt, suc-mul, add-mul, mul_comm, mul_assoc}
use xpilot_fxi.Prelude.Int.{ℤ, pos, ◌+ℤ◌, pos_part, neg_part, eq_of_parts, +ℤ_parts, -ℤ_parts}
use xpilot_fxi.Teams.Players.{Player}
use xpilot_fxi.Scores.{
  is_loser, is_winner, team_members, settle_score, settle_scores, fine, portion, Game, punish_team,
}

-- The sum of the scores of all players.
pub total : List Player → ℤ
total [] = pos 0
total (pl ∷ players) = pl.score +ℤ total players

module _ (loser winner actor : ℕ) where
  -- How often the player with index `actor` is a winner, counting indices from `i`.
  abbrev pub wins : ℕ → List Player → ℕ
  wins i [] = 0
  wins i (pl ∷ players) =
      if (i == actor) && is_winner loser winner pl
      then suc (wins (i + 1) players)
      else wins (i + 1) players

  module _ (sc por : ℕ) where
    -- The points taken, and the points given.
    taken : List Player → ℕ
    taken players = team_members (is_loser loser) players * sc

    given : ℕ → List Player → ℕ
    given i players =
        team_members (is_winner loser winner) players * (2 * por) + wins i players * por

    one-parts :
        (i : ℕ) (pl : Player)
        → pos_part (settle_score loser winner actor sc por i pl).score
            + neg_part pl.score
            + (if is_loser loser pl then sc else 0)
          ≡ neg_part (settle_score loser winner actor sc por i pl).score
            + pos_part pl.score
            + ((if is_winner loser winner pl then 2 * por else 0)
                + (if (i == actor) && is_winner loser winner pl then por else 0))
    unfolding settle_score
    one-parts i pl = ground (
      arith,
      +ℤ_parts pl.score (pos (3 * por)),
      +ℤ_parts pl.score (pos (2 * por)),
      -ℤ_parts pl.score (pos sc),
    )

    settle_scores-parts :
        (i : ℕ) (players : List Player)
        → pos_part (total (settle_scores loser winner actor sc por i players))
            + neg_part (total players)
            + taken players
          ≡ neg_part (total (settle_scores loser winner actor sc por i players))
            + pos_part (total players)
            + given i players
    unfolding settle_scores total taken given team_members
    settle_scores-parts i [] = omega arith
    settle_scores-parts i (pl ∷ players) =
        let rest = settle_scores-parts (i + 1) players in
        let here = one-parts i pl in
        let now = settle_score loser winner actor sc por i pl in
        let others = settle_scores loser winner actor sc por (i + 1) players in
        ground (
          arith,
          rest,
          here,
          +ℤ_parts now.score (total others),
          +ℤ_parts pl.score (total players),
          suc-mul (team_members (is_loser loser) players) sc,
          suc-mul (team_members (is_winner loser winner) players) (2 * por),
          suc-mul (wins (i + 1) players) por,
        )

shares : (w p : ℕ) → (2 * w + 1) * p ≡ w * (2 * p) + 1 * p
shares w p =
    let swap : w * (2 * p) ≡ 2 * w * p = sym (mul_assoc w 2 p) ∙ ap (λ k. k * p) (mul_comm w 2) in
    add-mul (2 * w) 1 p ∙ ap (λ k. k + 1 * p) (sym swap)

-- When the player who destroyed the treasure takes part on the winning team, the points that
-- `Punish_team` takes from the losing team are those that it gives to the winning team, but for a
-- rest smaller than twice the number of winners and one.
pub punish_team_lem :
    (treasure_team : ℕ → ℕ) (lost won actor : ℕ) (g : Game)
    → wins (treasure_team lost) (treasure_team won) actor 0 g.players ≡ 1
    → (rest : ℕ) × (rest
        < 2 * team_members (is_winner (treasure_team lost) (treasure_team won)) g.players + 1)
      × (total g.players ≡ total (punish_team treasure_team lost won actor g).players +ℤ pos rest)
unfolding punish_team portion taken given
punish_team_lem treasure_team lost won actor g one =
    let loser = treasure_team lost in
    let winner = treasure_team won in
    let sc = fine loser winner g.players in
    let por = portion loser winner g.players in
    let losers = team_members (is_loser loser) g.players in
    let winners = team_members (is_winner loser winner) g.players in
    let rest = sc * losers % (2 * winners + 1) in
    let after = (punish_team treasure_team lost won actor g).players in
    let split : rest + (2 * winners + 1) * por ≡ sc * losers =
      mod-add-div (sc * losers) (2 * winners + 1) in
    let parts = settle_scores-parts loser winner actor sc por 0 g.players in
    let once = ap (λ k. k * por) one in
    (
      rest,
      mod-lt (sc * losers) (omega arith),
      eq_of_parts (total g.players) (total after +ℤ pos rest) (
          omega (
            arith,
            parts,
            split,
            shares winners por,
            once,
            mul_comm losers sc,
            +ℤ_parts (total after) (pos rest),
          )),
    )
