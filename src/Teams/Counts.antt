-- ===== src/Teams/Counts.antt =====
-- `Team_count_players`.
use xpilot_fxi.Prelude.{
  ℕ, suc, ◌≡◌, inl, inr, List, [], ◌∷◌, arith, refl, sym, ap, ◌∙◌, ◌==◌, ◌&&◌, Bool-cases,
  if◌then◌else◌,
}
use xpilot_fxi.Prelude.Int.{ℤ, pos, ◌+ℤ◌, int_laws}
use xpilot_fxi.Teams.Players.{
  Player, PlayerState, undefined, waiting, appearing, alive, killed, dead, paused, state_bit,
  team_count_players,
}

-- The player is on the team and in the state.
abbrev pub Belongs : ℕ → PlayerState → Player → Type 0
Belongs team state pl = (pl.team ≡ team) × (pl.state ≡ state)

-- Just `n` of the players belong.
pub data Counted (team : ℕ) (state : PlayerState) : List Player → ℕ → Type 0 where
  nobody : Counted team state [] 0
  one_more :
      (pl : Player) (players : List Player) (n : ℕ)
      → Belongs team state pl
      → Counted team state players n
      → Counted team state (pl ∷ players) (suc n)
  no_more :
      (pl : Player) (players : List Player) (n : ℕ)
      → ¬ Belongs team state pl
      → Counted team state players n
      → Counted team state (pl ∷ players) n

-- The state of which this is the bit.
state_of : ℕ → PlayerState
state_of b =
    if b == 1
    then undefined
    else if b == 2
    then waiting
    else if b == 4
    then appearing
    else if b == 8
    then alive
    else if b == 16
    then killed
    else if b == 32
    then dead
    else paused

state_of-state_bit : (s : PlayerState) → state_of (state_bit s) ≡ s
unfolding state_of
state_of-state_bit undefined = refl
state_of-state_bit waiting = refl
state_of-state_bit appearing = refl
state_of-state_bit alive = refl
state_of-state_bit killed = refl
state_of-state_bit dead = refl
state_of-state_bit paused = refl

state_bit-inj : (s t : PlayerState) → state_bit s ≡ state_bit t → s ≡ t
state_bit-inj s t e = sym (state_of-state_bit s) ∙ ap state_of e ∙ state_of-state_bit t

onward : (a : ℤ) (n : ℕ) → a +ℤ pos 1 +ℤ pos n ≡ a +ℤ pos (suc n)
unfolding ◌+ℤ◌
onward a n = ground arith

-- `Team_count_players` answers the number of the players who are on the team and in the state, on
-- top of `unset`, what its variable `count` happens to hold, as it is never set.
pub team_count_players_unset :
    (unset : ℤ) (team : ℕ) (state : PlayerState) (players : List Player)
    → (n : ℕ) × Counted team state players n
      × (team_count_players unset team state players ≡ unset +ℤ pos n)
unfolding team_count_players
team_count_players_unset unset team state [] = (0, nobody, grind int_laws)
team_count_players_unset unset team state (pl ∷ players) =
    elim (Bool-cases ((pl.team == team) && (state_bit pl.state == state_bit state))) [
      | inl e ↦
          let (n, counted, run) = team_count_players_unset (unset +ℤ pos 1) team state players in
          let belongs : Belongs team state pl =
            (ground (arith, e), state_bit-inj pl.state state (ground (arith, e))) in
          (
            suc n,
            one_more pl players n belongs counted,
            simp (team_count_players, e) (run ∙ onward unset n),
          )
      | inr e ↦
          let (n, counted, run) = team_count_players_unset unset team state players in
          let other : ¬ Belongs team state pl =
            λ (t, s). absurd (ground (arith, e, t, ap state_bit s)) in
          (n, no_more pl players n other counted, simp (team_count_players, e) run)
    ]
