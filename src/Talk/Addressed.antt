-- ===== src/Talk/Addressed.antt =====
-- When a message to a team is sent.
use xpilot_fxi.Prelude.{
  ℕ, zero, suc, ◌+◌, ◌<◌, ◌≡◌, Bool, true, false, none, some, List, [], ◌∷◌, ◌++◌, ◌==◌, ◌||◌, ◌&&◌,
  if◌then◌else◌, arith, refl, ap,
}
use xpilot_fxi.Talk.Lookup.{Roster}
use xpilot_fxi.Talk.Messages.{
  split, all_digits, has_team, all_have_team, is_nil, team_from, with_sender, to_team,
}

-- The players that take part all have a team.
abbrev pub InTeams : Roster → Type 0
InTeams roster = (i : ℕ) → i < roster.num_players → has_team (roster.players i) ≡ true

all_have_team-true :
    (roster : Roster) (i k : ℕ)
    → InTeams roster
    → i + k ≡ roster.num_players
    → all_have_team roster i k ≡ true
unfolding all_have_team
all_have_team-true roster i zero h e = refl
all_have_team-true roster i (suc k) h e =
    rw (h i (omega arith)) (all_have_team-true roster (i + 1) k h (omega arith))

pub to_team-told :
    (roster : Roster) (m team : ℕ) (text : List ℕ)
    → InTeams roster
    → m < roster.num_players
    → to_team roster (roster.players m) team text
      ≡ some (
          with_sender
            (roster.players m)
            team
            text
            (team_from roster team text 0 roster.num_players))
unfolding to_team
to_team-told roster m team text h l =
    let sent = team_from roster team text 0 roster.num_players in
    let all = all_have_team-true roster 0 roster.num_players h (omega arith) in
    ap (λ b. if b then some (with_sender (roster.players m) team text sent) else none)
      (passes all (h m l) (is_nil sent))
  where
    passes : {a b : Bool} → a ≡ true → b ≡ true → (c : Bool) → (a && (c || b)) ≡ true
    passes p q true = rw p refl
    passes p q false = rw (p, q) refl

pub split-digits :
    (front back : List ℕ)
    → all_digits front ≡ true
    → split (front ++ (b':' ∷ back)) ≡ some (front, back)
unfolding split all_digits
split-digits [] back h = refl
split-digits (c ∷ front) back h =
    let first : (c == b':') ≡ false = ground arith in
    let rest : all_digits front ≡ true = ground arith in
    rw (first, split-digits front back rest) refl
