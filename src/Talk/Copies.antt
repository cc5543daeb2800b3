-- ===== src/Talk/Copies.antt =====
-- The messages that a player gets.
use xpilot_fxi.Prelude.{ℕ, ◌+◌, ◌<◌, ◌≡◌, Bool, List, [], ◌∷◌, ◌++◌, ◌==◌, if◌then◌else◌, arith}
use xpilot_fxi.Talk.Lookup.{Roster}
use xpilot_fxi.Talk.Messages.{Message, to_all, to_player, not_sent}

abbrev pub one : Bool → ℕ
one b = if b then 1 else 0

-- How many messages go to the player with this address alone.
abbrev pub copies : ℕ → List Message → ℕ
copies a [] = 0
copies a (to_player pl text ∷ rest) = one (pl.address == a) + copies a rest
copies a (to_all text ∷ rest) = copies a rest
copies a (not_sent ∷ rest) = copies a rest

pub copies-append : (a : ℕ) (xs ys : List Message) → copies a (xs ++ ys) ≡ copies a xs + copies a ys
copies-append a [] ys = omega arith
copies-append a (to_player pl text ∷ xs) ys = omega (arith, copies-append a xs ys)
copies-append a (to_all text ∷ xs) ys = copies-append a xs ys
copies-append a (not_sent ∷ xs) ys = copies-append a xs ys

-- The players that take part are different ones.
abbrev pub AreDistinct : Roster → Type 0
AreDistinct roster =
    (i j : ℕ)
    → i < roster.num_players
    → j < roster.num_players
    → (roster.players i).address ≡ (roster.players j).address
    → i ≡ j

-- They all are messages to a player, with that text.
abbrev pub Says : List ℕ → List Message → Type 0
Says text [] = Unit
Says text (to_player pl said ∷ rest) = (said ≡ text) × Says text rest
Says text (to_all said ∷ rest) = ⊥
Says text (not_sent ∷ rest) = ⊥

pub Says-append :
    (text : List ℕ) (xs ys : List Message) → Says text xs → Says text ys → Says text (xs ++ ys)
Says-append text [] ys p q = q
Says-append text (to_player pl said ∷ xs) ys p q = (p.0, Says-append text xs ys p.1 q)
Says-append text (to_all said ∷ xs) ys p q = absurd p
Says-append text (not_sent ∷ xs) ys p q = absurd p
