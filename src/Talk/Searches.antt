-- ===== src/Talk/Searches.antt =====
-- What the search for a player by a name finds.
use xpilot_fxi.Prelude.{
  ℕ, zero, suc, ◌+◌, ◌<◌, ◌≡◌, Bool, true, false, Option, none, some, List, [], ◌∷◌, if◌then◌else◌,
  arith, refl, Bool-cases, ◌==◌, ◌≢◌, sym, inl, inr, ◌⊎◌,
}
use mathlib.Core.Path.{subst}
use xpilot_fxi.Prelude.Int.{ℤ, pos, negsuc}
use xpilot_fxi.Strings.Compare.{strcasecmp}
use xpilot_fxi.Talk.Lookup.{
  Player, Roster, Answer, found, match_none, match_several, undefined, is_zero, player_by_id,
  exact_from, player_get_by_name_exact, only_from, starts_with, occurs_in, or_else, by_text, atoi,
  in_int, player_get_by_name,
}

-- The answer of a search for the only one of the first `n` players with a name of which `f` holds.
abbrev pub Only : Roster → (List ℕ → Bool) → ℕ → Answer → Type 0
Only roster f n (found pl) =
    (i : ℕ) × (i < n)
    × (roster.players i ≡ pl)
    × (f pl.name ≡ true)
    × ((j : ℕ) → j < n → f (roster.players j).name ≡ true → j ≡ i)
Only roster f n match_none = (j : ℕ) → j < n → f (roster.players j).name ≡ false
Only roster f n match_several =
    (i j : ℕ) × (i < j)
    × (j < n)
    × (f (roster.players i).name ≡ true)
    × (f (roster.players j).name ≡ true)
Only roster f n undefined = ⊥

module _ (roster : Roster) (f : List ℕ → Bool) (n : ℕ) where
  if-Only :
      (b : Bool) (x y : Answer)
      → (b ≡ true → Only roster f n x)
      → (b ≡ false → Only roster f n y)
      → Only roster f n (if b then x else y)
  if-Only true x y p q = p refl
  if-Only false x y p q = q refl

  -- One was found before `i`.
  only_from-some :
      (m i k : ℕ)
      → i + k ≡ n
      → m < i
      → f (roster.players m).name ≡ true
      → ((j : ℕ) → j < i → f (roster.players j).name ≡ true → j ≡ m)
      → Only roster f n (only_from roster f (some (roster.players m)) i k)
  unfolding only_from
  only_from-some m i zero e lt holds one =
      (m, omega arith, refl, holds, λ j h g. one j (omega arith) g)
  only_from-some m i (suc k) e lt holds one =
      if-Only (f (roster.players i).name) match_several
        (only_from roster f (some (roster.players m)) (i + 1) k)
        (λ g. (m, i, lt, omega arith, holds, g))
        (λ g. only_from-some m (i + 1) k (omega arith) (omega arith) holds (λ j h g'.
          elim (Bool-cases (j == i)) [
            | inl s ↦ absurd (ground (arith, s, g, g'))
            | inr s ↦ one j (ground arith) g'
          ]))

  -- None was found before `i`.
  only_from-none :
      (i k : ℕ)
      → i + k ≡ n
      → ((j : ℕ) → j < i → f (roster.players j).name ≡ false)
      → Only roster f n (only_from roster f none i k)
  unfolding only_from
  only_from-none i zero e none_yet = λ j h. none_yet j (omega arith)
  only_from-none i (suc k) e none_yet =
      if-Only (f (roster.players i).name) (only_from roster f (some (roster.players i)) (i + 1) k)
        (only_from roster f none (i + 1) k)
        (λ g. only_from-some i (i + 1) k (omega arith) (omega arith) g (λ j h g'.
          elim (Bool-cases (j == i)) [
            | inl s ↦ ground arith
            | inr s ↦ absurd (ground (arith, none_yet j (ground arith), g'))
          ]))
        (λ g. only_from-none (i + 1) k (omega arith) (λ j h. elim (Bool-cases (j == i)) [
          | inl s ↦ ground (arith, g)
          | inr s ↦ none_yet j (ground arith)
        ]))

abbrev pub same_name : List ℕ → Player → Bool
same_name str pl = is_zero (strcasecmp pl.name str)

-- The first of the players with that name up to case.
abbrev pub First : Roster → List ℕ → ℕ → Option Player → Type 0
First roster str n (some pl) =
    (i : ℕ) × (i < n)
    × (roster.players i ≡ pl)
    × (same_name str pl ≡ true)
    × ((j : ℕ) → j < i → same_name str (roster.players j) ≡ false)
First roster str n none = (j : ℕ) → j < n → same_name str (roster.players j) ≡ false

module _ (roster : Roster) (str : List ℕ) (n : ℕ) where
  if-First :
      (b : Bool) (x y : Option Player)
      → (b ≡ true → First roster str n x)
      → (b ≡ false → First roster str n y)
      → First roster str n (if b then x else y)
  if-First true x y p q = p refl
  if-First false x y p q = q refl

  exact_from-First :
      (i k : ℕ)
      → i + k ≡ n
      → ((j : ℕ) → j < i → same_name str (roster.players j) ≡ false)
      → First roster str n (exact_from roster str i k)
  unfolding exact_from
  exact_from-First i zero e none_yet = λ j h. none_yet j (omega arith)
  exact_from-First i (suc k) e none_yet =
      if-First (same_name str (roster.players i)) (some (roster.players i))
        (exact_from roster str (i + 1) k) (λ g. (i, omega arith, refl, g, none_yet))
        (λ g. exact_from-First (i + 1) k (omega arith) (λ j h. elim (Bool-cases (j == i)) [
          | inl s ↦ ground (arith, g)
          | inr s ↦ none_yet j (ground arith)
        ]))

-- What the search by a text answers, among the first `n` players.
abbrev pub Found : Roster → List ℕ → ℕ → Answer → Type 0
Found roster str n answer =
    ((pl : Player) × (answer ≡ found pl) × First roster str n (some pl))
    ⊎ (First roster str n none
        × ((answer ≢ match_none) × Only roster (starts_with str) n answer
            ⊎ (Only roster (starts_with str) n match_none × Only roster (occurs_in str) n answer)))

or_else-Found :
    (roster : Roster) (str : List ℕ) (n : ℕ) (a b : Answer)
    → First roster str n none
    → Only roster (starts_with str) n a
    → Only roster (occurs_in str) n b
    → Found roster str n (or_else a b)
or_else-Found roster str n (found pl) b h p q = inr (h, inl ((λ e. cc), p))
or_else-Found roster str n match_none b h p q = inr (h, inr (p, q))
or_else-Found roster str n match_several b h p q = inr (h, inl ((λ e. cc), p))
or_else-Found roster str n undefined b h p q = absurd p

by_text-Found :
    (roster : Roster) (str : List ℕ) → Found roster str roster.num_players (by_text roster str)
unfolding by_text player_get_by_name_exact
by_text-Found roster str =
    go (exact_from roster str 0 n)
      (exact_from-First roster str n 0 n (omega arith) (λ j h. absurd (omega arith)))
  where
    n : ℕ
    n = roster.num_players

    prefixes : Answer
    prefixes = only_from roster (starts_with str) none 0 n

    parts : Answer
    parts = only_from roster (occurs_in str) none 0 n

    go :
        (x : Option Player)
        → First roster str n x
        → Found roster str n (elim x [ some pl ↦ found pl | none ↦ or_else prefixes parts ])
    go (some pl) h = inl (pl, refl, h)
    go none h =
        or_else-Found roster str n prefixes parts h
          (only_from-none roster (starts_with str) n 0 n (omega arith)
            (λ j l. absurd (omega arith)))
          (only_from-none roster (occurs_in str) n 0 n (omega arith) (λ j l. absurd (omega arith)))

-- For a string that is not empty, in front of which `atoi` reads a number in the range of `int` that
-- is not positive, `Player_get_by_name`
-- answers the first player with that name up to case. Where there is none, it answers the only player
-- whose name begins with the string, or that several do; and where there is none of those, the only
-- player whose name has the string in it, that several do, or that none does.
pub player_get_by_name_lem :
    (roster : Roster) (str : List ℕ)
    → str ≢ []
    → in_int (atoi str) ≡ true
    → ((m : ℕ) → atoi str ≢ pos (suc m))
    → Found roster str roster.num_players (player_get_by_name roster str)
unfolding player_get_by_name
player_get_by_name_lem roster [] h i p = absurd (h refl)
player_get_by_name_lem roster (c ∷ str) h i p =
    subst
      (λ b. Found roster (c ∷ str) roster.num_players (
        if b
        then elim (atoi (c ∷ str)) [
          | pos (suc m) ↦ player_by_id roster (suc m)
          | _ ↦ by_text roster (c ∷ str)
        ]
        else undefined))
      (sym i) (go (atoi (c ∷ str)) p)
  where
    go :
        (x : ℤ)
        → ((m : ℕ) → x ≢ pos (suc m))
        → Found roster
            (c ∷ str)
            roster.num_players
            (elim x [ pos (suc m) ↦ player_by_id roster (suc m) | _ ↦ by_text roster (c ∷ str) ])
    go (pos zero) p = by_text-Found roster (c ∷ str)
    go (pos (suc m)) p = absurd (p m refl)
    go (negsuc m) p = by_text-Found roster (c ∷ str)
