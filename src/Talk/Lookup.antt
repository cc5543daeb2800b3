-- ===== src/Talk/Lookup.antt =====
-- server/command.c: `Player_get_by_name_exact` and `Player_get_by_name`; server/player_inline.h:
-- `Player_by_id`.
use xpilot_fxi.Prelude.{
  ℕ, zero, suc, ◌+◌, ◌-◌, ◌*◌, ◌^◌, Bool, true, false, Option, none, some, List, [], ◌∷◌, ◌==◌,
  ◌&&◌, ◌||◌, leb, ltb, if◌then◌else◌, length,
}
use xpilot_fxi.Prelude.Int.{ℤ, pos, negsuc}
use xpilot_fxi.Strings.Compare.{strcasecmp, strncasecmp}

-- `player_t`, as far as messages need it, with its address. `team` is `none` where the pointer is
-- `NULL`, as it stays outside team play.
pub record Player : Type 0 where
  pub address : ℕ
  pub name : List ℕ
  pub team : Option ℕ

-- The players that take part are the first `num_players` of `Players`, whose further entries are
-- spare; `get_ind` is `GetInd`, with entries for the ids up to `num_ids`.
pub record Roster : Type 0 where
  pub players : ℕ → Player
  pub num_players : ℕ
  pub get_ind : ℕ → ℕ
  pub num_ids : ℕ

abbrev pub is_zero : ℤ → Bool
is_zero (pos zero) = true
is_zero _ = false

abbrev pub is_digit : ℕ → Bool
is_digit c = leb b'0' c && leb c b'9'

abbrev pub is_space : ℕ → Bool
is_space c = (c == 32) || (leb 9 c && leb c 13)

-- The number that `atoi` reads in front of a string. C does not define it past the range of `int`:
-- `in_int` tells the callers.
unfoldable pub digits : ℕ → List ℕ → ℕ
digits n [] = n
digits n (c ∷ s) = let rest = digits (n * 10 + (c - b'0')) s in if is_digit c then rest else n

abbrev pub minus : ℕ → ℤ
minus zero = pos 0
minus (suc n) = negsuc n

unfoldable pub atoi : List ℕ → ℤ
unfolding digits
atoi [] = pos 0
atoi (c ∷ s) =
    let rest = atoi s in
    if is_space c
    then rest
    else if c == b'-'
    then minus (digits 0 s)
    else if c == b'+'
    then pos (digits 0 s)
    else pos (digits 0 (c ∷ s))

abbrev pub int_end : ℕ
int_end = 2 ^ 31

abbrev pub in_int : ℤ → Bool
in_int (pos n) = ltb n int_end
in_int (negsuc n) = ltb n int_end

-- What the search answers. `undefined` is an access past the end of `GetInd`, or an overflow in
-- `atoi`.
pub data Answer : Type 0 where
  found : Player → Answer
  match_none match_several undefined : Answer

-- `Player_by_id`
unfoldable pub player_by_id : Roster → ℕ → Answer
player_by_id roster id =
    if ltb roster.num_ids id then undefined else found (roster.players (roster.get_ind id))

-- `Player_get_by_name_exact` from index `i` on, with `k` players left.
unfoldable pub exact_from : Roster → List ℕ → ℕ → ℕ → Option Player
exact_from roster str i zero = none
exact_from roster str i (suc k) =
    let rest = exact_from roster str (i + 1) k in
    if is_zero (strcasecmp (roster.players i).name str) then some (roster.players i) else rest

unfoldable pub player_get_by_name_exact : Roster → List ℕ → Option Player
unfolding exact_from
player_get_by_name_exact roster str = exact_from roster str 0 roster.num_players

-- Both of the other loops look for the only player that `f` holds for; the `Option` is `found_pl`.
unfoldable pub only_from : Roster → (List ℕ → Bool) → Option Player → ℕ → ℕ → Answer
only_from roster f none i zero = match_none
only_from roster f (some pl) i zero = found pl
only_from roster f none i (suc k) =
    let here = only_from roster f (some (roster.players i)) (i + 1) k in
    let rest = only_from roster f none (i + 1) k in if f (roster.players i).name then here else rest
only_from roster f (some pl) i (suc k) =
    let rest = only_from roster f (some pl) (i + 1) k in
    if f (roster.players i).name then match_several else rest

abbrev pub starts_with : List ℕ → List ℕ → Bool
starts_with str name = is_zero (strncasecmp name str (length str))

-- The loop over `j`, with the rounds left.
unfoldable pub occurs_from : List ℕ → ℕ → List ℕ → Bool
occurs_from str zero name = false
occurs_from str (suc rounds) [] = starts_with str []
occurs_from str (suc rounds) (c ∷ name) =
    let rest = occurs_from str rounds name in if starts_with str (c ∷ name) then true else rest

unfoldable pub occurs_in : List ℕ → List ℕ → Bool
unfolding occurs_from
occurs_in str name = occurs_from str (1 + length name - length str) name

abbrev pub or_else : Answer → Answer → Answer
or_else match_none other = other
or_else answer other = answer

unfoldable pub by_text : Roster → List ℕ → Answer
unfolding player_get_by_name_exact only_from occurs_in
by_text roster str = elim (player_get_by_name_exact roster str) [
  | some pl ↦ found pl
  | none ↦
      or_else (only_from roster (starts_with str) none 0 roster.num_players)
        (only_from roster (occurs_in str) none 0 roster.num_players)
]

-- `Player_get_by_name`, for a string that is there.
unfoldable pub player_get_by_name : Roster → List ℕ → Answer
unfolding player_by_id by_text atoi
player_get_by_name roster [] = match_none
player_get_by_name roster (c ∷ str) =
    if in_int (atoi (c ∷ str))
    then elim (atoi (c ∷ str)) [
      | pos (suc n) ↦ player_by_id roster (suc n)
      | _ ↦ by_text roster (c ∷ str)
    ]
    else undefined
