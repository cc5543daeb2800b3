-- ===== src/Talk/Messages.antt =====
-- server/netserver.c: `Handle_talk`.
use xpilot_fxi.Prelude.{
  ℕ, zero, suc, ◌+◌, Bool, true, false, Option, none, some, List, [], ◌∷◌, ◌++◌, ◌==◌, ◌||◌, ◌&&◌,
  ltb, if◌then◌else◌,
}
use xpilot_fxi.Talk.Lookup.{
  Player, Roster, Answer, found, undefined, player_get_by_name, digits, is_digit, int_end,
}

-- What the code calls: `Message_game_print` to all, or `Message_player_print` to one player, with a
-- text, or with the reply that nothing was sent.
pub data Message : Type 0 where
  to_all : (text : List ℕ) → Message
  to_player : (receiver : Player) → (text : List ℕ) → Message
  not_sent : Message

-- The text before the first colon and the text behind it, if there is one.
unfoldable pub split : List ℕ → Option (List ℕ × List ℕ)
split [] = none
split (c ∷ str) =
    let rest = split str in
    if c == b':'
    then some ([], str)
    else elim rest [ none ↦ none | some (front, back) ↦ some (c ∷ front, back) ]

abbrev pub member : ℕ → List ℕ → Bool
member a [] = false
member a (b ∷ bs) = (a == b) || member a bs

-- `strchr` also finds the NUL at the end of the list of mouths.
abbrev pub is_smiley : List ℕ → Bool
is_smiley [] = true
is_smiley (c ∷ rest) =
    member c (b'-' ∷ b'_' ∷ b'~' ∷ b')' ∷ b'(' ∷ b'/' ∷ 92 ∷ b'}' ∷ b'{' ∷ b'[' ∷ b']' ∷ [])

-- `strspn(str, "0123456789") == len`
unfoldable pub all_digits : List ℕ → Bool
all_digits [] = true
all_digits (c ∷ str) = is_digit c && all_digits str

abbrev pub is_on : Player → ℕ → Bool
is_on pl team = elim pl.team [ none ↦ false | some t ↦ t == team ]

-- The members of a team from index `i` on, with `k` players left.
unfoldable pub team_from : Roster → ℕ → List ℕ → ℕ → ℕ → List Message
team_from roster team text i zero = []
team_from roster team text i (suc k) =
    let rest = team_from roster team text (i + 1) k in
    if is_on (roster.players i) team then to_player (roster.players i) text ∷ rest else rest

-- Without a team there is no `Num` to compare: the loop follows a null pointer.
abbrev pub has_team : Player → Bool
has_team pl = elim pl.team [ none ↦ false | some t ↦ true ]

unfoldable pub all_have_team : Roster → ℕ → ℕ → Bool
all_have_team roster i zero = true
all_have_team roster i (suc k) = has_team (roster.players i) && all_have_team roster (i + 1) k

abbrev pub with_sender : Player → ℕ → List ℕ → List Message → List Message
with_sender pl team text [] = not_sent ∷ []
with_sender pl team text (m ∷ sent) =
    if is_on pl team then m ∷ sent else m ∷ sent ++ (to_player pl text ∷ [])

abbrev pub is_nil : List Message → Bool
is_nil [] = true
is_nil (m ∷ sent) = false

-- Here and below, `none` is undefined behaviour.
unfoldable pub to_team : Roster → Player → ℕ → List ℕ → Option (List Message)
unfolding team_from all_have_team
to_team roster pl team text =
    let sent = team_from roster team text 0 roster.num_players in
    if all_have_team roster 0 roster.num_players && (is_nil sent || has_team pl)
    then some (with_sender pl team text sent)
    else none

unfoldable pub private : Player → Answer → List ℕ → Option (List Message)
private pl undefined text = none
private pl (found other) text =
    if other.address == pl.address
    then some []
    else some (to_player other text ∷ to_player pl text ∷ [])
private pl _ text = some (not_sent ∷ [])

unfoldable pub addressed : Roster → Player → List ℕ → List ℕ → Option (List Message)
unfolding to_team private player_get_by_name digits all_digits
addressed roster pl front back =
    if all_digits front
    then if ltb (digits 0 front) int_end then to_team roster pl (digits 0 front) back else none
    else private pl (player_get_by_name roster front) back

unfoldable pub after_split :
    Roster → Player → List ℕ → Option (List ℕ × List ℕ) → Option (List Message)
unfolding addressed
after_split roster pl str none = some (to_all str ∷ [])
after_split roster pl str (some ([], back)) = some (to_all str ∷ [])
after_split roster pl str (some (c ∷ front, back)) =
    if is_smiley back then some (to_all str ∷ []) else addressed roster pl (c ∷ front) back

-- `Handle_talk`
unfoldable pub handle_talk : Roster → Player → List ℕ → Option (List Message)
unfolding split after_split
handle_talk roster pl str = after_split roster pl str (split str)
