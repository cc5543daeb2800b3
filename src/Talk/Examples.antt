-- ===== src/Talk/Examples.antt =====
-- Three players, and the theorems at what they say.
use xpilot_fxi.Prelude.{
  ℕ, zero, suc, ◌<◌, ◌≡◌, ◌≢◌, ◌⊎◌, false, some, List, [], ◌∷◌, arith, refl, true,
}
use xpilot_fxi.Prelude.Int.{pos}
use xpilot_fxi.Strings.Compare.{strcasecmp}
use xpilot_fxi.Talk.Lookup.{Roster, found, digits, int_end, in_int, atoi, player_get_by_name}
use xpilot_fxi.Talk.Messages.{Message, not_sent, is_on, all_digits, handle_talk}
use xpilot_fxi.Talk.Searches.{Found, player_get_by_name_lem}
use xpilot_fxi.Talk.Copies.{AreDistinct}
use xpilot_fxi.Talk.Delivery.{Delivered, handle_talk_lem}

abbrev name_of : ℕ → List ℕ
name_of zero = b'B' ∷ b'o' ∷ []
name_of (suc zero) = b'A' ∷ b'd' ∷ b'a' ∷ []
name_of (suc (suc j)) = b'a' ∷ b'l' ∷ []

abbrev roster : Roster
roster = record {
  players = λ j. record { address = j; name = name_of j; team = some 2 };
  num_players = 3;
  get_ind = λ id. id;
  num_ids = 1023;
}

-- "2:hi" from the first player.
abbrev hi : List ℕ
hi = b'h' ∷ b'i' ∷ []

roster-distinct : AreDistinct roster
roster-distinct i j h l e = e

two-digits : all_digits (b'2' ∷ []) ≡ true
unfolding all_digits
two-digits = refl

two-small : digits 0 (b'2' ∷ []) < int_end
unfolding digits
two-small = omega arith

handle_talk_lem_example :
    (sent : List Message) × (handle_talk roster (roster.players 0) (b'2' ∷ b':' ∷ hi) ≡ some sent)
    × (((sent ≡ not_sent ∷ [])
          × ((j : ℕ) → j < 3 → is_on (roster.players j) (digits 0 (b'2' ∷ [])) ≡ false))
        ⊎ Delivered roster 0 (digits 0 (b'2' ∷ [])) hi sent)
handle_talk_lem_example =
    handle_talk_lem roster 0 (b'2' ∷ []) hi roster-distinct (λ i h. refl) (omega arith) (λ e. cc)
      two-digits two-small refl

-- "bO" is the name of the first player up to case.
abbrev asked : List ℕ
asked = b'b' ∷ b'O' ∷ []

asked_number : (m : ℕ) → atoi asked ≢ pos (suc m)
unfolding atoi
asked_number m e = cc

asked-in_int : in_int (atoi asked) ≡ true
unfolding atoi
asked-in_int = refl

asked_found : player_get_by_name roster asked ≡ found (roster.players 0)
unfolding player_get_by_name strcasecmp
asked_found = refl

player_get_by_name_lem_example : Found roster asked 3 (player_get_by_name roster asked)
player_get_by_name_lem_example =
    player_get_by_name_lem roster asked (λ e. cc) asked-in_int asked_number
