-- ===== src/Talk/Delivery.antt =====
-- Who gets a message to a team.
use xpilot_fxi.Prelude.{
  ℕ, zero, suc, ◌+◌, ◌<◌, ◌≡◌, ◌≢◌, ◌⊎◌, inl, inr, Bool, true, false, some, List, [], ◌∷◌, ◌++◌,
  ◌==◌, ◌||◌, ◌&&◌, leb, ltb, if◌then◌else◌, arith, refl, ap, ◌∙◌, Bool-cases, ==_iff, sym,
}
use xpilot_fxi.Talk.Lookup.{Player, Roster, digits, int_end}
use xpilot_fxi.Talk.Messages.{
  Message, to_player, not_sent, is_smiley, all_digits, is_on, team_from, with_sender, addressed,
  after_split, handle_talk,
}
use xpilot_fxi.Talk.Copies.{one, copies, copies-append, AreDistinct, Says, Says-append}
use xpilot_fxi.Talk.Addressed.{InTeams, to_team-told, split-digits}

-- The messages that the sender `m` sends to a team: there is a member, and each member gets one with
-- the text, as does the sender, and nobody else.
pub record Delivered (roster : Roster) (m team : ℕ) (text : List ℕ) (sent : List Message)
    : Type 0 where
  pub member : ℕ
  pub takes_part : member < roster.num_players
  pub on_team : is_on (roster.players member) team ≡ true
  pub once :
      (p : ℕ)
      → p < roster.num_players
      → copies (roster.players p).address sent ≡ one (is_on (roster.players p) team || (m == p))
  pub says : Says text sent

module _ (roster : Roster) (distinct : AreDistinct roster) (team : ℕ) (text : List ℕ) where
  same_address :
      (i p : ℕ)
      → i < roster.num_players
      → p < roster.num_players
      → ((roster.players i).address == (roster.players p).address) ≡ (i == p)
  same_address i p h l = elim (Bool-cases (i == p)) [
    | inl e ↦
        let same : i ≡ p = (==_iff i p).0 e in
        (==_iff _ _).1 (ap (λ k. (roster.players k).address) same) ∙ sym e
    | inr e ↦ elim (Bool-cases ((roster.players i).address == (roster.players p).address)) [
      | inl e' ↦ absurd (ground (arith, e, distinct i p h l ((==_iff _ _).0 e')))
      | inr e' ↦ e' ∙ sym e
    ]
  ]

  abbrev is_member : ℕ → Bool
  is_member p = is_on (roster.players p) team

  copies-if :
      (b : Bool) (a : ℕ) (pl : Player) (rest : List Message)
      → copies a (if b then to_player pl text ∷ rest else rest)
        ≡ one (b && (pl.address == a)) + copies a rest
  copies-if true a pl rest = refl
  copies-if false a pl rest = omega arith

  team_from-copies :
      (p i k : ℕ)
      → p < roster.num_players
      → i + k ≡ roster.num_players
      → copies (roster.players p).address (team_from roster team text i k)
        ≡ one (leb i p && is_member p)
  unfolding team_from
  team_from-copies p i zero l e = let after : leb i p ≡ false = ground arith in rw after refl
  team_from-copies p i (suc k) l e =
      let rest = team_from-copies p (i + 1) k l (omega arith) in
      let here =
        copies-if (is_member i) (roster.players p).address (roster.players i)
          (team_from roster team text (i + 1) k) in
      let at = same_address i p (omega arith) l in
      elim (Bool-cases (i == p)) [
        | inl s ↦
            let same : is_member i ≡ is_member p = ap is_member ((==_iff i p).0 s) in
            let now : leb i p ≡ true = ground arith in
            let later : leb (i + 1) p ≡ false = ground arith in
            here ∙ rw (at, s, now, same) ground (arith, rest, later)
        | inr s ↦
            let later : leb (i + 1) p ≡ leb i p = ground arith in
            here ∙ rw (at, s) ground (arith, rest, later)
      ]

  -- The messages to the members, from index `i` on.
  Members : ℕ → List Message → Type 0
  Members i [] = (j : ℕ) → i < suc j → j < roster.num_players → is_member j ≡ false
  Members i (m ∷ sent) = (j : ℕ) × (j < roster.num_players) × (is_member j ≡ true)

  if-Members :
      (i : ℕ) (b : Bool) (xs ys : List Message)
      → (b ≡ true → Members i xs)
      → (b ≡ false → Members i ys)
      → Members i (if b then xs else ys)
  if-Members i true xs ys p q = p refl
  if-Members i false xs ys p q = q refl

  Members-earlier :
      (i : ℕ) (sent : List Message) → is_member i ≡ false → Members (i + 1) sent → Members i sent
  unfolding Members
  Members-earlier i [] e h = λ j l l'. elim (Bool-cases (j == i)) [
    | inl s ↦ ap is_member ((==_iff j i).0 s) ∙ e
    | inr s ↦ h j (ground arith) l'
  ]
  Members-earlier i (m ∷ sent) e h = h

  team_from-Members :
      (i k : ℕ) → i + k ≡ roster.num_players → Members i (team_from roster team text i k)
  unfolding team_from Members
  team_from-Members i zero e = λ j l l'. absurd (omega arith)
  team_from-Members i (suc k) e =
      let rest = team_from roster team text (i + 1) k in
      if-Members i (is_member i) (to_player (roster.players i) text ∷ rest) rest
        (λ h. (i, omega arith, h))
        (λ h. Members-earlier i rest h (team_from-Members (i + 1) k (omega arith)))

  with_sender-copies :
      (m p : ℕ) (sent : List Message)
      → m < roster.num_players
      → p < roster.num_players
      → sent ≢ []
      → copies (roster.players p).address sent ≡ one (is_member p)
      → copies (roster.players p).address (with_sender (roster.players m) team text sent)
        ≡ one (is_member p || (m == p))
  with_sender-copies m p [] l l' h e = absurd (h refl)
  with_sender-copies m p (x ∷ sent) l l' h e =
      let a = (roster.players p).address in
      let last = to_player (roster.players m) text ∷ [] in
      let at = same_address m p l l' in
      elim (Bool-cases (m == p)) [
        | inl s ↦
            let same : is_member m ≡ is_member p = ap is_member ((==_iff m p).0 s) in
            elim (Bool-cases (is_member p)) [
              | inl b ↦ rw (same, b) (e ∙ rw b refl)
              | inr b ↦
                  rw (same, b, s) (copies-append a (x ∷ sent) last ∙ rw (e, at, s, b) (omega arith))
            ]
        | inr s ↦ elim (Bool-cases (is_member m)) [
          | inl b ↦ rw (b, s) (e ∙ ground arith)
          | inr b ↦ rw (b, s) (copies-append a (x ∷ sent) last ∙ rw (e, at, s) (ground arith))
        ]
      ]

  -- Nobody is on the team, and the sender is told so, or the messages are delivered.
  abbrev pub Outcome : ℕ → List Message → Type 0
  Outcome m sent =
      ((sent ≡ not_sent ∷ [])
        × ((j : ℕ) → j < roster.num_players → is_on (roster.players j) team ≡ false))
      ⊎ Delivered roster m team text sent

  if-Says :
      (b : Bool) (xs ys : List Message)
      → Says text xs
      → Says text ys
      → Says text (if b then xs else ys)
  if-Says true xs ys p q = p
  if-Says false xs ys p q = q

  with_sender-Outcome :
      (m : ℕ) (sent : List Message)
      → m < roster.num_players
      → Members 0 sent
      → ((p : ℕ)
          → p < roster.num_players
          → copies (roster.players p).address sent ≡ one (is_member p))
      → Says text sent
      → Outcome m (with_sender (roster.players m) team text sent)
  unfolding Members
  with_sender-Outcome m [] l h c said = inl (refl, λ j l'. h j (omega arith) l')
  with_sender-Outcome m (x ∷ sent) l (j, l', on) c said = inr (record {
    member = j;
    takes_part = l';
    on_team = on;
    once = λ p lp. with_sender-copies m p (x ∷ sent) l lp (λ e. cc) (c p lp);
    says =
        if-Says (is_member m) (x ∷ sent) (x ∷ sent ++ (to_player (roster.players m) text ∷ [])) said
          (Says-append text (x ∷ sent) (to_player (roster.players m) text ∷ []) said (refl, tt));
  })

  team_from-Says : (i k : ℕ) → Says text (team_from roster team text i k)
  unfolding team_from
  team_from-Says i zero = tt
  team_from-Says i (suc k) =
      let rest = team_from-Says (i + 1) k in
      if-Says (is_member i)
        (to_player (roster.players i) text ∷ team_from roster team text (i + 1) k)
        (team_from roster team text (i + 1) k) (refl, rest) rest

  abbrev told : ℕ → List Message
  told m =
      with_sender (roster.players m) team text (team_from roster team text 0 roster.num_players)

  pub told-Outcome : (m : ℕ) → m < roster.num_players → Outcome m (told m)
  told-Outcome m l =
      with_sender-Outcome m (team_from roster team text 0 roster.num_players) l
        (team_from-Members 0 roster.num_players (omega arith))
        (λ p lp. team_from-copies p 0 roster.num_players lp (omega arith) ∙ ground arith)
        (team_from-Says 0 roster.num_players)

-- Let the players be different ones and all have a team, and let one of them say a number in the
-- range of `int`, a colon and a text that is not a mouth. Where nobody is on the team of that number the only message is the reply that nothing was
-- sent. Otherwise each member of the team gets the text once, as does the sender, and no other player
-- that takes part gets anything.
pub handle_talk_lem :
    (roster : Roster) (m : ℕ) (front back : List ℕ)
    → AreDistinct roster
    → InTeams roster
    → m < roster.num_players
    → front ≢ []
    → all_digits front ≡ true
    → digits 0 front < int_end
    → is_smiley back ≡ false
    → (sent : List Message) × (handle_talk roster (roster.players m) (front ++ (b':' ∷ back))
        ≡ some sent)
      × (((sent ≡ not_sent ∷ [])
            × ((j : ℕ)
                → j < roster.num_players
                → is_on (roster.players j) (digits 0 front) ≡ false))
          ⊎ Delivered roster m (digits 0 front) back sent)
unfolding handle_talk after_split addressed
handle_talk_lem roster m [] back d teams l h a small s = absurd (h refl)
handle_talk_lem roster m (c ∷ front) back d teams l h a small s =
    let team = digits 0 (c ∷ front) in
    let fits : ltb team int_end ≡ true = ground (arith, small) in
    (
      with_sender (roster.players m) team back (team_from roster team back 0 roster.num_players),
      ap (after_split roster (roster.players m) ((c ∷ front) ++ (b':' ∷ back)))
            (split-digits (c ∷ front) back a)
          ∙ rw (after_split, s, addressed, a, fits) (to_team-told roster m team back teams l),
      told-Outcome roster d team back m l,
    )
