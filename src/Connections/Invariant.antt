-- ===== src/Connections/Invariant.antt =====
-- What holds of the table of connections between any two operations.
use xpilot_fxi.Prelude.{
  ℕ, zero, suc, ◌+◌, ◌≤◌, ◌<◌, ◌≡◌, ◌≢◌, ◌⊎◌, inl, inr, Bool, true, false, Option, none, some, ◌==◌,
  not, if◌then◌else◌, arith, refl, sym, ap, ◌∙◌, Bool-cases,
}
use xpilot_fxi.Prelude.Int.{ℤ, pos, pos_part, neg_part, ◌-ℤ◌, ◌+ℤ◌}
use xpilot_fxi.Prelude.Memory.{update}
use xpilot_fxi.Connections.Server.{
  ConnState, setup, login, playing, drain, ready, Connection, Server, put, set_state, is_free,
  in_game, one_if,
}

abbrev pub one : Bool → ℕ
one b = if b then 1 else 0

-- How many of the first `n` connections are in a state as `f` says.
unfoldable pub count : (ConnState → Bool) → (ℕ → Connection) → ℕ → ℕ
count f conns zero = 0
count f conns (suc n) = count f conns n + one (f (conns n).state)

count-update_above :
    (f : ConnState → Bool) (conns : ℕ → Connection) (n i : ℕ) (c : Connection)
    → n ≤ i
    → count f (update conns i c) n ≡ count f conns n
unfolding count
count-update_above f conns zero i c h = refl
count-update_above f conns (suc n) i c h =
    let other : (n == i) ≡ false = ground arith in
    rw other
      (ap (λ k. k + one (f (conns n).state)) (count-update_above f conns n i c (omega arith)))

count-update :
    (f : ConnState → Bool) (conns : ℕ → Connection) (n i : ℕ) (c : Connection)
    → i < n
    → count f (update conns i c) n + one (f (conns i).state) ≡ count f conns n + one (f c.state)
unfolding count
count-update f conns zero i c h = absurd (omega arith)
count-update f conns (suc n) i c h = elim (Bool-cases (n == i)) [
  | inl e ↦
      let eq : n ≡ i = ground arith in
      rw e (
        omega (
          arith,
          count-update_above f conns n i c (omega arith),
          ap (λ k. one (f (conns k).state)) eq,
        ))
  | inr e ↦ rw e (omega (arith, count-update f conns n i c (ground arith)))
]

abbrev pub busy : ConnState → Bool
busy state = not (is_free state)

-- The counters of `Conn_set_state` are right for the first `n` connections.
pub record Counted (n : ℕ) (s : Server) : Type 0 where
  pub busy_ones : s.num_conn_busy ≡ pos (count busy s.conns n)
  pub in_games : s.num_conn_playing ≡ pos (count in_game s.conns n)
  pub logins : s.login_in_progress ≡ s.num_conn_busy -ℤ s.num_conn_playing

one_parts : (b : Bool) → (pos_part (one_if b) ≡ one b) × (neg_part (one_if b) ≡ 0)
one_parts true = (refl, refl)
one_parts false = (refl, refl)

one-not : (b : Bool) → one (not b) + one b ≡ 1
one-not true = omega arith
one-not false = omega arith

-- A counter goes from `a` to `b` where `drop` was counted before and `gain` is counted now.
down_up :
    (a b : ℕ) (k : ℤ) (drop gain : Bool)
    → k ≡ pos a
    → b + one drop ≡ a + one gain
    → k -ℤ one_if drop +ℤ one_if gain ≡ pos b
unfolding ◌-ℤ◌ ◌+ℤ◌
down_up a b k true true e h = rw e (ground arith)
down_up a b k true false e h = rw e (ground arith)
down_up a b k false true e h = rw e (ground arith)
down_up a b k false false e h = rw e (ground arith)

up_down :
    (a b : ℕ) (k : ℤ) (gain drop : Bool)
    → k ≡ pos a
    → b + one drop ≡ a + one gain
    → k +ℤ one_if gain -ℤ one_if drop ≡ pos b
unfolding ◌-ℤ◌ ◌+ℤ◌
up_down a b k true true e h = rw e (ground arith)
up_down a b k true false e h = rw e (ground arith)
up_down a b k false true e h = rw e (ground arith)
up_down a b k false false e h = rw e (ground arith)

-- Where the player of a connection and the state behind a drain stand.
abbrev pub Legal : ConnState → ConnState → Option ℕ → Type 0
Legal drain drain_state pl = (drain_state ≡ setup) ⊎ (drain_state ≡ login)
Legal ready drain_state pl = (drain_state ≡ playing) × (pl ≢ none)
Legal playing drain_state pl = pl ≢ none
Legal _ drain_state pl = Unit

abbrev pub IsLegal : Connection → Type 0
IsLegal conn = Legal conn.state conn.drain_state conn.pl

-- The invariant of a table with `n` connections.
pub record IsSound (n : ℕ) (s : Server) : Type 0 where
  pub counted : Counted n s
  pub legal : (j : ℕ) → IsLegal (s.conns j)

-- Code keeps the invariant, if it returns.
abbrev pub Safe : ℕ → {A : Type 0} → Option (A × Server) → Type 0
Safe n none = Unit
Safe n (some (a, s)) = IsSound n s

module _ (n i : ℕ) (inside : i < n) where
  update-Counted :
      (s : Server) (conn : Connection) (games busys logins : ℤ)
      → Counted n s
      → busys ≡ s.num_conn_busy +ℤ one_if (is_free (s.conns i).state) -ℤ one_if (is_free conn.state)
      → games
        ≡ s.num_conn_playing -ℤ one_if (in_game (s.conns i).state) +ℤ one_if (in_game conn.state)
      → logins ≡ busys -ℤ games
      → Counted n (record (put i conn s) {
        num_conn_busy = busys;
        num_conn_playing = games;
        login_in_progress = logins;
      })
  update-Counted s conn games busys logins c b g l =
      let old = s.conns i in
      record {
        busy_ones =
            b
            ∙ up_down (count busy s.conns n) (count busy (update s.conns i conn) n) s.num_conn_busy
                (is_free old.state) (is_free conn.state) c.busy_ones
                (omega (
                  arith,
                  count-update busy s.conns n i conn inside,
                  one-not (is_free old.state),
                  one-not (is_free conn.state),
                ));
        in_games =
            g
            ∙ down_up (count in_game s.conns n) (count in_game (update s.conns i conn) n)
                s.num_conn_playing (in_game old.state) (in_game conn.state) c.in_games
                (count-update in_game s.conns n i conn inside);
        logins = l;
      }

  update-Legal :
      (s : Server) (conn : Connection)
      → IsLegal conn
      → ((j : ℕ) → IsLegal (s.conns j))
      → (j : ℕ) → IsLegal (update s.conns i conn j)
  update-Legal s conn l all j = elim (Bool-cases (j == i)) [ inl e ↦ rw e l | inr e ↦ rw e (all j) ]

  -- `Conn_set_state` to a state that is legal there.
  pub set_state-Safe :
      (state drain_state : ConnState) (s : Server)
      → Legal state drain_state (s.conns i).pl
      → IsSound n s
      → Safe n (set_state i state drain_state s)
  unfolding set_state
  set_state-Safe state drain_state s l v = record {
    counted = update-Counted s _ _ _ _ v.counted refl refl refl;
    legal = update-Legal s _ l v.legal;
  }

  same_zero : (k : ℤ) (b : Bool) → k +ℤ one_if b -ℤ one_if b ≡ k
  unfolding ◌+ℤ◌ ◌-ℤ◌
  same_zero k true = ground arith
  same_zero k false = ground arith

  same_zero' : (k : ℤ) (b : Bool) → k -ℤ one_if b +ℤ one_if b ≡ k
  unfolding ◌+ℤ◌ ◌-ℤ◌
  same_zero' k true = ground arith
  same_zero' k false = ground arith

  -- A change that leaves the state and the player alone.
  pub put-IsSound :
      (conn : Connection) (s : Server)
      → conn.state ≡ (s.conns i).state
      → IsLegal conn
      → IsSound n s
      → IsSound n (put i conn s)
  put-IsSound conn s e l v = record {
    counted =
        update-Counted s conn s.num_conn_playing s.num_conn_busy s.login_in_progress v.counted
          (rw e (sym (same_zero s.num_conn_busy (is_free (s.conns i).state))))
          (rw e (sym (same_zero' s.num_conn_playing (in_game (s.conns i).state)))) v.counted.logins;
    legal = update-Legal s conn l v.legal;
  }
