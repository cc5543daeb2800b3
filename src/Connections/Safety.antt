-- ===== src/Connections/Safety.antt =====
-- The operations on connections keep the invariant of the table.
use Prim.Native.String.{String}
use mathlib.Core.Path.{subst}
use xpilot_fxi.Prelude.{
  ℕ, ◌<◌, ◌≡◌, Bool, true, false, Option, none, some, [], ◌∷◌, if◌then◌else◌, refl, sym, ap, ap₂,
  ◌∙◌, ==_refl, ◌++◌,
}
use xpilot_fxi.Prelude.Int.{pos, ◌-ℤ◌}
use xpilot_fxi.Connections.Server.{
  free, Connection, Server, M, moved, resume, put, change, destroy, destroy_busy, is_free, in_game,
  goodbye, remove_input, blank,
}
use xpilot_fxi.Connections.Sending.{leave_game-leaving}
use xpilot_fxi.Connections.Invariant.{
  IsLegal, IsSound, Safe, set_state-Safe, put-IsSound, count, busy,
}

-- Code that may be run on any sound table with `n` connections.
abbrev pub Keeps : ℕ → {A : Type 0} → M A → Type 0
Keeps n m = (s : Server) → IsSound n s → Safe n (m s)

pub bind-Safe :
    {A B : Type 0} (n : ℕ) (f : A → M B) (x : Option (A × Server))
    → Safe n x
    → ((a : A) → Keeps n (f a))
    → Safe n (resume f x)
bind-Safe n f none p k = tt
bind-Safe n f (some (a, s)) p k = k a s p

pub if-Safe :
    {A : Type 0} (n : ℕ) (b : Bool) (x y : Option (A × Server))
    → Safe n x
    → Safe n y
    → Safe n (if b then x else y)
if-Safe n true x y p q = p
if-Safe n false x y p q = q

pub if-Keeps :
    {A : Type 0} (n : ℕ) (b : Bool) (x y : M A)
    → Keeps n x
    → Keeps n y
    → Keeps n (if b then x else y)
if-Keeps n true x y p q = p
if-Keeps n false x y p q = q

-- The invariant looks at four fields.
pub IsSound-same :
    (n : ℕ) (s t : Server)
    → t.conns ≡ s.conns
    → t.num_conn_busy ≡ s.num_conn_busy
    → t.num_conn_playing ≡ s.num_conn_playing
    → t.login_in_progress ≡ s.login_in_progress
    → IsSound n s
    → IsSound n t
IsSound-same n s t c b g l v = record {
  counted = record {
    busy_ones = b ∙ v.counted.busy_ones ∙ ap (λ conns. pos (count busy conns n)) (sym c);
    in_games = g ∙ v.counted.in_games ∙ ap (λ conns. pos (count in_game conns n)) (sym c);
    logins = l ∙ v.counted.logins ∙ ap₂ (λ x y. x -ℤ y) (sym b) (sym g);
  };
  legal = λ j. subst (λ (conns : ℕ → Connection). IsLegal (conns j)) (sym c) (v.legal j);
}

module _ (n i : ℕ) (inside : i < n) where
  pub change-Keeps :
      (f : Connection → Connection)
      → ((c : Connection) → ((f c).state ≡ c.state) × (IsLegal c → IsLegal (f c)))
      → Keeps n (change i f)
  change-Keeps f k s v =
      put-IsSound n i inside (f (s.conns i)) s (k (s.conns i)).0 ((k (s.conns i)).1 (v.legal i)) v

  destroy_busy-Keeps : (reason : String) → Keeps n (destroy_busy i reason)
  unfolding destroy_busy
  destroy_busy-Keeps reason s v =
      let asked : Server = record s {
        calls =
            s.calls
            ++ (remove_input (s.conns i).w.sock ∷ [])
            ++ (goodbye (s.conns i).w.sock reason ∷ []);
      } in
      let left = moved i free free asked in
      let freed =
        set_state-Safe n i inside free free asked tt
          (IsSound-same n s asked refl refl refl refl v) in
      let empty = put-IsSound n i inside blank left (rw (==_refl i) refl) tt freed in
      rw (destroy_busy, leave_game-leaving)
        (IsSound-same n (put i blank left) _ refl refl refl refl empty)

  -- `Destroy_connection`, whose `memset` makes the connection that is already free blank.
  pub destroy-Keeps : (reason : String) → Keeps n (destroy i reason)
  unfolding destroy
  destroy-Keeps reason s v =
      if-Safe n (is_free (s.conns i).state) (some (tt, s)) (destroy_busy i reason s) v
        (destroy_busy-Keeps reason s v)
