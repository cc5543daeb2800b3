-- ===== src/Connections/Outcomes.antt =====
-- What code on the table of connections leaves, as a predicate on its result and the new table.
use xpilot_fxi.Prelude.{ℕ, ◌≡◌, Bool, true, false, Option, none, some, arith, if◌then◌else◌, refl}
use xpilot_fxi.Connections.Server.{Connection, Server, M, resume, put}

-- Code returns, with a result and a table as `Q` says.
abbrev pub Post : {A : Type 0} → (A → Server → Type 0) → Option (A × Server) → Type 0
Post Q none = ⊥
Post Q (some (a, server)) = Q a server

pub put-same : (i : ℕ) (conn : Connection) (s : Server) → (put i conn s).conns i ≡ conn
put-same i conn s = ground arith

module _ {A : Type 0} where
  pub Post-map :
      (P Q : A → Server → Type 0) (x : Option (A × Server))
      → Post P x
      → ((a : A) (s : Server) → P a s → Q a s)
      → Post Q x
  Post-map P Q none p f = p
  Post-map P Q (some (a, s)) p f = f a s p

  pub if-Post :
      (Q : A → Server → Type 0) (b : Bool) (x y : Option (A × Server))
      → Post Q x
      → Post Q y
      → Post Q (if b then x else y)
  if-Post Q true x y p q = p
  if-Post Q false x y p q = q

  -- The branches know what the test found.
  pub test-Post :
      (Q : A → Server → Type 0) (b : Bool) (x y : Option (A × Server))
      → (b ≡ true → Post Q x)
      → (b ≡ false → Post Q y)
      → Post Q (if b then x else y)
  test-Post Q true x y p q = p refl
  test-Post Q false x y p q = q refl

  pub bind-Post :
      {B : Type 0} (P : A → Server → Type 0) (Q : B → Server → Type 0) (f : A → M B)
      (x : Option (A × Server))
      → Post P x
      → ((a : A) (s : Server) → P a s → Post Q (f a s))
      → Post Q (resume f x)
  bind-Post P Q f none p k = elim p [ ]
  bind-Post P Q f (some (a, s)) p k = k a s p

  pub Post-out :
      (Q : A → Server → Type 0) (x : Option (A × Server))
      → Post Q x
      → (a : A) × (s : Server) × (x ≡ some (a, s)) × Q a s
  Post-out Q none p = elim p [ ]
  Post-out Q (some (a, s)) p = (a, s, refl, p)
