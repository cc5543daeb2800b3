-- ===== src/Connections/Joining.antt =====
-- `Setup_connection` keeps the invariant of the table.
use xpilot_fxi.Prelude.{
  ℕ, zero, suc, ◌+◌, ◌≤◌, ◌<◌, ◌≡◌, Bool, true, false, Option, none, some, if◌then◌else◌, arith,
  refl, Option-cases, inl, inr,
}
use xpilot_fxi.Prelude.Int.{ℤ, pos, minus_one}
use xpilot_fxi.Connections.Server.{
  ConnState, free, listening, setup, login, playing, drain, ready, Connection, Server, M, ◌>>◌,
  pure, put, set_state, destroy, is_free, call, install_input,
}
use xpilot_fxi.Connections.Arrival.{
  Applicant, Resources, Found, place, known, in_use, find_place, fill_in, listen, start_listening,
  take_place, setup_connection, enough, or_first, same_nick, same_client,
}
use xpilot_fxi.Connections.Invariant.{Legal, IsSound, Safe, set_state-Safe, put-IsSound}
use xpilot_fxi.Connections.Safety.{Keeps, bind-Safe, if-Keeps, IsSound-same}
use xpilot_fxi.Connections.Steps.{destroy_then}

module _ (n : ℕ) (conns : ℕ → Connection) (who : Applicant) where
  -- A place that was found is a free connection of the table.
  abbrev pub IsPlace : Option ℕ → Type 0
  IsPlace none = Unit
  IsPlace (some j) = (j < n) × (is_free (conns j).state ≡ true)

  abbrev pub IsFound : Found → Type 0
  IsFound (place p) = IsPlace p
  IsFound (known port) = Unit
  IsFound in_use = Unit

  if-IsFound :
      (b : Bool) (x y : Found)
      → (b ≡ true → IsFound x)
      → (b ≡ false → IsFound y)
      → IsFound (if b then x else y)
  if-IsFound true x y p q = p refl
  if-IsFound false x y p q = q refl

  or_first-IsPlace :
      (found : Option ℕ) (i : ℕ)
      → IsPlace found
      → i < n
      → is_free (conns i).state ≡ true
      → IsPlace (or_first found i)
  or_first-IsPlace none i p h e = (h, e)
  or_first-IsPlace (some j) i p h e = p

  next-IsPlace :
      (b : Bool) (found : Option ℕ) (i : ℕ)
      → IsPlace found
      → i < n
      → is_free (conns i).state ≡ b
      → IsPlace (if b then or_first found i else found)
  next-IsPlace true found i p h e = or_first-IsPlace found i p h e
  next-IsPlace false found i p h e = p

  pub find_place-IsFound :
      (i k : ℕ) (found : Option ℕ)
      → i + k ≤ n
      → IsPlace found
      → IsFound (find_place conns who i k found)
  unfolding find_place
  find_place-IsFound i zero found h p = p
  find_place-IsFound i (suc k) found h p =
      let conn = conns i in
      let found' = if is_free conn.state then or_first found i else found in
      let rest = find_place conns who (i + 1) k found' in
      let ih =
        find_place-IsFound (i + 1) k found' (omega arith)
          (next-IsPlace (is_free conn.state) found i p (omega arith) refl) in
      let taken = if same_client conn who then known conn.my_port else in_use in
      if-IsFound (is_free conn.state) rest (if same_nick conn.nick who.nick then taken else rest)
        (λ _. ih)
        (λ _.
          if-IsFound (same_nick conn.nick who.nick) taken rest
            (λ _. if-IsFound (same_client conn who) (known conn.my_port) in_use (λ _. tt) (λ _. tt))
            (λ _. ih))

Legal-free :
    (state drain_state : ConnState) (pl : Option ℕ)
    → is_free state ≡ true
    → Legal state drain_state pl
Legal-free free d pl e = tt
Legal-free listening d pl e = tt
Legal-free setup d pl e = tt
Legal-free login d pl e = tt
Legal-free playing d pl e = cc
Legal-free drain d pl e = cc
Legal-free ready d pl e = cc

module _ (n : ℕ) (who : Applicant) (got : Resources) where
  listen-Safe :
      (sock port i team : ℕ) (s : Server)
      → i < n
      → is_free (s.conns i).state ≡ true
      → IsSound n s
      → Safe n (listen who got sock port i team s)
  unfolding listen
  listen-Safe sock port i team s inside e v =
      let filled = fill_in who got s.fps s.main_loops sock port i team (s.conns i) in
      let s1 = put i filled s in
      let v1 =
        put-IsSound n i inside filled s refl
          (Legal-free (s.conns i).state (s.conns i).drain_state none e) v in
      let fail : M ℤ = (do destroy i "no memory"; pure minus_one) in
      let succeed : M ℤ = (do call (install_input sock); pure (pos port)) in
      bind-Safe n (λ _. if enough got then succeed else fail) (set_state i listening free s1)
        (set_state-Safe n i inside listening free s1 tt v1)
        (λ _.
          if-Keeps n (enough got) succeed fail (λ t w. IsSound-same n t _ refl refl refl refl w)
            (destroy_then n i inside minus_one "no memory"))

  start_listening-Safe :
      (sock port i : ℕ) (s : Server)
      → i < n
      → is_free (s.conns i).state ≡ true
      → IsSound n s
      → Safe n (start_listening who got sock port i s)
  unfolding start_listening
  start_listening-Safe sock port i s inside e v = elim (Option-cases who.team) [
    | inl x ↦ rw (x, start_listening) tt
    | inr (team, x) ↦ rw (x, start_listening) (listen-Safe sock port i team s inside e v)
  ]

  take_place-Safe :
      (found : Found) (s : Server)
      → IsFound n s.conns who found
      → IsSound n s
      → Safe n (take_place who got found s)
  unfolding take_place
  take_place-Safe (known port) s p v = v
  take_place-Safe in_use s p v = v
  take_place-Safe (place none) s p v = v
  take_place-Safe (place (some i)) s p v = elim (Option-cases got.socket) [
    | inl e ↦ rw (e, take_place) v
    | inr ((sock, port), e) ↦ rw (e, take_place) (start_listening-Safe sock port i s p.0 p.1 v)
  ]

  pub setup_connection-Keeps : Keeps n (setup_connection n who got)
  unfolding setup_connection
  setup_connection-Keeps s v =
      take_place-Safe (find_place s.conns who 0 n none) s
        (find_place-IsFound n s.conns who 0 n none (omega arith) tt) v
