-- ===== src/Connections/Rounds.antt =====
-- The rounds that are given to the loop of `Handle_input`.
use xpilot_fxi.Prelude.{
  ℕ, zero, suc, ◌≤◌, ◌≡◌, Bool, true, false, Option, none, some, ltb, if◌then◌else◌, arith,
}
use xpilot_fxi.Prelude.Int.{ℤ, pos, negsuc}
use xpilot_fxi.Net.Sockbuf.{clear}
use xpilot_fxi.Connections.Server.{Server, M, ◌>>◌, resume, pure, put, is_free}
use xpilot_fxi.Connections.Handshake.{is_minus_one, handle_listening}
use xpilot_fxi.Connections.Input.{
  Handler, Outside, read_r, run_handler, after_handler, input_loop, after_read, handle_packets,
  handle_input, receive_table,
}

-- Where the first code returns, the second does the same.
abbrev Extends : {A : Type 0} → M A → M A → Type 0
Extends {A} f g = (s : Server) (x : A × Server) → f s ≡ some x → g s ≡ some x

if-some :
    {A : Type 0} (b : Bool) (x y x' y' : Option A) (z : A)
    → (x ≡ some z → x' ≡ some z)
    → (y ≡ some z → y' ≡ some z)
    → (if b then x else y) ≡ some z
    → (if b then x' else y') ≡ some z
if-some true x y x' y' z p q e = p e
if-some false x y x' y' z p q e = q e

bind-Extends :
    {A B : Type 0} (f g : A → M B)
    → ((a : A) → Extends (f a) (g a))
    → (x : Option (A × Server)) (z : B × Server) → resume f x ≡ some z
    → resume g x ≡ some z
bind-Extends f g k none z e = cc
bind-Extends f g k (some (a, s)) z e = k a s z e

module _ (out : Outside) (i rounds : ℕ) (enough : out.rounds ≤ rounds) where
  abbrev longer : Outside
  longer = record out { rounds = rounds }

  after_handler-Extends :
      (rest rest' : M (Unit {0})) (r : ℤ)
      → Extends rest rest'
      → Extends (after_handler out i rest r) (after_handler longer i rest' r)
  unfolding after_handler
  after_handler-Extends rest rest' (pos zero) k s z e = e
  after_handler-Extends rest rest' (pos (suc n)) k s z e = k _ z e
  after_handler-Extends rest rest' (negsuc zero) k s z e = e
  after_handler-Extends rest rest' (negsuc (suc n)) k s z e = k _ z e

  input_loop-Extends :
      (table : ℕ → Handler) (fuel fuel' : ℕ)
      → fuel ≤ fuel'
      → Extends (input_loop out i table fuel) (input_loop longer i table fuel')
  unfolding input_loop run_handler
  input_loop-Extends table zero fuel' h s z e = cc
  input_loop-Extends table (suc fuel) zero h s z e = absurd (omega arith)
  input_loop-Extends table (suc fuel) (suc fuel') h s z e =
      let kind = table ((s.conns i).r.buf (s.conns i).r.ptr) in
      if-some (ltb (s.conns i).r.ptr (s.conns i).r.len) _ _ _ _ z
        (bind-Extends (after_handler out i (input_loop out i table fuel))
          (after_handler longer i (input_loop longer i table fuel'))
          (λ r.
            after_handler-Extends (input_loop out i table fuel) (input_loop longer i table fuel') r
              (input_loop-Extends table fuel fuel' (omega arith)))
          (run_handler out i kind s) z)
        (λ x. x) e

  after_read-Extends :
      (table : ℕ → Handler) (r : ℤ)
      → Extends (after_read out i table r) (after_read longer i table r)
  unfolding after_read
  after_read-Extends table r s z e =
      if-some (is_minus_one r) _ _ _ _ z (λ x. x)
        (input_loop-Extends table out.rounds rounds enough s z) e

  handle_packets-Extends :
      (table : ℕ → Handler) → Extends (handle_packets out i table) (handle_packets longer i table)
  unfolding handle_packets
  handle_packets-Extends table s z e =
      let s1 = put i (record (s.conns i) { num_keyboard_updates = 0; r = clear (s.conns i).r }) s in
      bind-Extends (after_read out i table) (after_read longer i table) (after_read-Extends table)
        (read_r i s1) z e

-- Where the loop of `Handle_input` ends within the rounds that it is given, more rounds change
-- nothing: the call returns, and leaves the same table.
pub handle_input-rounds :
    (out : Outside) (i rounds : ℕ) (s s' : Server)
    → out.rounds ≤ rounds
    → handle_input out i s ≡ some (tt, s')
    → handle_input (record out { rounds = rounds }) i s ≡ some (tt, s')
unfolding handle_input
handle_input-rounds out i rounds s s' enough e = go (receive_table (s.conns i).state) e
  where
    idle : Option (Unit {0} × Server)
    idle =
        if is_free (s.conns i).state
        then some (tt, s)
        else (do handle_listening i out.connects out.first; pure tt) s

    go :
        (t : Option (ℕ → Handler))
        → (elim t [ some table ↦ handle_packets out i table s | none ↦ idle ]) ≡ some (tt, s')
        → (elim t [
          | some table ↦ handle_packets (record out { rounds = rounds }) i table s
          | none ↦ idle
        ])
          ≡ some (tt, s')
    go none e = e
    go (some table) e = handle_packets-Extends out i rounds enough table s (tt, s') e
