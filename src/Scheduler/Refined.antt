-- ===== src/Scheduler/Refined.antt =====
-- `install_input` and `remove_input` refine the update of a map.
use xpilot_fxi.Prelude.{
  ℕ, ◌≡◌, inl, inr, Bool, true, false, Option, none, some, ◌==◌, ◌||◌, if◌then◌else◌, refl, ◌∙◌,
  Bool-cases, ==_iff, ap,
}
use xpilot_fxi.Prelude.Memory.{update}
use xpilot_fxi.Scheduler.Handlers.{
  Sched, out_of_range, initialize, enter, install, install_input, leave, remove_input,
}
use xpilot_fxi.Scheduler.Table.{
  IsValid, handler_of, emptied, initialize-Begun, Installed, Removed, enter-IsValid, leave-IsValid,
  entered, left,
}

if-Removed :
    (fd : ℕ) (s : Sched) (b : Bool) (x y : Option Sched)
    → (b ≡ true → Removed fd s x)
    → (b ≡ false → Removed fd s y)
    → Removed fd s (if b then x else y)
if-Removed fd s true x y p q = p refl
if-Removed fd s false x y p q = q refl

if-Installed :
    (func fd : ℕ) (s : Sched) (a b : Bool) (t : Sched)
    → (a ≡ true → Installed func fd s none)
    → (b ≡ true → Installed func fd s none)
    → (a ≡ false → b ≡ false → Installed func fd s (some t))
    → Installed func fd s (if a || b then none else some t)
if-Installed func fd s true b t p q r = p refl
if-Installed func fd s false true t p q r = q refl
if-Installed func fd s false false t p q r = r refl refl

mask-initialize :
    (fd : ℕ) (s : Sched) → (initialize fd s).input_mask fd ≡ true → s.input_mask fd ≡ true
unfolding initialize
mask-initialize fd s e = go s.input_inited e
  where
    go : (b : Bool) → (if b then s else emptied fd).input_mask fd ≡ true → s.input_mask fd ≡ true
    go true e = e
    go false e = cc

mask-free :
    (fd : ℕ) (s : Sched)
    → IsValid s
    → (initialize fd s).input_mask fd ≡ false
    → s.input_mask fd ≡ false
unfolding initialize
mask-free fd s v e = go s.input_inited v.unused e
  where
    go :
        (b : Bool)
        → (b ≡ false → (g : ℕ) → s.input_mask g ≡ false)
        → (if b then s else emptied fd).input_mask fd ≡ false
        → s.input_mask fd ≡ false
    go true u e = e
    go false u e = u refl fd

not_set :
    (fd : ℕ) (s : Sched)
    → s.input_mask fd ≡ false
    → (g : ℕ) → handler_of s g ≡ update (handler_of s) fd none g
not_set fd s e g = elim (Bool-cases (g == fd)) [
  | inl same ↦ let eq : g ≡ fd = (==_iff g fd).0 same in rw (same, ap s.input_mask eq ∙ e) refl
  | inr other ↦ rw other refl
]

-- On a valid table the two functions act as on a map from descriptors to handlers. `install_input`
-- ends the server if the descriptor is out of the range of 32 that the first call fixes, or has a
-- handler; otherwise it sets the handler of that descriptor. `remove_input` ends the server if the
-- descriptor is out of the range, and otherwise leaves that descriptor without a handler. No other
-- descriptor is touched, the table is valid again, and no descriptor in it is above `max_fd`.
pub table_lem :
    (func fd : ℕ) (s : Sched)
    → IsValid s
    → Installed func fd s (install_input func fd s) × Removed fd s (remove_input fd s)
unfolding install_input install remove_input
table_lem func fd s v =
    let t = initialize fd s in
    let (valid, on, same) = initialize-Begun fd s v in
    (
      if-Installed func fd s (out_of_range fd t) (t.input_mask fd) (enter func fd t) (λ e. inl e)
          (λ e. inr (mask-initialize fd s e))
          (λ e e'. (
            e,
            mask-free fd s v e',
            enter-IsValid func fd t valid on e,
            λ g.
                entered func fd g t valid e
                ∙ ap (λ x. if g == fd then some (fd, func) else x) (same g),
          )),
      if-Removed fd s (out_of_range fd s) none
          (if s.input_mask fd then some (leave fd s) else some s) (λ e. e)
          (λ e.
            if-Removed fd s (s.input_mask fd) (some (leave fd s)) (some s)
              (λ m. (e, leave-IsValid fd s v (begun m) e, λ g. left fd g s v e))
              (λ m. (e, v, not_set fd s m))),
    )
  where
    begun : s.input_mask fd ≡ true → s.input_inited ≡ true
    begun m = elim (Bool-cases s.input_inited) [ inl e ↦ e | inr e ↦ cc (m, v.unused e fd) ]
