-- ===== src/Objects/Timeout.antt =====
-- `Objects_remove_timed_out`: what becomes of each object.
use xpilot_fxi.Prelude.{
  ℕ, zero, suc, ◌≤◌, ◌<◌, ◌≡◌, Bool, true, some, arith, refl, sym, ◌∙◌, ◌==◌, Bool-cases, inl, inr,
  ap,
}
use mathlib.Core.Path.{subst}
use xpilot_fxi.Objects.World.{World, max_total_objects}
use xpilot_fxi.Objects.Loops.{visit_below, objects_remove_timed_out}
use xpilot_fxi.Objects.Pool.{IsValid, live}
use xpilot_fxi.Objects.Settle.{sound}
use xpilot_fxi.Objects.Refill.{Kept, AllSound}
use xpilot_fxi.Objects.Aging.{Aged, Kept-Aged}
use xpilot_fxi.Objects.Visit.{Visited, visit_lem}

Kept-trans : (u v w : World) (x : ℕ) → Kept u v x → Kept v w x → Kept u w x
Kept-trans u v w x a b = ground (arith, a, b)

-- What the loop over the slots below `i` makes of the pool.
record Swept (real : Bool) (i : ℕ) (w w' : World) : Type 0 where
  pub valid : IsValid w'
  pub all_sound : AllSound w'
  pub kept : (x : ℕ) → x < max_total_objects → i ≤ w.id x → Kept w w' x
  pub aged : (x : ℕ) → x < max_total_objects → w.id x < i → Aged real (w.thing x) w' x

Swept-suc :
    (real : Bool) (i : ℕ) (w u w' : World)
    → IsValid w
    → i < w.num_objs
    → Visited real i w u
    → Swept real i u w'
    → Swept real (suc i) w w'
Swept-suc real i w u w' v hi a b = record {
  valid = b.valid;
  all_sound = b.all_sound;
  kept = λ x hx h.
      let (place, before) = a.above x hx h in Kept-trans w u w' x before (b.kept x hx place);
  aged = λ x hx h. elim (Bool-cases (w.id x == i)) [
    | inl e ↦
        let at : w.slot i ≡ x = ap (λ j. w.slot j) (sym (ground arith)) ∙ v.slot_id x hx in
        let (place, was) = subst (λ y. (i ≤ u.id y) × Aged real (w.thing y) u y) at a.here in
        Kept-Aged real (w.thing x) u w' x (b.kept x hx place) was
    | inr ne ↦
        let (place, same) = a.below x hx (ground arith) in
        subst (λ t. Aged real t w' x) same (b.aged x hx (rw place (ground arith)))
  ];
}

visit_below_lem :
    (real : Bool) (i : ℕ) (w : World)
    → IsValid w
    → AllSound w
    → i ≤ w.num_objs
    → (w' : World) × (visit_below real i w ≡ some w') × Swept real i w w'
unfolding visit_below
visit_below_lem real zero w v s h = (
  w,
  refl,
  record {
    valid = v;
    all_sound = s;
    kept = λ x hx g. inl (refl, refl);
    aged = λ x hx g. absurd (omega arith);
  },
)
visit_below_lem real (suc i) w v s h =
    let (u, run, a) = visit_lem real i w v s h in
    let (w', run', b) = visit_below_lem real i u a.valid a.all_sound a.num_objs in
    (w', simp (visit_below, run, run'), Swept-suc real i w u w' v h a b)

-- On a valid pool where every ball has a treasure, and an owner if it is attached,
-- `Objects_remove_timed_out` returns with a valid pool, and every object `x` that was in use has
-- aged just once, although objects are moved in the pool and balls are added while it is walked.
pub objects_remove_timed_out_lem :
    (real : Bool) (w : World) (x : ℕ)
    → IsValid w
    → ((y : ℕ) → sound (w.thing y) ≡ true)
    → x < max_total_objects
    → live w x ≡ true
    → (w' : World) × (objects_remove_timed_out real w ≡ some w')
      × IsValid w'
      × Aged real (w.thing x) w' x
unfolding objects_remove_timed_out
objects_remove_timed_out_lem real w x v s hx l =
    let (w', run, swept) = visit_below_lem real w.num_objs w v s (omega arith) in
    (w', run, swept.valid, swept.aged x hx (ground arith))
