-- ===== src/Objects/RoundEnd.antt =====
-- `Objects_time_out`, which the end of a round calls, and the pool after it.
use xpilot_fxi.Prelude.{
  ℕ, zero, suc, ◌+◌, ◌≤◌, ◌<◌, ◌≡◌, ◌⊎◌, true, false, some, arith, refl, sym, ◌∙◌, ◌==◌, Bool-cases,
  inl, inr, ap,
}
use mathlib.Core.Path.{subst}
use xpilot_fxi.Prelude.Int.{pos}
use xpilot_fxi.Objects.World.{World, Thing, max_total_objects, set_thing}
use xpilot_fxi.Objects.Loops.{expire_from, objects_time_out, objects_remove_timed_out}
use xpilot_fxi.Objects.Pool.{IsValid, live}
use xpilot_fxi.Objects.Settle.{sound}
use xpilot_fxi.Objects.Refill.{Fresh}
use xpilot_fxi.Objects.Aging.{Aged}
use xpilot_fxi.Objects.Timeout.{objects_remove_timed_out_lem}

-- The lives of the objects in the slots from `i` on, `n` of them, are 0.
record Expired (i n : ℕ) (w w' : World) : Type 0 where
  num_objs : w'.num_objs ≡ w.num_objs
  slot : (j : ℕ) → w'.slot j ≡ w.slot j
  id : (x : ℕ) → w'.id x ≡ w.id x
  thing : (x : ℕ) → (w'.thing x ≡ w.thing x) ⊎ (w'.thing x ≡ (record (w.thing x) { life = pos 0 }))
  life : (j : ℕ) → i ≤ j → j < i + n → (w'.thing (w.slot j)).life ≡ pos 0

expire_from-Expired : (n i : ℕ) (w : World) → Expired i n w (expire_from n i w)
unfolding expire_from set_thing
expire_from-Expired zero i w = record {
  num_objs = refl;
  slot = λ j. refl;
  id = λ x. refl;
  thing = λ x. inl refl;
  life = λ j a b. absurd (omega arith);
}
expire_from-Expired (suc n) i w =
    let u = set_thing (w.slot i) (record (w.thing (w.slot i)) { life = pos 0 }) w in
    let rest = expire_from-Expired n (i + 1) u in
    record {
      num_objs = rest.num_objs;
      slot = rest.slot;
      id = rest.id;
      thing = λ x. ground (arith, rest.thing x);
      life = λ j a b. elim (Bool-cases (j == i)) [
        | inl e ↦ ground (arith, rest.thing (w.slot j))
        | inr ne ↦ rest.life j (ground arith) (omega arith)
      ];
    }

Expired-IsValid : {i n : ℕ} {w w' : World} → Expired i n w w' → IsValid w → IsValid w'
Expired-IsValid e v = record {
  few = ground (arith, e.num_objs, v.few);
  slot_in = λ i h. ground (arith, e.slot i, v.slot_in i h);
  id_in = λ x h. ground (arith, e.id x, v.id_in x h);
  id_slot = λ i h. rw (e.slot i) (e.id _ ∙ v.id_slot i h);
  slot_id = λ x h. rw (e.id x) (e.slot _ ∙ v.slot_id x h);
}

objects_time_out-Expired : (w : World) → Expired 0 w.num_objs w (objects_time_out w)
unfolding objects_time_out
objects_time_out-Expired w = expire_from-Expired w.num_objs 0 w

objects_time_out-sound :
    (w : World)
    → ((y : ℕ) → sound (w.thing y) ≡ true)
    → (y : ℕ) → sound ((objects_time_out w).thing y) ≡ true
objects_time_out-sound w s y = ground (arith, (objects_time_out-Expired w).thing y, s y)

-- `Objects_time_out` leaves the pool as it is, and the life of every object in use is 0.
pub objects_time_out_lem :
    (w : World) (x : ℕ)
    → IsValid w
    → x < max_total_objects
    → live w x ≡ true
    → IsValid (objects_time_out w)
      × (live (objects_time_out w) x ≡ true)
      × ((objects_time_out w).thing x ≡ (record (w.thing x) { life = pos 0 }))
objects_time_out_lem w x v hx l =
    let e = objects_time_out-Expired w in
    let there = v.slot_id x hx in
    (
      Expired-IsValid e v,
      ground (arith, e.id x, e.num_objs),
      zero_life w.thing (objects_time_out w).thing x (e.thing x)
          (rw (← there) (e.life (w.id x) (omega arith) (ground arith))),
    )
  where
    zero_life :
        (f g : ℕ → Thing) (y : ℕ)
        → (g y ≡ f y) ⊎ (g y ≡ (record (f y) { life = pos 0 }))
        → (g y).life ≡ pos 0
        → g y ≡ (record (f y) { life = pos 0 })
    zero_life f g y (inl e) z =
        e ∙ ap (λ z'. record (f y) { life = z' }) (ap (λ (t : Thing). t.life) (sym e) ∙ z)
    zero_life f g y (inr e) z = e

ended :
    (t : Thing) (w : World) (x : ℕ)
    → Aged true (record t { life = pos 0 }) w x
    → (live w x ≡ false) ⊎ Fresh w x
ended t w x (inl (p, l, e)) = cc
ended t w x (inr (inl (p, lives, l, k, e))) = cc
ended t w x (inr (inr (p, ends, h))) = h

-- At the end of a round `Objects_time_out` and then, in a real frame, `Objects_remove_timed_out`
-- clear the pool of all that was in use, and nothing but a new ball can be in use where something
-- was: it has its full life and no owner, and hangs on nobody. Every ball needs a treasure, and an owner if it is attached.
pub round_end_lem :
    (w : World) (x : ℕ)
    → IsValid w
    → ((y : ℕ) → sound (w.thing y) ≡ true)
    → x < max_total_objects
    → live w x ≡ true
    → (w' : World) × (objects_remove_timed_out true (objects_time_out w) ≡ some w')
      × IsValid w'
      × ((live w' x ≡ false) ⊎ Fresh w' x)
round_end_lem w x v s hx l =
    let (valid, still, timed) = objects_time_out_lem w x v hx l in
    let (w', run, v', aged) =
      objects_remove_timed_out_lem true (objects_time_out w) x valid (objects_time_out-sound w s) hx
        still in
    (w', run, v', ended (w.thing x) w' x (subst (λ t. Aged true t w' x) timed aged))
