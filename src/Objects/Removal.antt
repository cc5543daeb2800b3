-- ===== src/Objects/Removal.antt =====
-- `Object_remove` on the pool.
use xpilot_fxi.Prelude.{
  ℕ, ◌+◌, ◌≤◌, ◌<◌, ◌≡◌, ◌⊎◌, true, some, arith, ◌∙◌, ◌==◌, ◌&&◌, not, if◌then◌else◌,
}
use xpilot_fxi.Objects.World.{World, blank, max_total_objects, unlink, object_remove}
use xpilot_fxi.Objects.Pool.{IsValid, live, unlink-IsValid, unlink_lem}
use xpilot_fxi.Objects.Settle.{sound, SameBut, settle_lem, SameBut-IsValid}

-- `w'` is `w` without the object `o`.
pub record Removed (o : ℕ) (w w' : World) : Type 0 where
  pub valid : IsValid w'
  pub num_objs : w'.num_objs + 1 ≡ w.num_objs
  pub live_other : (x : ℕ) → x < max_total_objects → live w' x ≡ (live w x && not (x == o))
  pub thing : (x : ℕ) → w'.thing x ≡ (if x == o then blank else w.thing x)
  pub place :
      (x : ℕ)
      → x < max_total_objects
      → (w'.id x ≡ w.id x) ⊎ ((w.id o ≤ w'.id x) × (w.id o ≤ w.id x))

unlink-Removed :
    (w u : World) (o : ℕ)
    → o < max_total_objects
    → IsValid u
    → live u o ≡ true
    → SameBut o w u
    → Removed o w (unlink o u)
unfolding unlink
unlink-Removed w u o ho valid l same = record {
  valid = unlink-IsValid u o valid ho l;
  num_objs = ground (arith, same.num_objs);
  live_other =
      λ x hx. (unlink_lem u o x valid ho hx l).0 ∙ ground (arith, same.num_objs, same.id x);
  thing = λ x. ground (arith, same.thing x);
  place = λ x hx. ground (arith, (unlink_lem u o x valid ho hx l).1, same.id x, same.id o);
}

pub object_remove-Removed :
    (w : World) (o : ℕ)
    → IsValid w
    → o < max_total_objects
    → live w o ≡ true
    → sound (w.thing o) ≡ true
    → (w' : World) × (object_remove o w ≡ some w') × Removed o w w'
unfolding object_remove
object_remove-Removed w o v ho l s =
    let (u, run, same) = settle_lem o w s in
    let l' : live u o ≡ true = ground (arith, same.num_objs, same.id o) in
    (
      unlink o u,
      simp (object_remove, run),
      unlink-Removed w u o ho (SameBut-IsValid same v) l' same,
    )

-- `Object_remove` on an object in use returns when the pointers that it follows are not null. The
-- pool stays valid, and there is one object less in use: of all objects, such as `x`, just `o` is
-- not any more, and is wiped. No other object has changed but for its `id`.
pub object_remove_lem :
    (w : World) (o x : ℕ)
    → IsValid w
    → o < max_total_objects
    → x < max_total_objects
    → live w o ≡ true
    → sound (w.thing o) ≡ true
    → (w' : World) × (object_remove o w ≡ some w')
      × IsValid w'
      × (w'.num_objs + 1 ≡ w.num_objs)
      × (live w' x ≡ (live w x && not (x == o)))
      × (w'.thing x ≡ (if x == o then blank else w.thing x))
object_remove_lem w o x v ho hx l s =
    let (w', run, is) = object_remove-Removed w o v ho l s in
    (w', run, is.valid, is.num_objs, is.live_other x hx, is.thing x)
