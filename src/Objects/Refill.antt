-- ===== src/Objects/Refill.antt =====
-- `Ball_treasure_add` on the pool.
use xpilot_fxi.Prelude.{
  ℕ, ◌+◌, ◌≤◌, ◌<◌, ◌≡◌, ◌⊎◌, true, false, none, some, arith, refl, ◌==◌, leb, Bool-cases, inl, inr,
}
use xpilot_fxi.Prelude.Memory.{update}
use xpilot_fxi.Objects.World.{
  World, Thing, max_total_objects, max_object_life, obj_ball, set_thing, object_add,
}
use xpilot_fxi.Objects.Loops.{ball_treasure_add}
use xpilot_fxi.Objects.Pool.{IsValid, live}
use xpilot_fxi.Objects.Settle.{sound}

-- A new ball, of full life, that has no owner and hangs on nobody.
abbrev pub Fresh : World → ℕ → Type 0
Fresh w x =
    (live w x ≡ true)
    × ((w.thing x).kind ≡ obj_ball)
    × ((w.thing x).life ≡ max_object_life)
    × ((w.thing x).owner ≡ none)
    × ((w.thing x).attached ≡ false)

-- `w'` has the same at `x`, or a new ball where nothing was in use.
abbrev pub Kept : World → World → ℕ → Type 0
Kept w w' x =
    ((live w' x ≡ live w x) × (w'.thing x ≡ w.thing x)) ⊎ ((live w x ≡ false) × Fresh w' x)

abbrev pub AllSound : World → Type 0
AllSound w = (x : ℕ) → sound (w.thing x) ≡ true

-- `Ball_treasure_add` on a valid pool.
pub record Added (w w' : World) : Type 0 where
  pub valid : IsValid w'
  pub num_objs : w.num_objs ≤ w'.num_objs
  pub slot : (j : ℕ) → w'.slot j ≡ w.slot j
  pub id : (x : ℕ) → w'.id x ≡ w.id x
  pub kept : (x : ℕ) → x < max_total_objects → Kept w w' x
  pub all_sound : AllSound w → AllSound w'

-- The ball in its box.
abbrev new_ball : ℕ → Thing → Thing
new_ball t u = record u {
  kind = obj_ball;
  life = max_object_life;
  owner = none;
  treasure = some t;
  attached = false;
}

abbrev with_ball : ℕ → ℕ → World → World
with_ball t o w = record w {
  num_objs = w.num_objs + 1;
  thing = update w.thing o (new_ball t (w.thing o));
  have = update w.have t true;
}

pub Added-refl : (w : World) → IsValid w → Added w w
Added-refl w v = record {
  valid = v;
  num_objs = omega arith;
  slot = λ j. refl;
  id = λ x. refl;
  kept = λ x h. inl (refl, refl);
  all_sound = λ s. s;
}

with_ball-Kept :
    (t : ℕ) (w : World) (x : ℕ)
    → IsValid w
    → w.num_objs < max_total_objects
    → x < max_total_objects
    → Kept w (with_ball t (w.slot w.num_objs) w) x
with_ball-Kept t w x v room h =
    let there = v.slot_id x h in
    let new = v.id_slot w.num_objs room in
    elim (Bool-cases (x == w.slot w.num_objs)) [
      | inl e ↦
          inr (ground arith, (ground arith, ground arith, ground arith, ground arith, ground arith))
      | inr e ↦ inl (ground arith, ground arith)
    ]

with_ball-Added :
    (t : ℕ) (w : World)
    → IsValid w
    → w.num_objs < max_total_objects
    → Added w (with_ball t (w.slot w.num_objs) w)
with_ball-Added t w v room = record {
  valid = record {
    few = omega arith;
    slot_in = v.slot_in;
    id_in = v.id_in;
    id_slot = v.id_slot;
    slot_id = v.slot_id;
  };
  num_objs = omega arith;
  slot = λ j. refl;
  id = λ x. refl;
  kept = λ x h. with_ball-Kept t w x v room h;
  all_sound = λ s x. ground (arith, s x);
}

pub ball_treasure_add-Added : (t : ℕ) (w : World) → IsValid w → Added w (ball_treasure_add t w)
unfolding ball_treasure_add object_add set_thing
ball_treasure_add-Added t w v = elim (Bool-cases (leb max_total_objects w.num_objs)) [
  | inl e ↦ simp (ball_treasure_add, object_add, e) (Added-refl w v)
  | inr e ↦
      simp (ball_treasure_add, object_add, set_thing, e) (with_ball-Added t w v (ground arith))
]
