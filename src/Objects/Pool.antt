-- ===== src/Objects/Pool.antt =====
-- The pool as a permutation of the objects, and `Object_add` on it.
use xpilot_fxi.Prelude.{
  ℕ, ◌+◌, ◌-◌, ◌≤◌, ◌<◌, ◌≡◌, ◌⊎◌, Bool, true, false, some, arith, refl, ◌==◌, ◌&&◌, ◌||◌, not, ltb,
}
use xpilot_fxi.Objects.World.{World, max_total_objects, object_add, unlink}
use xpilot_fxi.Objects.Loops.{shots_allocate}

-- The slots and the `id` fields are inverse to one another.
pub record IsValid (w : World) : Type 0 where
  pub few : w.num_objs ≤ max_total_objects
  pub slot_in : (i : ℕ) → i < max_total_objects → w.slot i < max_total_objects
  pub id_in : (o : ℕ) → o < max_total_objects → w.id o < max_total_objects
  pub id_slot : (i : ℕ) → i < max_total_objects → w.id (w.slot i) ≡ i
  pub slot_id : (o : ℕ) → o < max_total_objects → w.slot (w.id o) ≡ o

-- The object is in use.
abbrev pub live : World → ℕ → Bool
live w o = ltb (w.id o) w.num_objs

-- `Shots_allocate` makes a pool of which nothing is in use, when nothing was.
pub shots_allocate-IsValid :
    (w : World) → w.num_objs ≡ 0 → IsValid (shots_allocate max_total_objects w)
unfolding shots_allocate
shots_allocate-IsValid w e = record {
  few = omega arith;
  slot_in = λ i h. ground arith;
  id_in = λ o h. ground arith;
  id_slot = λ i h. ground arith;
  slot_id = λ o h. ground arith;
}

-- While the pool is not full, `Object_add` gives an object `o` that was not in use, and of all
-- objects, such as `x`, just this one is in use afterwards that was not before. The pool stays
-- valid.
pub object_add_lem :
    (w : World) (x : ℕ)
    → IsValid w
    → w.num_objs < max_total_objects
    → x < max_total_objects
    → (o : ℕ) × (w' : World) × (object_add w ≡ (some o, w'))
      × IsValid w'
      × (live w o ≡ false)
      × (live w' x ≡ (live w x || (x == o)))
      × (w'.thing x ≡ w.thing x)
unfolding object_add
object_add_lem w x v room h =
    let new = v.id_slot w.num_objs room in
    let back = v.slot_id x h in
    (
      w.slot w.num_objs,
      record w { num_objs = w.num_objs + 1 },
      ground arith,
      record {
        few = omega arith;
        slot_in = v.slot_in;
        id_in = v.id_in;
        id_slot = v.id_slot;
        slot_id = v.slot_id;
      },
      ground arith,
      ground (arith, ap_id w x),
      refl,
    )
  where
    ap_id : (w : World) (x : ℕ) → x ≡ w.slot w.num_objs → w.id x ≡ w.id (w.slot w.num_objs)
    ap_id w x e = cc

-- `unlink` keeps the pool valid, and takes just the object `o` out of use.
pub unlink-IsValid :
    (w : World) (o : ℕ) → IsValid w → o < max_total_objects → live w o ≡ true → IsValid (unlink o w)
unfolding unlink
unlink-IsValid w o v h l =
    let n_in : w.num_objs - 1 < max_total_objects = ground arith in
    let moved = v.id_slot (w.num_objs - 1) n_in in
    let there = v.slot_id o h in
    record {
      few = omega arith;
      slot_in = λ i g. ground (arith, v.slot_in i g, v.slot_in (w.num_objs - 1) n_in);
      id_in = λ x g. ground (arith, v.id_in x g, v.id_in o h);
      id_slot = λ i g. ground (arith, v.id_slot i g, v.slot_in i g);
      slot_id = λ x g. ground (arith, v.slot_id x g);
    }

-- The other objects below `o`'s place keep theirs, and those above stay above or come to it.
pub unlink_lem :
    (w : World) (o x : ℕ)
    → IsValid w
    → o < max_total_objects
    → x < max_total_objects
    → live w o ≡ true
    → (live (unlink o w) x ≡ (live w x && not (x == o)))
      × (((unlink o w).id x ≡ w.id x) ⊎ ((w.id o ≤ (unlink o w).id x) × (w.id o ≤ w.id x)))
unfolding unlink
unlink_lem w o x v ho hx l =
    let there = v.slot_id x hx in
    let here = v.slot_id o ho in
    let n_in : w.num_objs - 1 < max_total_objects = ground arith in
    let moved = v.id_slot (w.num_objs - 1) n_in in
    let i_in = v.id_in o ho in (ground arith, ground arith)
