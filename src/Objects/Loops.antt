-- ===== src/Objects/Loops.antt =====
-- server/object.c: the loops over all objects; and server/shot.c: `Ball_treasure_add` and
-- `Shots_allocate`.
use xpilot_fxi.Prelude.{
  ℕ, zero, suc, ◌+◌, Bool, true, false, Option, none, some, ◌==◌, ◌&&◌, ◌||◌, not, ltb,
  if◌then◌else◌,
}
use xpilot_fxi.Prelude.Int.{ℤ, pos, negsuc, decrement}
use xpilot_fxi.Prelude.Memory.{update}
use xpilot_fxi.Objects.World.{
  obj_debris, obj_spark, obj_ball, max_object_life, Thing, blank, World, set_thing, object_add,
  object_remove,
}

-- `Ball_treasure_add`; what it does not set stays.
unfoldable pub ball_treasure_add : ℕ → World → World
unfolding object_add set_thing
ball_treasure_add t w =
    let (ball, w') = object_add w in
    elim ball [
      | none ↦ w
      | some b ↦
          record (set_thing b
            (record (w'.thing b) {
              kind = obj_ball;
              life = max_object_life;
              owner = none;
              treasure = some t;
              attached = false;
            })
            w') { have = update w'.have t true }
    ]

-- `obj->obj_life--` and the counts of a loose ball. `none` is an access through a null pointer.
unfoldable pub age : Bool → ℕ → World → Option World
unfolding set_thing
age real o w =
    let t = w.thing o in
    let older : Thing = record t { life = decrement t.life } in
    let looser : Thing = record older {
      loose_count = t.loose_count + 1;
      loose_count_ticks = if real then t.loose_count_ticks + 1 else t.loose_count_ticks;
    } in
    if t.kind == obj_ball
    then elim t.treasure [
      | none ↦ none
      | some b ↦ some (set_thing o (if w.have b then older else looser) w)
    ]
    else some (set_thing o older w)

-- An object whose time is over is removed, and a ball goes back to its box.
unfoldable pub time_over : ℕ → World → Option World
unfolding object_remove ball_treasure_add
time_over o w =
    let t = w.thing o in
    elim (object_remove o w) [
      | none ↦ none
      | some w' ↦
          if t.kind == obj_ball
          then elim t.treasure [ none ↦ none | some b ↦ some (ball_treasure_add b w') ]
          else some w'
    ]

-- Sparks and debris live in ticks: they are passed over in a frame that is not real.
abbrev pub passed_over : Bool → Thing → Bool
passed_over real t = not real && ((t.kind == obj_spark) || (t.kind == obj_debris))

abbrev pub lives_on : ℤ → Bool
lives_on (pos zero) = false
lives_on (pos (suc n)) = true
lives_on (negsuc n) = false

-- The body of the loop of `Objects_remove_timed_out`.
unfoldable pub visit : Bool → ℕ → World → Option World
unfolding age time_over
visit real o w = if passed_over real (w.thing o) then some w else elim (age real o w) [
  | none ↦ none
  | some w' ↦ if lives_on (w'.thing o).life then some w' else time_over o w'
]

-- The loop downwards over the slots below `n`, and the function; `real` is `Frame_is_real()`.
unfoldable pub visit_below : Bool → ℕ → World → Option World
unfolding visit
visit_below real zero w = some w
visit_below real (suc i) w = elim (visit real (w.slot i) w) [
  | none ↦ none
  | some w' ↦ visit_below real i w'
]

unfoldable pub objects_remove_timed_out : Bool → World → Option World
unfolding visit_below
objects_remove_timed_out real w = visit_below real w.num_objs w

-- `Objects_time_out`: the loop over the slots from `i` on, `n` of them.
unfoldable pub expire_from : ℕ → ℕ → World → World
unfolding set_thing
expire_from zero i w = w
expire_from (suc n) i w =
    let o = w.slot i in expire_from n (i + 1) (set_thing o (record (w.thing o) { life = pos 0 }) w)

unfoldable pub objects_time_out : World → World
unfolding expire_from
objects_time_out w = expire_from w.num_objs 0 w

-- `Shots_allocate`: slot `i` holds object `i`, for `i` below `number`.
unfoldable pub shots_allocate : ℕ → World → World
shots_allocate number w = record w {
  slot = λ i. if ltb i number then i else w.slot i;
  id = λ o. if ltb o number then o else w.id o;
  thing = λ o. if ltb o number then blank else w.thing o;
}
