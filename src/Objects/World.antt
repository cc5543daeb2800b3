-- ===== src/Objects/World.antt =====
-- server/object.c: `Object_add` and `Object_remove`; and server/shot.c: `Ball_detach`. Objects, players
-- and treasures are addresses; of an object the fields are kept that this code reads, so positions,
-- masses and colours are left out.
use xpilot_fxi.Prelude.{
  ℕ, zero, suc, ◌+◌, ◌-◌, ◌^◌, Bool, true, false, Option, none, some, List, [], ◌∷◌, ◌==◌, ◌&&◌,
  leb, if◌then◌else◌,
}
use xpilot_fxi.Prelude.Int.{ℤ, pos}
use xpilot_fxi.Prelude.Memory.{update}

abbrev pub max_total_objects : ℕ
max_total_objects = 16384

-- `OBJ_DEBRIS` and so on.
abbrev pub obj_debris : ℕ
obj_debris = 1

abbrev pub obj_spark : ℕ
obj_spark = 2

abbrev pub obj_ball : ℕ
obj_ball = 3

abbrev pub obj_shot : ℕ
obj_shot = 4

-- `MAX_OBJECT_LIFE`, which is `INT_MAX`.
abbrev pub max_object_life : ℤ
max_object_life = pos (2 ^ 31 - 1)

-- `object_t` without its `id`; `none` is a null pointer.
pub record Thing : Type 0 where
  pub kind : ℕ
  pub life : ℤ
  pub owner : Option ℕ
  pub treasure : Option ℕ
  pub attached : Bool
  pub loose_count : ℕ
  pub loose_count_ticks : ℕ

-- What `memset` leaves.
abbrev pub blank : Thing
blank = record {
  kind = 0;
  life = pos 0;
  owner = none;
  treasure = none;
  attached = false;
  loose_count = 0;
  loose_count_ticks = 0;
}

-- The globals: `slot` is `Obj`, and `id` and `thing` are the fields of the object at an address.
-- A player has `shots`, `ball_tmp` and the bits `HAS_BALL` and `USES_CONNECTOR`; `have` says which
-- treasures are in their box. `shots` is never negative.
pub record World : Type 0 where
  pub num_objs : ℕ
  pub slot : ℕ → ℕ
  pub id : ℕ → ℕ
  pub thing : ℕ → Thing
  pub players : List ℕ
  pub shots : ℕ → ℕ
  pub ball_tmp : ℕ → Option ℕ
  pub has_ball : ℕ → Bool
  pub uses_connector : ℕ → Bool
  pub have : ℕ → Bool

-- `p == q` where `p` may be null and `q` is not.
abbrev pub is_at : Option ℕ → ℕ → Bool
is_at none q = false
is_at (some p) q = p == q

unfoldable pub set_thing : ℕ → Thing → World → World
set_thing o t w = record w { thing = update w.thing o t }

-- `Object_add`
unfoldable pub object_add : World → Option ℕ × World
object_add w =
    if leb max_total_objects w.num_objs
    then (none, w)
    else (some (w.slot w.num_objs), record w { num_objs = w.num_objs + 1 })

-- The loop of `Ball_detach` over the objects from `i` on, `n` of them, with its `cnt`.
unfoldable pub detach_loop : ℕ → Option ℕ → ℕ → ℕ → ℕ → World → ℕ × World
unfolding set_thing
detach_loop pl ball zero i cnt w = (cnt, w)
detach_loop pl ball (suc n) i cnt w =
    let o = w.slot i in
    let t = w.thing o in
    let mine = (t.kind == obj_ball) && t.attached && is_at t.owner pl in
    let wanted : Bool = elim ball [ none ↦ true | some b ↦ b == o ] in
    let loosened =
      detach_loop pl ball n (i + 1) cnt (set_thing o (record t { attached = false }) w) in
    let counted = detach_loop pl ball n (i + 1) (cnt + 1) w in
    let passed = detach_loop pl ball n (i + 1) cnt w in
    if mine then if wanted then loosened else counted else passed

unfoldable pub interrupt : ℕ → Option ℕ → World → World
interrupt pl ball w =
    if elim ball [ none ↦ true | some b ↦ is_at (w.ball_tmp pl) b ]
    then record w {
      ball_tmp = update w.ball_tmp pl none;
      uses_connector = update w.uses_connector pl false;
    }
    else w

-- What follows the loop of `Ball_detach`.
unfoldable pub lose_ball : ℕ → ℕ × World → World
lose_ball pl (cnt, w) = if cnt == 0 then record w { has_ball = update w.has_ball pl false } else w

unfoldable pub ball_detach : ℕ → Option ℕ → World → World
unfolding interrupt detach_loop lose_ball
ball_detach pl ball w =
    let w' = interrupt pl ball w in
    if w'.has_ball pl then lose_ball pl (detach_loop pl ball w'.num_objs 0 0 w') else w'

-- The players' pointers after the loop over all players in `Object_remove`.
unfoldable pub forget : ℕ → List ℕ → (ℕ → Option ℕ) → ℕ → Option ℕ
forget o [] tmp = tmp
forget o (p ∷ players) tmp = forget o players (if is_at (tmp p) o then update tmp p none else tmp)

-- The case of a ball in `Object_remove`; `none` is an access through a null pointer.
unfoldable pub let_go : ℕ → World → Option World
unfolding ball_detach forget
let_go o w =
    if (w.thing o).attached
    then elim (w.thing o).owner [ none ↦ none | some pl ↦ some (ball_detach pl (some o) w) ]
    else some (record w { ball_tmp = forget o w.players w.ball_tmp })

unfoldable pub empty_box : Option ℕ → World → Option World
empty_box none w = none
empty_box (some t) w = some (record w { have = update w.have t false })

unfoldable pub remove_ball : ℕ → World → Option World
unfolding let_go empty_box
remove_ball o w = elim (let_go o w) [ none ↦ none | some w' ↦ empty_box (w'.thing o).treasure w' ]

unfoldable pub remove_shot : ℕ → World → World
remove_shot o w = elim (w.thing o).owner [
  | none ↦ w
  | some pl ↦ record w { shots = update w.shots pl (w.shots pl - 1) }
]

-- The `switch` of `Object_remove`, whose other cases do nothing.
unfoldable pub settle : ℕ → World → Option World
unfolding remove_ball remove_shot
settle o w =
    if (w.thing o).kind == obj_ball
    then remove_ball o w
    else if (w.thing o).kind == obj_shot
    then some (remove_shot o w)
    else some w

-- The rest of `Object_remove`: the last object in use takes the place of the removed one.
unfoldable pub unlink : ℕ → World → World
unlink o w =
    let n = w.num_objs - 1 in
    let i = w.id o in
    let moved = update (update w.slot i (w.slot n)) n o in
    record w {
      num_objs = n;
      slot = moved;
      id = update (update (update w.id (moved i) i) (moved n) n) o n;
      thing = update w.thing o blank;
    }

unfoldable pub object_remove : ℕ → World → Option World
unfolding settle unlink
object_remove o w = elim (settle o w) [ none ↦ none | some w' ↦ some (unlink o w') ]
