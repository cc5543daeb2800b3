-- ===== src/Objects/Examples.antt =====
-- A pool with a ball and a shot in use, and the theorems at it.
use xpilot_fxi.Prelude.{
  ℕ, ◌+◌, ◌≡◌, ◌⊎◌, true, false, none, some, [], ◌∷◌, arith, refl, ◌==◌, ◌||◌, if◌then◌else◌,
}
use xpilot_fxi.Prelude.Int.{pos}
use xpilot_fxi.Objects.World.{
  World, Thing, blank, max_total_objects, obj_ball, obj_shot, object_add, object_remove,
}
use xpilot_fxi.Objects.Loops.{shots_allocate, objects_time_out, objects_remove_timed_out}
use xpilot_fxi.Objects.Pool.{IsValid, live, shots_allocate-IsValid, object_add_lem}
use xpilot_fxi.Objects.Settle.{sound}
use xpilot_fxi.Objects.Removal.{object_remove_lem}
use xpilot_fxi.Objects.Refill.{Fresh}
use xpilot_fxi.Objects.Aging.{Aged}
use xpilot_fxi.Objects.Timeout.{objects_remove_timed_out_lem}
use xpilot_fxi.Objects.RoundEnd.{round_end_lem}

abbrev before : World
before = record {
  num_objs = 0;
  slot = λ _. 0;
  id = λ _. 0;
  thing = λ _. blank;
  players = 1 ∷ [];
  shots = λ _. 1;
  ball_tmp = λ _. none;
  has_ball = λ _. false;
  uses_connector = λ _. false;
  have = λ _. true;
}

abbrev begun : World
begun = shots_allocate max_total_objects before

begun-IsValid : IsValid begun
begun-IsValid = shots_allocate-IsValid before refl

abbrev ball : Thing
ball = record blank { kind = obj_ball; life = pos 1; treasure = some 0 }

abbrev shot : Thing
shot = record blank { kind = obj_shot; life = pos 1; owner = some 1 }

abbrev things : ℕ → Thing
things x = if x == 0 then ball else if x == 1 then shot else blank

abbrev in_play : World
in_play = record begun { num_objs = 2; thing = things }

in_play-IsValid : IsValid in_play
unfolding shots_allocate
in_play-IsValid =
    let v = begun-IsValid in
    record {
      few = omega arith;
      slot_in = v.slot_in;
      id_in = v.id_in;
      id_slot = v.id_slot;
      slot_id = v.slot_id;
    }

in_play-sound : (y : ℕ) → sound (in_play.thing y) ≡ true
in_play-sound y = ground arith

object_add_lem_example :
    (o : ℕ) × (w' : World) × (object_add in_play ≡ (some o, w'))
    × IsValid w'
    × (live in_play o ≡ false)
    × (live w' 2 ≡ (live in_play 2 || (2 == o)))
    × (w'.thing 2 ≡ blank)
unfolding shots_allocate
object_add_lem_example = object_add_lem in_play 2 in_play-IsValid (omega arith) (omega arith)

object_remove_lem_example :
    (w' : World) × (object_remove 0 in_play ≡ some w')
    × IsValid w'
    × (w'.num_objs + 1 ≡ 2)
    × (live w' 1 ≡ true)
    × (w'.thing 1 ≡ shot)
unfolding shots_allocate
object_remove_lem_example =
    object_remove_lem in_play 0 1 in_play-IsValid (omega arith) (omega arith) refl refl

objects_remove_timed_out_lem_example :
    (w' : World) × (objects_remove_timed_out true in_play ≡ some w')
    × IsValid w'
    × Aged true shot w' 1
unfolding shots_allocate
objects_remove_timed_out_lem_example =
    objects_remove_timed_out_lem true in_play 1 in_play-IsValid in_play-sound (omega arith) refl

round_end_lem_example :
    (w' : World) × (objects_remove_timed_out true (objects_time_out in_play) ≡ some w')
    × IsValid w'
    × ((live w' 0 ≡ false) ⊎ Fresh w' 0)
unfolding shots_allocate
round_end_lem_example = round_end_lem in_play 0 in_play-IsValid in_play-sound (omega arith) refl
