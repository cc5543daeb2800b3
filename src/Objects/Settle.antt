-- ===== src/Objects/Settle.antt =====
-- The `switch` of `Object_remove`: what it does to the player or the treasure of the object.
use xpilot_fxi.Prelude.{
  ℕ, zero, suc, ◌+◌, ◌-◌, ◌≡◌, ◌≢◌, Bool, true, false, Option, none, some, arith, refl, ◌∙◌, ◌==◌,
  ◌&&◌, ◌||◌, not, if◌then◌else◌, Bool-cases, inl, inr,
}
use xpilot_fxi.Prelude.Memory.{update}
use xpilot_fxi.Objects.World.{
  World, Thing, obj_ball, obj_shot, is_at, set_thing, detach_loop, interrupt, lose_ball,
  ball_detach, forget, let_go, empty_box, remove_ball, remove_shot, settle,
}
use xpilot_fxi.Objects.Pool.{IsValid}

-- A ball has a treasure, and an attached one has an owner: the pointers that removal follows.
abbrev pub sound : Thing → Bool
sound t =
    not (t.kind == obj_ball)
    || (elim t.treasure [ none ↦ false | some b ↦ true ]
        && (not t.attached || elim t.owner [ none ↦ false | some pl ↦ true ]))

-- The pool is the same, and so are all objects but `o`.
pub record SameBut (o : ℕ) (w w' : World) : Type 0 where
  pub num_objs : w'.num_objs ≡ w.num_objs
  pub slot : (i : ℕ) → w'.slot i ≡ w.slot i
  pub id : (x : ℕ) → w'.id x ≡ w.id x
  pub thing : (x : ℕ) → x ≢ o → w'.thing x ≡ w.thing x
  pub treasure : (w'.thing o).treasure ≡ (w.thing o).treasure

SameBut-refl : (o : ℕ) (w : World) → SameBut o w w
SameBut-refl o w = record {
  num_objs = refl;
  slot = λ i. refl;
  id = λ x. refl;
  thing = λ x ne. refl;
  treasure = refl;
}

SameBut-trans : {o : ℕ} {u v w : World} → SameBut o u v → SameBut o v w → SameBut o u w
SameBut-trans a b = record {
  num_objs = b.num_objs ∙ a.num_objs;
  slot = λ i. b.slot i ∙ a.slot i;
  id = λ x. b.id x ∙ a.id x;
  thing = λ x ne. b.thing x ne ∙ a.thing x ne;
  treasure = b.treasure ∙ a.treasure;
}

pub set_thing-SameBut :
    (o : ℕ) (t : Thing) (w : World)
    → t.treasure ≡ (w.thing o).treasure
    → SameBut o w (set_thing o t w)
unfolding set_thing
set_thing-SameBut o t w e = record {
  num_objs = refl;
  slot = λ i. refl;
  id = λ x. refl;
  thing = λ x ne. ground arith;
  treasure = ground arith;
}

-- What belongs to players and treasures does not matter.
SameBut-others :
    {o : ℕ} {w v : World} {shots : ℕ → ℕ} {tmp : ℕ → Option ℕ} {ball connector have : ℕ → Bool}
    → SameBut o w v
    → SameBut o w (record v {
      shots = shots;
      ball_tmp = tmp;
      has_ball = ball;
      uses_connector = connector;
      have = have;
    })
SameBut-others s = record {
  num_objs = s.num_objs;
  slot = s.slot;
  id = s.id;
  thing = s.thing;
  treasure = s.treasure;
}

if-SameBut :
    (o : ℕ) (w : World) (b : Bool) (x y : ℕ × World)
    → (b ≡ true → SameBut o w x.1)
    → SameBut o w y.1
    → SameBut o w (if b then x else y).1
if-SameBut o w true x y p q = p refl
if-SameBut o w false x y p q = q

loosen-SameBut :
    (o p : ℕ) (w : World)
    → (o == p) ≡ true
    → SameBut o w (set_thing p (record (w.thing p) { attached = false }) w)
unfolding set_thing
loosen-SameBut o p w e = record {
  num_objs = refl;
  slot = λ i. refl;
  id = λ x. refl;
  thing = λ x ne. ground arith;
  treasure = ground arith;
}

-- The loop of `Ball_detach` changes the wanted ball only.
detach_loop-SameBut :
    (pl o n i cnt : ℕ) (w : World) → SameBut o w (detach_loop pl (some o) n i cnt w).1
unfolding detach_loop
detach_loop-SameBut pl o zero i cnt w = SameBut-refl o w
detach_loop-SameBut pl o (suc n) i cnt w =
    let p = w.slot i in
    let t = w.thing p in
    let v = set_thing p (record t { attached = false }) w in
    let loosened = detach_loop pl (some o) n (i + 1) cnt v in
    let counted = detach_loop pl (some o) n (i + 1) (cnt + 1) w in
    if-SameBut o w ((t.kind == obj_ball) && t.attached && is_at t.owner pl)
      (if o == p then loosened else counted) (detach_loop pl (some o) n (i + 1) cnt w)
      (λ _.
        if-SameBut o w (o == p) loosened counted
          (λ e. SameBut-trans (loosen-SameBut o p w e) (detach_loop-SameBut pl o n (i + 1) cnt v))
          (detach_loop-SameBut pl o n (i + 1) (cnt + 1) w))
      (detach_loop-SameBut pl o n (i + 1) cnt w)

interrupt-SameBut : (pl o : ℕ) (w : World) → SameBut o w (interrupt pl (some o) w)
unfolding interrupt
interrupt-SameBut pl o w = split _
  where
    split :
        (b : Bool)
        → SameBut o w (
            if b
            then record w {
              ball_tmp = update w.ball_tmp pl none;
              uses_connector = update w.uses_connector pl false;
            }
            else w)
    split true = SameBut-others (SameBut-refl o w)
    split false = SameBut-refl o w

lose_ball-SameBut :
    (pl o : ℕ) (w : World) (r : ℕ × World) → SameBut o w r.1 → SameBut o w (lose_ball pl r)
unfolding lose_ball
lose_ball-SameBut pl o w (cnt, w') s = split (cnt == 0)
  where
    split :
        (b : Bool)
        → SameBut o w (if b then record w' { has_ball = update w'.has_ball pl false } else w')
    split true = SameBut-others s
    split false = s

ball_detach-SameBut : (pl o : ℕ) (w : World) → SameBut o w (ball_detach pl (some o) w)
unfolding ball_detach
ball_detach-SameBut pl o w = split _
  where
    w' : World
    w' = interrupt pl (some o) w

    split :
        (b : Bool)
        → SameBut o w (if b then lose_ball pl (detach_loop pl (some o) w'.num_objs 0 0 w') else w')
    split true =
        lose_ball-SameBut pl o w (detach_loop pl (some o) w'.num_objs 0 0 w')
          (SameBut-trans (interrupt-SameBut pl o w) (detach_loop-SameBut pl o w'.num_objs 0 0 w'))
    split false = interrupt-SameBut pl o w

let_go_lem :
    (o : ℕ) (w : World)
    → (w.thing o).kind ≡ obj_ball
    → sound (w.thing o) ≡ true
    → (w' : World) × (let_go o w ≡ some w') × SameBut o w w'
unfolding let_go
let_go_lem o w e s = go (w.thing o).attached (w.thing o).owner (ground arith)
  where
    go :
        (b : Bool) (owner : Option ℕ)
        → (not b || elim owner [ none ↦ false | some pl ↦ true ]) ≡ true
        → (w' : World) × ((if b
              then elim owner [ none ↦ none | some pl ↦ some (ball_detach pl (some o) w) ]
              else some (record w { ball_tmp = forget o w.players w.ball_tmp }))
            ≡ some w')
          × SameBut o w w'
    go true (some pl) h = (ball_detach pl (some o) w, refl, ball_detach-SameBut pl o w)
    go true none h = cc
    go false owner h = (
      record w { ball_tmp = forget o w.players w.ball_tmp },
      refl,
      SameBut-others (SameBut-refl o w),
    )

empty_box_lem :
    (o : ℕ) (w v : World) (t : Option ℕ)
    → elim t as (λ _. Bool) [ none ↦ false | some b ↦ true ] ≡ true
    → SameBut o w v
    → (w' : World) × (empty_box t v ≡ some w') × SameBut o w w'
unfolding empty_box
empty_box_lem o w v none h s = cc
empty_box_lem o w v (some b) h s =
    (record v { have = update v.have b false }, refl, SameBut-others s)

remove_ball_lem :
    (o : ℕ) (w : World)
    → (w.thing o).kind ≡ obj_ball
    → sound (w.thing o) ≡ true
    → (w' : World) × (remove_ball o w ≡ some w') × SameBut o w w'
unfolding remove_ball
remove_ball_lem o w e s =
    let (v, run, same) = let_go_lem o w e s in
    let (u, run', same') =
      empty_box_lem o w v (v.thing o).treasure (rw same.treasure (ground arith)) same in
    (u, simp (remove_ball, run, run'), same')

remove_shot-SameBut : (o : ℕ) (w : World) → SameBut o w (remove_shot o w)
unfolding remove_shot
remove_shot-SameBut o w = split (w.thing o).owner
  where
    split :
        (owner : Option ℕ)
        → SameBut o w (elim owner [
          | none ↦ w
          | some pl ↦ record w { shots = update w.shots pl (w.shots pl - 1) }
        ])
    split none = SameBut-refl o w
    split (some pl) = SameBut-others (SameBut-refl o w)

-- An object that is sound can be settled.
pub settle_lem :
    (o : ℕ) (w : World)
    → sound (w.thing o) ≡ true
    → (w' : World) × (settle o w ≡ some w') × SameBut o w w'
unfolding settle
settle_lem o w s = elim (Bool-cases ((w.thing o).kind == obj_ball)) [
  | inl e ↦
      let (v, run, same) = remove_ball_lem o w (ground arith) s in (v, simp (settle, e, run), same)
  | inr e ↦ elim (Bool-cases ((w.thing o).kind == obj_shot)) [
    | inl e' ↦ (remove_shot o w, simp (settle, e, e'), remove_shot-SameBut o w)
    | inr e' ↦ (w, simp (settle, e, e'), SameBut-refl o w)
  ]
]

pub SameBut-IsValid : {o : ℕ} {w w' : World} → SameBut o w w' → IsValid w → IsValid w'
SameBut-IsValid s v = record {
  few = ground (arith, s.num_objs, v.few);
  slot_in = λ i h. ground (arith, s.slot i, v.slot_in i h);
  id_in = λ x h. ground (arith, s.id x, v.id_in x h);
  id_slot = λ i h. rw (s.slot i) (s.id _ ∙ v.id_slot i h);
  slot_id = λ x h. rw (s.id x) (s.slot _ ∙ v.slot_id x h);
}
