-- ===== src/Objects/Aging.antt =====
-- The age of one object, which `Objects_remove_timed_out` counts down.
use xpilot_fxi.Prelude.{
  ℕ, ◌+◌, ◌≡◌, ◌⊎◌, Bool, true, false, Option, none, some, arith, refl, ◌∙◌, ◌==◌, if◌then◌else◌,
  Bool-cases, inl, inr, ap,
}
use xpilot_fxi.Prelude.Int.{decrement}
use xpilot_fxi.Objects.World.{World, Thing, obj_ball, set_thing}
use xpilot_fxi.Objects.Loops.{age, passed_over, lives_on}
use xpilot_fxi.Objects.Pool.{live}
use xpilot_fxi.Objects.Settle.{sound, SameBut, set_thing-SameBut}
use xpilot_fxi.Objects.Refill.{Fresh, Kept}

-- What becomes of the object at `x` that was `t`, in use: in a frame that is not real, sparks and
-- debris stay as they are; otherwise its life is one less, and where that is 0 or less it is not in
-- use any more, unless its memory has served for a new ball.
abbrev pub Aged : Bool → Thing → World → ℕ → Type 0
Aged real t w x =
    ((passed_over real t ≡ true) × (live w x ≡ true) × (w.thing x ≡ t))
    ⊎ ((passed_over real t ≡ false)
        × (lives_on (decrement t.life) ≡ true)
        × (live w x ≡ true)
        × ((w.thing x).kind ≡ t.kind)
        × ((w.thing x).life ≡ decrement t.life))
    ⊎ ((passed_over real t ≡ false)
        × (lives_on (decrement t.life) ≡ false)
        × ((live w x ≡ false) ⊎ Fresh w x))

pub Kept-Aged :
    (real : Bool) (t : Thing) (w w' : World) (x : ℕ)
    → Kept w w' x
    → Aged real t w x
    → Aged real t w' x
Kept-Aged real t w w' x (inl (l, e)) (inl (p, a, b)) = inl (p, l ∙ a, e ∙ b)
Kept-Aged real t w w' x (inl (l, e)) (inr (inl (p, d, a, k, b))) =
    inr (inl (p, d, l ∙ a, ap (λ (u : Thing). u.kind) e ∙ k, ap (λ (u : Thing). u.life) e ∙ b))
Kept-Aged real t w w' x (inl (l, e)) (inr (inr (p, d, inl a))) = inr (inr (p, d, inl (l ∙ a)))
Kept-Aged real t w w' x (inl (l, e)) (inr (inr (p, d, inr (a, k, b, o, q)))) = inr (
    inr (
      p,
      d,
      inr (
        l ∙ a,
        ap (λ (u : Thing). u.kind) e ∙ k,
        ap (λ (u : Thing). u.life) e ∙ b,
        ap (λ (u : Thing). u.owner) e ∙ o,
        ap (λ (u : Thing). u.attached) e ∙ q,
      ),
    ))
Kept-Aged real t w w' x (inr (l, f)) (inl (p, a, b)) = cc
Kept-Aged real t w w' x (inr (l, f)) (inr (inl (p, d, a, k, b))) = cc
Kept-Aged real t w w' x (inr (l, f)) (inr (inr (p, d, a))) = inr (inr (p, d, inr f))

-- `u` is `w` with the life of the object `o` one less.
abbrev pub Older : ℕ → World → World → Type 0
Older o w u =
    SameBut o w u
    × ((u.thing o).kind ≡ (w.thing o).kind)
    × ((u.thing o).life ≡ decrement (w.thing o).life)
    × (sound (u.thing o) ≡ true)

older_lem :
    (o a b : ℕ) (w : World)
    → sound (w.thing o) ≡ true
    → Older o w (
        set_thing o
          (record (w.thing o) {
            life = decrement (w.thing o).life;
            loose_count = a;
            loose_count_ticks = b;
          })
          w)
unfolding set_thing
older_lem o a b w s = (set_thing-SameBut o _ w refl, ground arith, ground arith, ground arith)

pub ball_treasure :
    (w : World) (o : ℕ)
    → ((w.thing o).kind == obj_ball) ≡ true
    → sound (w.thing o) ≡ true
    → (b : ℕ) × ((w.thing o).treasure ≡ some b)
ball_treasure w o e s = named (w.thing o).treasure (ground arith)
  where
    named :
        (t : Option ℕ)
        → elim t as (λ _. Bool) [ none ↦ false | some b ↦ true ] ≡ true
        → (b : ℕ) × (t ≡ some b)
    named none h = cc
    named (some b) h = (b, refl)

-- An object that is sound can be aged.
pub age_lem :
    (real : Bool) (o : ℕ) (w : World)
    → sound (w.thing o) ≡ true
    → (u : World) × (age real o w ≡ some u) × Older o w u
unfolding age
age_lem real o w s = elim (Bool-cases ((w.thing o).kind == obj_ball)) [
  | inl e ↦
      let (b, tb) = ball_treasure w o e s in
      let t = w.thing o in
      elim (Bool-cases (w.have b)) [
        | inl h ↦ (_, simp (age, e, tb, h), older_lem o t.loose_count t.loose_count_ticks w s)
        | inr h ↦ (
          _,
          simp (age, e, tb, h),
          older_lem o (t.loose_count + 1)
              (if real then t.loose_count_ticks + 1 else t.loose_count_ticks) w s,
        )
      ]
  | inr e ↦
      (_, simp (age, e), older_lem o (w.thing o).loose_count (w.thing o).loose_count_ticks w s)
]
