-- ===== src/Objects/Visit.antt =====
-- The body of the loop of `Objects_remove_timed_out`.
use xpilot_fxi.Prelude.{
  ℕ, ◌+◌, ◌≤◌, ◌<◌, ◌≡◌, ◌≢◌, ◌⊎◌, Bool, true, false, some, arith, refl, ◌∙◌, ◌==◌, Bool-cases, inl,
  inr, ap,
}
use mathlib.Core.Path.{subst}
use xpilot_fxi.Objects.World.{World, max_total_objects, obj_ball}
use xpilot_fxi.Objects.Loops.{ball_treasure_add, time_over, passed_over, lives_on, visit}
use xpilot_fxi.Objects.Pool.{IsValid, live}
use xpilot_fxi.Objects.Settle.{SameBut-IsValid}
use xpilot_fxi.Objects.Removal.{Removed, object_remove-Removed}
use xpilot_fxi.Objects.Refill.{Fresh, Kept, AllSound, Added, Added-refl, ball_treasure_add-Added}
use xpilot_fxi.Objects.Aging.{Aged, Older, ball_treasure, age_lem}

-- What the visit of slot `i` makes of the pool.
pub record Visited (real : Bool) (i : ℕ) (w w' : World) : Type 0 where
  pub valid : IsValid w'
  pub all_sound : AllSound w'
  pub num_objs : i ≤ w'.num_objs
  pub below :
      (x : ℕ) → x < max_total_objects → w.id x < i → (w'.id x ≡ w.id x) × (w'.thing x ≡ w.thing x)
  pub above : (x : ℕ) → x < max_total_objects → i < w.id x → (i ≤ w'.id x) × Kept w w' x
  pub here : (i ≤ w'.id (w.slot i)) × Aged real (w.thing (w.slot i)) w' (w.slot i)

-- The object `o` has been removed, and a new ball may have come.
record Gone (o : ℕ) (u w : World) : Type 0 where
  pub valid : IsValid w
  pub all_sound : AllSound w
  pub num_objs : u.num_objs ≤ w.num_objs + 1
  pub place :
      (x : ℕ) → x < max_total_objects → (w.id x ≡ u.id x) ⊎ ((u.id o ≤ w.id x) × (u.id o ≤ u.id x))
  pub kept : (x : ℕ) → x < max_total_objects → x ≢ o → Kept u w x
  pub here : (live w o ≡ false) ⊎ Fresh w o

Removed-AllSound : (o : ℕ) (u v : World) → Removed o u v → AllSound u → AllSound v
Removed-AllSound o u v r s x = ground (arith, r.thing x, s x)

Removed-Kept :
    (o : ℕ) (u v w : World) (x : ℕ)
    → Removed o u v
    → x < max_total_objects
    → x ≢ o
    → Kept v w x
    → Kept u w x
Removed-Kept o u v w x r h ne k = ground (arith, k, r.thing x, r.live_other x h)

Removed-here :
    (o : ℕ) (u v w : World)
    → Removed o u v
    → o < max_total_objects
    → Kept v w o
    → (live w o ≡ false) ⊎ Fresh w o
Removed-here o u v w r h (inl (l, e)) = inl (l ∙ r.live_other o h ∙ ground arith)
Removed-here o u v w r h (inr (l, f)) = inr f

Added-Gone :
    (o : ℕ) (u v w : World)
    → o < max_total_objects
    → AllSound u
    → Removed o u v
    → Added v w
    → Gone o u w
Added-Gone o u v w ho s r a = record {
  valid = a.valid;
  all_sound = a.all_sound (Removed-AllSound o u v r s);
  num_objs = omega (arith, r.num_objs, a.num_objs);
  place = λ x h. rw (a.id x) (r.place x h);
  kept = λ x h ne. Removed-Kept o u v w x r h ne (a.kept x h);
  here = Removed-here o u v w r ho (a.kept o ho);
}

time_over_lem :
    (o : ℕ) (u : World)
    → IsValid u
    → AllSound u
    → o < max_total_objects
    → live u o ≡ true
    → (w : World) × (time_over o u ≡ some w) × Gone o u w
unfolding time_over
time_over_lem o u v s ho l =
    let (r, run, removed) = object_remove-Removed u o v ho l (s o) in
    elim (Bool-cases ((u.thing o).kind == obj_ball)) [
      | inl e ↦
          let (b, tb) = ball_treasure u o e (s o) in
          (
            ball_treasure_add b r,
            simp (time_over, run, e, tb),
            Added-Gone o u r _ ho s removed (ball_treasure_add-Added b r removed.valid),
          )
      | inr e ↦ (
        r,
        simp (time_over, run, e),
        Added-Gone o u r r ho s removed (Added-refl r removed.valid),
      )
    ]

module _ (real : Bool) (i : ℕ) (w : World) (v : IsValid w) (s : AllSound w)
    (hi : i < w.num_objs) where
  abbrev o : ℕ
  o = w.slot i

  i_in : i < max_total_objects
  i_in = omega (arith, v.few)

  o_in : o < max_total_objects
  o_in = v.slot_in i i_in

  at_i : w.id o ≡ i
  at_i = v.id_slot i i_in

  other : (x : ℕ) → w.id x ≢ i → x ≢ o
  other x ne e = ne (ap (λ y. w.id y) e ∙ at_i)

  stay-Visited : passed_over real (w.thing o) ≡ true → Visited real i w w
  stay-Visited p = record {
    valid = v;
    all_sound = s;
    num_objs = omega arith;
    below = λ x hx h. (refl, refl);
    above = λ x hx h. (omega arith, inl (refl, refl));
    here = (omega (arith, at_i), inl (p, ground (arith, at_i), refl));
  }

  Older-AllSound : (u : World) → Older o w u → AllSound u
  Older-AllSound u (same, k, l, so) x = ground (arith, same.thing x, s x)

  Older-Visited :
      (u : World)
      → passed_over real (w.thing o) ≡ false
      → Older o w u
      → lives_on (u.thing o).life ≡ true
      → Visited real i w u
  Older-Visited u p (same, k, l, so) lives = record {
    valid = SameBut-IsValid same v;
    all_sound = Older-AllSound u (same, k, l, so);
    num_objs = ground (arith, same.num_objs);
    below = λ x hx h. (same.id x, same.thing x (other x (omega arith)));
    above = λ x hx h. (
      ground (arith, same.id x),
      inl (ground (arith, same.id x, same.num_objs), same.thing x (other x (omega arith))),
    );
    here = (
      ground (arith, same.id o, at_i),
      inr (
          inl (
            p,
            subst (λ z. lives_on z ≡ true) l lives,
            ground (arith, same.id o, same.num_objs, at_i),
            k,
            l,
          )),
    );
  }

  Gone-Visited :
      (u w' : World)
      → passed_over real (w.thing o) ≡ false
      → Older o w u
      → lives_on (u.thing o).life ≡ false
      → Gone o u w'
      → Visited real i w w'
  Gone-Visited u w' p (same, k, l, so) lives g =
      let io : u.id o ≡ i = same.id o ∙ at_i in
      record {
        valid = g.valid;
        all_sound = g.all_sound;
        num_objs = ground (arith, g.num_objs, same.num_objs);
        below = λ x hx h. ground (
          arith,
          g.place x hx,
          g.kept x hx (other x (omega arith)),
          same.id x,
          same.num_objs,
          same.thing x (other x (omega arith)),
        );
        above = λ x hx h. (
          ground (arith, g.place x hx, same.id x),
          ground (
            arith,
            g.kept x hx (other x (omega arith)),
            same.id x,
            same.num_objs,
            same.thing x (other x (omega arith)),
          ),
        );
        here = (
          ground (arith, g.place o o_in, same.id o, at_i),
          inr (inr (p, subst (λ z. lives_on z ≡ false) l lives, g.here)),
        );
      }

  pub visit_lem : (w' : World) × (visit real o w ≡ some w') × Visited real i w w'
  unfolding visit
  visit_lem =
      let (u, aged, older) = age_lem real o w (s o) in
      let (same, k, l, so) = older in
      elim (Bool-cases (passed_over real (w.thing o))) [
        | inl p ↦ (w, simp (visit, p), stay-Visited p)
        | inr p ↦ elim (Bool-cases (lives_on (u.thing o).life)) [
          | inl lives ↦ (u, simp (visit, p, aged, lives), Older-Visited u p older lives)
          | inr ends ↦
              let u_live : live u o ≡ true = ground (arith, same.id o, same.num_objs, at_i) in
              let (w', run, gone) =
                time_over_lem o u (SameBut-IsValid same v) (Older-AllSound u older) o_in u_live in
              (w', simp (visit, p, aged, ends, run), Gone-Visited u w' p older ends gone)
        ]
      ]
