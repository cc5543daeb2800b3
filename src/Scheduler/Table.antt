-- ===== src/Scheduler/Table.antt =====
-- The table of input handlers is a finite map from descriptors to handlers.
use xpilot_fxi.Prelude.{
  ℕ, zero, suc, ◌+◌, ◌-◌, ◌≤◌, ◌<◌, ◌≡◌, ◌⊎◌, inl, inr, Bool, true, false, Option, none, some, ◌==◌,
  if◌then◌else◌, arith, refl, ap, ◌∙◌, Bool-cases, ==_iff, ==_refl, sym,
}
use xpilot_fxi.Prelude.Int.{ℤ, pos, negsuc, ltb_ℤ}
use xpilot_fxi.Prelude.Memory.{update}
use xpilot_fxi.Scheduler.Handlers.{
  Sched, out_of_range, initialize, enter, highest_below, is_ℕ, leave,
}

-- The handler that a descriptor that is ready gets, and what the scheduler finds at it.
abbrev pub handler_of : Sched → ℕ → Option (ℕ × ℕ)
handler_of s fd = if s.input_mask fd then s.input_handlers (fd - s.min_fd) else none

-- Each descriptor in the mask is in the range and has its own entry.
pub record IsValid (s : Sched) : Type 0 where
  pub inside : (fd : ℕ) → s.input_mask fd ≡ true → out_of_range fd s ≡ false
  pub own :
      (fd : ℕ)
      → s.input_mask fd ≡ true
      → (func : ℕ) × (s.input_handlers (fd - s.min_fd) ≡ some (fd, func))
  pub below : (fd : ℕ) → s.input_mask fd ≡ true → ltb_ℤ s.max_fd (pos fd) ≡ false
  pub unused : s.input_inited ≡ false → (fd : ℕ) → s.input_mask fd ≡ false

highest_below-least :
    (mask : ℕ → Bool) (min_fd k fd : ℕ)
    → min_fd ≤ fd
    → fd < min_fd + k
    → mask fd ≡ true
    → ltb_ℤ (highest_below mask min_fd k) (pos fd) ≡ false
unfolding highest_below
highest_below-least mask min_fd zero fd h l e = absurd (omega arith)
highest_below-least mask min_fd (suc k) fd h l e = elim (Bool-cases (fd == min_fd + k)) [
  | inl s ↦
      let same : fd ≡ min_fd + k = (==_iff _ _).0 s in
      let set : mask (min_fd + k) ≡ true = ap mask (sym same) ∙ e in
      rw (set, highest_below) (ground (arith, same))
  | inr s ↦
      let rest = highest_below-least mask min_fd k fd h (ground arith) e in
      go (mask (min_fd + k)) (highest_below mask min_fd k) rest
]
  where
    go :
        (b : Bool) (r : ℤ)
        → ltb_ℤ r (pos fd) ≡ false
        → ltb_ℤ (if b then pos (min_fd + k) else r) (pos fd) ≡ false
    go true r p = ground arith
    go false r p = p

-- The entries of two descriptors in the range are different.
apart :
    (s : Sched) (fd g : ℕ)
    → out_of_range fd s ≡ false
    → out_of_range g s ≡ false
    → (g == fd) ≡ false
    → (g - s.min_fd == fd - s.min_fd) ≡ false
apart s fd g h l e = ground arith

-- The lookup of `g` where only the mask and the entry of `fd` change.
handler_of-other :
    (s : Sched) (fd g : ℕ) (entry : Option (ℕ × ℕ)) (b : Bool)
    → IsValid s
    → out_of_range fd s ≡ false
    → (g == fd) ≡ false
    → (if update s.input_mask fd b g
        then update s.input_handlers (fd - s.min_fd) entry (g - s.min_fd)
        else none)
      ≡ handler_of s g
handler_of-other s fd g entry b v h e = elim (Bool-cases (s.input_mask g)) [
  | inl m ↦ let other = apart s fd g h (v.inside g m) e in rw (e, m, other) refl
  | inr m ↦ rw (e, m) refl
]

not_both : (b : Bool) → b ≡ true → b ≡ false → ⊥
not_both true e e' = cc
not_both false e e' = cc

pub enter-IsValid :
    (func fd : ℕ) (s : Sched)
    → IsValid s
    → s.input_inited ≡ true
    → out_of_range fd s ≡ false
    → IsValid (enter func fd s)
unfolding enter
enter-IsValid func fd s v i h = record {
  inside = λ g m. elim (Bool-cases (g == fd)) [
    | inl e ↦ let same : g ≡ fd = (==_iff g fd).0 e in ap (λ k. out_of_range k s) same ∙ h
    | inr e ↦ v.inside g (only_old g m e)
  ];
  own = λ g m. elim (Bool-cases (g == fd)) [
    | inl e ↦
        let same : g ≡ fd = (==_iff g fd).0 e in
        (
          func,
          ap (λ k. update s.input_handlers (fd - s.min_fd) (some (fd, func)) (k - s.min_fd)) same
              ∙ rw (==_refl (fd - s.min_fd)) (ap (λ k. some (k, func)) (sym same)),
        )
    | inr e ↦
        let old = only_old g m e in
        let (f, has) = v.own g old in
        let other = apart s fd g h (v.inside g old) e in (f, rw other has)
  ];
  below = λ g m. elim (Bool-cases (g == fd)) [
    | inl e ↦
        let same : g ≡ fd = (==_iff g fd).0 e in
        ap (λ k. ltb_ℤ (top s.max_fd) (pos k)) same ∙ top-fd s.max_fd
    | inr e ↦ top-old s.max_fd g (v.below g (only_old g m e))
  ];
  unused = λ n. absurd (not_both s.input_inited i n);
}
  where
    only_old :
        (g : ℕ) → update s.input_mask fd true g ≡ true → (g == fd) ≡ false → s.input_mask g ≡ true
    only_old g m e = elim (Bool-cases (s.input_mask g)) [
      | inl o ↦ o
      | inr o ↦ absurd (not_both (update s.input_mask fd true g) m (rw (e, o) refl))
    ]

    top : ℤ → ℤ
    top max_fd = if ltb_ℤ max_fd (pos fd) then pos fd else max_fd

    top-fd : (max_fd : ℤ) → ltb_ℤ (top max_fd) (pos fd) ≡ false
    top-fd (pos m) = ground arith
    top-fd (negsuc m) = ground arith

    top-old :
        (max_fd : ℤ) (g : ℕ) → ltb_ℤ max_fd (pos g) ≡ false → ltb_ℤ (top max_fd) (pos g) ≡ false
    top-old (pos m) g p = ground arith
    top-old (negsuc m) g p = ground arith

pub leave-IsValid :
    (fd : ℕ) (s : Sched)
    → IsValid s
    → s.input_inited ≡ true
    → out_of_range fd s ≡ false
    → IsValid (leave fd s)
unfolding leave
leave-IsValid fd s v i h = record {
  inside = λ g m. v.inside g (kept g m).0;
  own = λ g m.
      let (f, has) = v.own g (kept g m).0 in
      let other = apart s fd g h (v.inside g (kept g m).0) (kept g m).1 in (f, rw other has);
  below = λ g m.
      let old = v.below g (kept g m).0 in
      let range = v.inside g (kept g m).0 in
      elim (Bool-cases (is_ℕ s.max_fd fd)) [
        | inl e ↦
            rw (e, leave)
              (highest_below-least mask s.min_fd (fd - s.min_fd) g (ground arith)
                (lower s.max_fd g e old range (kept g m).1) m)
        | inr e ↦ rw (e, leave) old
      ];
  unused = λ n. absurd (not_both s.input_inited i n);
}
  where
    mask : ℕ → Bool
    mask = update s.input_mask fd false

    kept : (g : ℕ) → mask g ≡ true → (s.input_mask g ≡ true) × ((g == fd) ≡ false)
    kept g m = elim (Bool-cases (g == fd)) [
      | inl e ↦ absurd (not_both (mask g) m (rw e refl))
      | inr e ↦ elim (Bool-cases (s.input_mask g)) [
        | inl o ↦ (o, e)
        | inr o ↦ absurd (not_both (mask g) m (rw (e, o) refl))
      ]
    ]

    lower :
        (max_fd : ℤ) (g : ℕ)
        → is_ℕ max_fd fd ≡ true
        → ltb_ℤ max_fd (pos g) ≡ false
        → out_of_range g s ≡ false
        → (g == fd) ≡ false
        → g < s.min_fd + (fd - s.min_fd)
    lower (pos m) g e b r d = ground arith
    lower (negsuc m) g e b r d = cc

-- The lookup in a table where the descriptor `fd` was given an entry or lost it.
pub entered :
    (func fd g : ℕ) (s : Sched)
    → IsValid s
    → out_of_range fd s ≡ false
    → handler_of (enter func fd s) g ≡ update (handler_of s) fd (some (fd, func)) g
unfolding enter
entered func fd g s v h = elim (Bool-cases (g == fd)) [
  | inl e ↦
      let same : g ≡ fd = (==_iff g fd).0 e in
      rw (e, ap (λ k. k - s.min_fd) same, ==_refl (fd - s.min_fd)) refl
  | inr e ↦ handler_of-other s fd g (some (fd, func)) true v h e ∙ rw e refl
]

pub left :
    (fd g : ℕ) (s : Sched)
    → IsValid s
    → out_of_range fd s ≡ false
    → handler_of (leave fd s) g ≡ update (handler_of s) fd none g
unfolding leave
left fd g s v h = elim (Bool-cases (g == fd)) [
  | inl e ↦ rw e refl
  | inr e ↦ handler_of-other s fd g none false v h e ∙ rw e refl
]

-- The first call leaves the lookups alone.
abbrev pub Begun : Sched → Sched → Type 0
Begun s t = IsValid t × (t.input_inited ≡ true) × ((g : ℕ) → handler_of t g ≡ handler_of s g)

if-Begun :
    (s x y : Sched) (b : Bool)
    → (b ≡ true → Begun s x)
    → (b ≡ false → Begun s y)
    → Begun s (if b then x else y)
if-Begun s x y true p q = p refl
if-Begun s x y false p q = q refl

abbrev pub emptied : ℕ → Sched
emptied fd = record {
  input_inited = true;
  input_mask = λ g. false;
  input_handlers = λ i. none;
  min_fd = fd;
  max_fd = pos fd;
}

pub initialize-Begun : (fd : ℕ) (s : Sched) → IsValid s → Begun s (initialize fd s)
unfolding initialize
initialize-Begun fd s v =
    if-Begun s s (emptied fd) s.input_inited (λ e. (v, e, λ g. refl))
      (λ e. (
        record {
          inside = λ g m. cc;
          own = λ g m. absurd (not_both false m refl);
          below = λ g m. cc;
          unused = λ n. cc;
        },
        refl,
        λ g. rw (v.unused e g) refl,
      ))

-- The end of `install_input`: the server exits, as the descriptor is out of the range of the table, or
-- is taken, or it leads to the new handler and all others lead where they did.
abbrev pub Installed : ℕ → ℕ → Sched → Option Sched → Type 0
Installed func fd s none = (out_of_range fd (initialize fd s) ≡ true) ⊎ (s.input_mask fd ≡ true)
Installed func fd s (some t) =
    (out_of_range fd (initialize fd s) ≡ false)
    × (s.input_mask fd ≡ false)
    × IsValid t
    × ((g : ℕ) → handler_of t g ≡ update (handler_of s) fd (some (fd, func)) g)

-- The end of `remove_input`.
abbrev pub Removed : ℕ → Sched → Option Sched → Type 0
Removed fd s none = out_of_range fd s ≡ true
Removed fd s (some t) =
    (out_of_range fd s ≡ false)
    × IsValid t
    × ((g : ℕ) → handler_of t g ≡ update (handler_of s) fd none g)
