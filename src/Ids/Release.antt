-- ===== src/Ids/Release.antt =====
-- `release_ID` on a valid pool.
use xpilot_fxi.Prelude.{
  ℕ, suc, ◌≤◌, ◌<◌, ◌≡◌, ◌≢◌, some, none, arith, refl, ◌==◌, ◌∙◌, ◌⊎◌, inl, inr, Bool-cases,
  if◌then◌else◌,
}
use xpilot_fxi.Prelude.Int.{ℤ, pos, pos_part}
use xpilot_fxi.Prelude.Memory.{total-update, le-total}
use xpilot_fxi.Ids.{Ids, num_ids, illegal, give_back, release_id}
use xpilot_fxi.Ids.Valid.{IsValid, slot, init_id_lem, free_count}

module _ {s : Ids} {n : ℕ} (v : IsValid s n) where
  open v use {inited, get_in, put_at, few, in_range, unused, distinct, found, flags, counted}

  -- While an id is in use the ring has room.
  room : (id : ℕ) → 1 ≤ id → id ≤ num_ids → s.inuse id ≡ 1 → n < num_ids
  room id lo hi h = omega (arith, le-total s.inuse num_ids id lo hi)

  -- Exactly the ids in use may be given back.
  abbrev pub InUse : ℕ → Type 0
  InUse id = (1 ≤ id) × (id ≤ num_ids) × (s.inuse id ≡ 1)

  pub release_id-legal : (id : ℕ) → InUse id → release_id (pos id) s ≡ some (give_back id s)
  unfolding release_id illegal
  release_id-legal id h =
      rw (release_id, init_id_lem v, free_count v) (ground (arith, room id h.0 h.1 h.2))

  pub release_id-exits : (id : ℤ) → (InUse (pos_part id) → ⊥) → release_id id s ≡ none
  unfolding release_id illegal
  release_id-exits id h = rw (release_id, init_id_lem v) (ground (arith, h))

  module _ (id : ℕ) (h : InUse id) where
    pub slot-give_back_old : (k : ℕ) → k < n → slot (give_back id s) k ≡ slot s k
    unfolding give_back
    slot-give_back_old k lt = ground (arith, room id h.0 h.1 h.2)

    pub slot-give_back_new : slot (give_back id s) n ≡ id
    unfolding give_back
    slot-give_back_new = ground (arith, room id h.0 h.1 h.2)

    -- The slots of the new ring: the old ones, and one more with `id`.
    slot-cases :
        (k : ℕ)
        → k < suc n
        → ((k < n) × (slot (give_back id s) k ≡ slot s k))
          ⊎ ((k ≡ n) × (slot (give_back id s) k ≡ id))
    slot-cases k lt = ground (arith, slot-give_back_old k, slot-give_back_new)

    inuse-give_back : (i : ℕ) → (give_back id s).inuse i ≡ (if i == id then 0 else s.inuse i)
    unfolding give_back
    inuse-give_back i = refl

    give_back-unused : (k : ℕ) → k < suc n → (give_back id s).inuse (slot (give_back id s) k) ≡ 0
    give_back-unused k lt =
        ground (arith, slot-cases k, unused k, inuse-give_back (slot (give_back id s) k))

    give_back-distinct :
        (j k : ℕ)
        → j < suc n
        → k < suc n
        → slot (give_back id s) j ≡ slot (give_back id s) k
        → j ≡ k
    give_back-distinct j k hj hk e =
        ground (arith, slot-cases j, slot-cases k, distinct j k, unused j, unused k)

    give_back-found :
        (i : ℕ)
        → 1 ≤ i
        → i ≤ num_ids
        → (give_back id s).inuse i ≢ 1
        → (k : ℕ) × (k < suc n) × (slot (give_back id s) k ≡ i)
    unfolding give_back
    give_back-found i lo hi out = elim (Bool-cases (i == id)) [
      | inl same ↦ (n, omega arith, ground (arith, slot-give_back_new))
      | inr other ↦
          let (k, lt, e) = found i lo hi (ground arith) in
          (k, omega arith, slot-give_back_old k lt ∙ e)
    ]

    pub give_back-IsValid : IsValid (give_back id s) (suc n)
    unfolding give_back
    give_back-IsValid = record {
      inited = inited;
      get_in = get_in;
      put_at = omega arith;
      few = omega (arith, room id h.0 h.1 h.2);
      in_range = λ k lt. ground (arith, slot-cases k, in_range k);
      unused = give_back-unused;
      distinct = give_back-distinct;
      found = give_back-found;
      flags = λ i. ground (arith, flags i);
      counted = omega (arith, total-update s.inuse num_ids id 0 h.0 h.1);
    }
