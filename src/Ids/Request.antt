-- ===== src/Ids/Request.antt =====
-- `request_ID` and `peek_ID` on a valid pool.
use xpilot_fxi.Prelude.{ℕ, suc, ◌+◌, ◌-◌, ◌%◌, ◌≤◌, ◌<◌, ◌≡◌, ◌≢◌, some, arith, sym, ap, ◌∙◌}
use xpilot_fxi.Prelude.Memory.{update, total-update}
use xpilot_fxi.Ids.{Ids, num_ids, u32, peek, peek_id, take_id, request_id}
use xpilot_fxi.Ids.Valid.{IsValid, slot, init_id_lem}

-- The pool after its oldest free id has been taken.
abbrev pub taken : Ids → Ids
taken s = record s { get_id = (s.get_id + 1) % u32; inuse = update s.inuse (slot s 0) 1 }

module _ {s : Ids} {n : ℕ} (v : IsValid s (suc n)) where
  open v use {inited, get_in, put_at, few, in_range, unused, distinct, found, flags, counted}

  -- Slot `k` of the pool that is left is slot `k + 1` of the old one.
  pub slot-taken : (k : ℕ) → slot (taken s) k ≡ slot s (k + 1)
  slot-taken k = ap s.queue (omega arith)

  pub request_id_lem : request_id s ≡ some (slot s 0, taken s)
  unfolding request_id peek_id peek take_id
  request_id_lem = rw (request_id, peek_id, init_id_lem v) (ground (arith, in_range 0))

  taken-unused : (k : ℕ) → k < n → (taken s).inuse (slot (taken s) k) ≡ 0
  taken-unused k h = rw (slot-taken k) (ground (arith, distinct 0 (k + 1), unused (k + 1)))

  -- The free id `id` sat in a later slot than the one taken.
  taken-found :
      (id : ℕ)
      → 1 ≤ id
      → id ≤ num_ids
      → (taken s).inuse id ≢ 1
      → (k : ℕ) × (k < n) × (slot (taken s) k ≡ id)
  taken-found id lo hi h =
      let old : s.inuse id ≢ 1 = ground arith in
      let ne : slot s 0 ≢ id = ground arith in
      let (k, lt, e) = found id lo hi old in
      let later : k ≢ 0 = λ z. ne (ap (slot s) (sym z) ∙ e) in
      (k - 1, omega arith, slot-taken (k - 1) ∙ ap (slot s) (omega arith) ∙ e)

  pub taken-IsValid : IsValid (taken s) n
  taken-IsValid = record {
    inited = inited;
    get_in = omega arith;
    put_at = omega arith;
    few = omega arith;
    in_range = λ k h. rw (slot-taken k) (in_range (k + 1) (omega arith));
    unused = taken-unused;
    distinct = λ j k hj hk e. omega (
      arith,
      distinct (j + 1) (k + 1) (omega arith) (omega arith) (sym (slot-taken j) ∙ e ∙ slot-taken k),
    );
    found = taken-found;
    flags = λ id. ground (arith, flags id);
    counted = ground (arith, in_range 0, unused 0, total-update s.inuse num_ids (slot s 0) 1);
  }

module _ {s : Ids} (v : IsValid s 0) where
  -- With no id free, `request_ID` returns 0 and changes nothing.
  pub request_id-exhausted : request_id s ≡ some (0, s)
  unfolding request_id peek_id peek take_id
  request_id-exhausted =
      rw (request_id, peek_id, init_id_lem v) (ground (arith, v.put_at, v.get_in))
