-- ===== src/Ids/Valid.antt =====
-- The invariant of id.c: the ring and the table agree on which ids are free.
use xpilot_fxi.Prelude.{ℕ, ◌+◌, ◌-◌, ◌%◌, ◌≤◌, ◌<◌, ◌≡◌, ◌≢◌, true, some, arith, refl}
use xpilot_fxi.Prelude.Memory.{total, total_zero}
use xpilot_fxi.Ids.{Ids, num_ids, u32, init_id, sub_u32, start, fill_queue, fill_inuse}

-- The id in the `k`-th slot of the ring, counted from the next one to be handed out.
abbrev pub slot : Ids → ℕ → ℕ
slot s k = s.queue ((s.get_id + k) % num_ids)

-- `n` ids are free.
pub record IsValid (s : Ids) (n : ℕ) : Type 0 where
  pub inited : s.inited ≡ true
  pub get_in : s.get_id < u32
  pub put_at : s.put_id ≡ (s.get_id + n) % u32
  pub few : n ≤ num_ids
  pub in_range : (k : ℕ) → k < n → (1 ≤ slot s k) × (slot s k ≤ num_ids)
  pub unused : (k : ℕ) → k < n → s.inuse (slot s k) ≡ 0
  pub distinct : (j k : ℕ) → j < n → k < n → slot s j ≡ slot s k → j ≡ k
  pub found :
      (id : ℕ) → 1 ≤ id → id ≤ num_ids → s.inuse id ≢ 1 → (k : ℕ) × (k < n) × (slot s k ≡ id)
  pub flags : (id : ℕ) → s.inuse id ≤ 1
  pub counted : n + total s.inuse num_ids ≡ num_ids

module _ {s : Ids} {n : ℕ} (v : IsValid s n) where
  open v use {inited, get_in, put_at, few}

  pub free_count : sub_u32 s.put_id s.get_id ≡ n
  free_count = rw put_at (omega arith)

  pub init_id_lem : init_id s ≡ some s
  unfolding init_id
  init_id_lem = ground (arith, free_count)

abbrev pub initial : Ids
initial = record {
  inited = true;
  queue = fill_queue start.queue;
  inuse = fill_inuse start.inuse;
  get_id = 0;
  put_id = num_ids;
}

pub init_id-start : init_id start ≡ some initial
unfolding init_id
init_id-start = refl

initial-unused : (i : ℕ) → initial.inuse i ≡ 0
initial-unused i = ground arith

pub initial-slot : (k : ℕ) → k < num_ids → slot initial k ≡ k + 1
initial-slot k h = ground arith

-- After the first call every id is free.
pub initial-IsValid : IsValid initial num_ids
initial-IsValid = record {
  inited = refl;
  get_in = omega arith;
  put_at = refl;
  few = omega arith;
  in_range = λ k h. omega (arith, initial-slot k h);
  unused = λ k h. initial-unused (slot initial k);
  distinct = λ j k hj hk e. omega (arith, initial-slot j hj, initial-slot k hk);
  found = λ id lo hi h. (id - 1, omega arith, omega (arith, initial-slot (id - 1) (omega arith)));
  flags = λ id. omega (arith, initial-unused id);
  counted = omega (arith, total_zero initial.inuse num_ids initial-unused);
}
