-- ===== src/Ids.antt =====
-- server/id.c: the pool of player and object identifiers, a ring of the free ones beside a table of
-- those in use. The function-static `ID_inited` and the two counters are fields.
pub mod Valid
pub mod Request
pub mod Release
pub mod History
mod Examples
use xpilot_fxi.Prelude.{
  ℕ, ◌+◌, ◌-◌, ◌%◌, ◌^◌, Bool, true, false, Option, none, some, ◌==◌, ltb, if◌then◌else◌, ◌||◌, not,
}
use xpilot_fxi.Prelude.Int.{ℤ, pos_part}
use xpilot_fxi.Prelude.Memory.{update}

abbrev pub num_ids : ℕ
num_ids = 256

abbrev pub u32 : ℕ
u32 = 2 ^ 32

pub record Ids : Type 0 where
  pub inited : Bool
  pub queue : ℕ → ℕ
  pub inuse : ℕ → ℕ
  pub get_id : ℕ
  pub put_id : ℕ

-- `uint32_t` subtraction
abbrev pub sub_u32 : ℕ → ℕ → ℕ
sub_u32 a b = (a + u32 - b) % u32

-- What the loop of `init_ID` leaves in the first `NUM_IDS` slots, and in entries 1 to `NUM_IDS`.
abbrev pub fill_queue : (ℕ → ℕ) → ℕ → ℕ
fill_queue q i = if ltb i num_ids then i + 1 else q i

abbrev pub fill_inuse : (ℕ → ℕ) → ℕ → ℕ
fill_inuse u id = if id == 0 then u id else if ltb num_ids id then u id else 0

-- `none` is the call of `exit`.
unfoldable pub init_id : Ids → Option Ids
init_id s =
    let s' : Ids = if s.inited then s else record {
      inited = true;
      queue = fill_queue s.queue;
      inuse = fill_inuse s.inuse;
      get_id = 0;
      put_id = num_ids;
    } in
    if ltb num_ids (sub_u32 s'.put_id s'.get_id) then none else some s'

peek : Ids → ℕ
peek s = if s.get_id == s.put_id then 0 else s.queue (s.get_id % num_ids)

unfoldable pub peek_id : Ids → Option (ℕ × Ids)
unfolding init_id peek
peek_id s = elim (init_id s) [ none ↦ none | some s' ↦ some (peek s', s') ]

take_id : ℕ → Ids → Ids
take_id id s =
    if id == 0 then s else record s { get_id = (s.get_id + 1) % u32; inuse = update s.inuse id 1 }

unfoldable pub request_id : Ids → Option (ℕ × Ids)
unfolding peek_id take_id
request_id s = elim (peek_id s) [ none ↦ none | some (id, s') ↦ some (id, take_id id s') ]

-- The guard of `release_ID`. `id <= 0` holds where the positive part is 0. The message before `exit`
-- is left out, with its read of `ID_inuse[id % 257]`.
illegal : ℤ → Ids → Bool
illegal id s =
    (sub_u32 s.put_id s.get_id == num_ids)
    || (pos_part id == 0)
    || ltb num_ids (pos_part id)
    || not (s.inuse (pos_part id) == 1)

pub give_back : ℕ → Ids → Ids
give_back id s = record s {
  queue = update s.queue (s.put_id % num_ids) id;
  put_id = (s.put_id + 1) % u32;
  inuse = update s.inuse id 0;
}

unfoldable pub release_id : ℤ → Ids → Option Ids
unfolding init_id illegal give_back
release_id id s = elim (init_id s) [
  | none ↦ none
  | some s' ↦ if illegal id s' then none else some (give_back (pos_part id) s')
]

-- The statics of a program that has just started.
abbrev pub start : Ids
start = record { inited = false; queue = λ _. 0; inuse = λ _. 0; get_id = 0; put_id = 0 }
