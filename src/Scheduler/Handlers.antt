-- ===== src/Scheduler/Handlers.antt =====
-- server/sched.c: `install_input` and `remove_input`. A file descriptor is a natural number; a handler
-- is a number that stands for the function and its argument.
use xpilot_fxi.Prelude.{
  ℕ, zero, suc, ◌+◌, ◌-◌, Bool, true, false, Option, none, some, ltb, leb, ◌==◌, ◌||◌,
  if◌then◌else◌,
}
use xpilot_fxi.Prelude.Int.{ℤ, pos, negsuc, minus_one, ltb_ℤ}
use xpilot_fxi.Prelude.Memory.{update}

abbrev pub num_select_fd : ℕ
num_select_fd = 32

-- The static variables. An entry of `input_handlers` is `none` where its descriptor is -1.
pub record Sched : Type 0 where
  pub input_inited : Bool
  pub input_mask : ℕ → Bool
  pub input_handlers : ℕ → Option (ℕ × ℕ)
  pub min_fd : ℕ
  pub max_fd : ℤ

abbrev pub start : Sched
start = record {
  input_inited = false;
  input_mask = λ fd. false;
  input_handlers = λ i. none;
  min_fd = 0;
  max_fd = pos 0;
}

abbrev pub out_of_range : ℕ → Sched → Bool
out_of_range fd s = ltb fd s.min_fd || leb (s.min_fd + num_select_fd) fd

-- The first call fixes the range of descriptors.
unfoldable pub initialize : ℕ → Sched → Sched
initialize fd s = if s.input_inited then s else record {
  input_inited = true;
  input_mask = λ g. false;
  input_handlers = λ i. none;
  min_fd = fd;
  max_fd = pos fd;
}

unfoldable pub enter : ℕ → ℕ → Sched → Sched
enter func fd s = record s {
  input_handlers = update s.input_handlers (fd - s.min_fd) (some (fd, func));
  input_mask = update s.input_mask fd true;
  max_fd = if ltb_ℤ s.max_fd (pos fd) then pos fd else s.max_fd;
}

unfoldable pub install : ℕ → ℕ → Sched → Option Sched
unfolding enter
install func fd s = if out_of_range fd s || s.input_mask fd then none else some (enter func fd s)

-- `install_input`; `none` is `ServerExit`.
unfoldable pub install_input : ℕ → ℕ → Sched → Option Sched
unfolding initialize install
install_input func fd s = install func fd (initialize fd s)

-- The loop that looks for the next descriptor below `min_fd + k`.
unfoldable pub highest_below : (ℕ → Bool) → ℕ → ℕ → ℤ
highest_below mask min_fd zero = minus_one
highest_below mask min_fd (suc k) =
    let rest = highest_below mask min_fd k in if mask (min_fd + k) then pos (min_fd + k) else rest

abbrev pub is_ℕ : ℤ → ℕ → Bool
is_ℕ (pos k) n = k == n
is_ℕ (negsuc k) n = false

unfoldable pub leave : ℕ → Sched → Sched
unfolding highest_below
leave fd s =
    let mask = update s.input_mask fd false in
    record s {
      input_handlers = update s.input_handlers (fd - s.min_fd) none;
      input_mask = mask;
      max_fd = if is_ℕ s.max_fd fd then highest_below mask s.min_fd (fd - s.min_fd) else s.max_fd;
    }

-- `remove_input`
unfoldable pub remove_input : ℕ → Sched → Option Sched
unfolding leave
remove_input fd s =
    if out_of_range fd s then none else if s.input_mask fd then some (leave fd s) else some s
