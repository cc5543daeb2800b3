-- ===== src/Scheduler/Examples.antt =====
-- A first handler is installed, and the theorem at the table that this gives.
use mathlib.Core.Path.{subst}
use xpilot_fxi.Prelude.{◌≡◌, some, refl}
use xpilot_fxi.Scheduler.Handlers.{Sched, start, enter, initialize, install_input, remove_input}
use xpilot_fxi.Scheduler.Table.{IsValid, Installed, Removed}
use xpilot_fxi.Scheduler.Refined.{table_lem}

start-IsValid : IsValid start
start-IsValid = record {
  inside = λ fd m. cc;
  own = λ fd m. absurd (cc m);
  below = λ fd m. cc;
  unused = λ e fd. refl;
}

-- Handler 7 for descriptor 4.
abbrev first : Sched
first = enter 7 4 (initialize 4 start)

first-installed : install_input 7 4 start ≡ some first
unfolding install_input
first-installed = refl

first-IsValid : IsValid first
first-IsValid =
    (subst (Installed 7 4 start) first-installed (table_lem 7 4 start start-IsValid).0).2

table_lem_example :
    Installed 8 9 first (install_input 8 9 first) × Removed 9 first (remove_input 9 first)
table_lem_example = table_lem 8 9 first first-IsValid
