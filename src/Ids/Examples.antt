-- ===== src/Ids/Examples.antt =====
-- The pool on concrete runs, and the theorems at such inputs.
use xpilot_fxi.Prelude.{◌≡◌, refl, List, [], ◌∷◌}
use xpilot_fxi.Prelude.Int.{pos, negsuc}
use xpilot_fxi.Ids.{num_ids, start}
use xpilot_fxi.Ids.History.{
  Op, request, release, issued, released, exited, run, spec, count_from, run-spec,
}

abbrev script : List Op
script = request ∷ request ∷ release (pos 1) ∷ release (pos 1) ∷ []

abbrev out_of_range : List Op
out_of_range = request ∷ release (negsuc 4) ∷ request ∷ []

run-script : run start script ≡ issued 1 ∷ issued 2 ∷ released ∷ exited ∷ []
unfolding run
run-script = refl

run-out_of_range : run start out_of_range ≡ issued 1 ∷ exited ∷ []
unfolding run
run-out_of_range = refl

run-spec_example : run start script ≡ spec (count_from 1 num_ids) script
run-spec_example = run-spec script
