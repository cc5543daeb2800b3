-- ===== src/Strings/Examples.antt =====
-- Two names that differ in case.
use xpilot_fxi.Prelude.{ℕ, ◌≡◌, ◌↔◌, List, [], ◌∷◌, map, arith}
use xpilot_fxi.Prelude.Int.{pos}
use xpilot_fxi.Strings.Compare.{strcasecmp, tolower, strcasecmp_lem}

abbrev upper : List ℕ
upper = b'A' ∷ b'b' ∷ []

abbrev lower : List ℕ
lower = b'a' ∷ b'B' ∷ []

strcasecmp_lem_example : (strcasecmp upper lower ≡ pos 0) ↔ (map tolower upper ≡ map tolower lower)
strcasecmp_lem_example =
    strcasecmp_lem upper lower (ground arith, (ground arith, tt)) (ground arith, (ground arith, tt))
