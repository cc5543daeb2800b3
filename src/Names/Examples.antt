-- ===== src/Names/Examples.antt =====
-- Names on concrete inputs, and the theorems at such inputs.
use xpilot_fxi.Prelude.{ℕ, ◌≡◌, refl, List, [], ◌∷◌}
use xpilot_fxi.Names.{
  name_ok, name_error, check_real_name, fix_real_name, check_nick_name, fix_nick_name,
}
use xpilot_fxi.Names.Real.{fix_real_name-ok}
use xpilot_fxi.Names.Nick.{fix_nick_name-ok}
use xpilot_fxi.Names.Host.{check_host_name, fix_host_name, fix_host_name-ok}

-- "a b"
abbrev spaced : List ℕ
spaced = b'a' ∷ b' ' ∷ b'b' ∷ []

abbrev capital : List ℕ
capital = b'A' ∷ b' ' ∷ b'b' ∷ []

-- "a..b"
abbrev dotted : List ℕ
dotted = b'a' ∷ b'.' ∷ b'.' ∷ b'b' ∷ []

check-spaced : check_real_name spaced ≡ (name_error, spaced)
unfolding check_real_name
check-spaced = refl

fix-dotted : fix_host_name dotted ≡ b'a' ∷ b'x' ∷ b'.' ∷ b'b' ∷ []
unfolding fix_host_name
fix-dotted = refl

fix_nick-blank : fix_nick_name 12 [] ≡ (b'X' ∷ b'1' ∷ b'2' ∷ [], 13)
unfolding fix_nick_name
fix_nick-blank = refl

fix_real_name-ok_example : check_real_name (fix_real_name spaced) ≡ (name_ok, fix_real_name spaced)
fix_real_name-ok_example = fix_real_name-ok spaced

fix_nick_name-ok_example :
    check_nick_name (fix_nick_name 0 spaced).0 ≡ (name_ok, (fix_nick_name 0 spaced).0)
fix_nick_name-ok_example = fix_nick_name-ok 0 spaced

fix_host_name-ok_example : check_host_name (fix_host_name dotted) ≡ (name_ok, fix_host_name dotted)
fix_host_name-ok_example = fix_host_name-ok dotted
