-- ===== src/Names/Ctype.antt =====
-- The tests of <ctype.h> in the "C" locale, which the program never leaves.
use xpilot_fxi.Prelude.{ℕ, ◌-◌, Bool, leb, ◌==◌, ◌&&◌, ◌||◌}

unfoldable pub isgraph : ℕ → Bool
isgraph c = leb 33 c && leb c 126

unfoldable pub isprint : ℕ → Bool
isprint c = leb 32 c && leb c 126

unfoldable pub isupper : ℕ → Bool
isupper c = leb b'A' c && leb c b'Z'

unfoldable pub islower : ℕ → Bool
islower c = leb b'a' c && leb c b'z'

unfoldable pub isspace : ℕ → Bool
isspace c = (c == 32) || (leb 9 c && leb c 13)

-- On a lower case letter.
unfoldable pub toupper : ℕ → ℕ
toupper c = c - 32
