-- ===== src/Strings/Compare.antt =====
-- common/strcasecmp.c, which is compiled where there is no strings.h. Bytes are below 128, where
-- `char` and `int` agree.
use xpilot_fxi.Prelude.{
  ℕ, zero, suc, ◌+◌, ◌≡◌, ◌≢◌, false, List, [], ◌∷◌, ◌==◌, ◌&&◌, leb, if◌then◌else◌, arith, refl,
  map, All, ap₂, ◌↔◌, Bool-cases, inl, inr, sym, ==_iff,
}
use xpilot_fxi.Prelude.Int.{ℤ, pos, sub_ℕ}

-- `tolower` in the C locale.
unfoldable pub tolower : ℕ → ℕ
tolower c = if leb b'A' c && leb c b'Z' then c + 32 else c

-- `strcasecmp`; behind its last byte a string has a NUL, at which the loop ends.
unfoldable pub strcasecmp : List ℕ → List ℕ → ℤ
unfolding tolower
strcasecmp [] [] = pos 0
strcasecmp [] (b ∷ ys) = sub_ℕ 0 (tolower b)
strcasecmp (a ∷ xs) [] = sub_ℕ (tolower a) 0
strcasecmp (a ∷ xs) (b ∷ ys) =
    let rest = strcasecmp xs ys in
    if tolower a == tolower b then rest else sub_ℕ (tolower a) (tolower b)

-- `strncasecmp`
unfoldable pub strncasecmp : List ℕ → List ℕ → ℕ → ℤ
unfolding tolower
strncasecmp xs ys zero = pos 0
strncasecmp [] [] (suc n) = pos 0
strncasecmp [] (b ∷ ys) (suc n) = sub_ℕ 0 (tolower b)
strncasecmp (a ∷ xs) [] (suc n) = sub_ℕ (tolower a) 0
strncasecmp (a ∷ xs) (b ∷ ys) (suc n) =
    let rest = strncasecmp xs ys n in
    if tolower a == tolower b then rest else sub_ℕ (tolower a) (tolower b)

abbrev pub IsText : List ℕ → Type 0
IsText s = All (λ b. b ≢ 0) s

tolower-ne-zero : (c : ℕ) → c ≢ 0 → tolower c ≢ 0
unfolding tolower
tolower-ne-zero c h = λ e. h (ground arith)

difference : (a b : ℕ) → sub_ℕ a b ≡ pos 0 → a ≡ b
difference a b e = ground arith

differ : (a b : ℕ) → (a == b) ≡ false → ¬ (sub_ℕ a b ≡ pos 0)
differ a b h e = ground arith

-- On strings without a zero byte `strcasecmp` is 0 if they differ in the case of letters at most,
-- and is not 0 otherwise.
pub strcasecmp_lem :
    (xs ys : List ℕ)
    → IsText xs
    → IsText ys
    → (strcasecmp xs ys ≡ pos 0) ↔ (map tolower xs ≡ map tolower ys)
unfolding strcasecmp
strcasecmp_lem [] [] p q = (λ _. refl, λ _. refl)
strcasecmp_lem [] (b ∷ ys) p q =
    (λ e. absurd (tolower-ne-zero b q.0 (sym (difference 0 (tolower b) e))), λ e. cc)
strcasecmp_lem (a ∷ xs) [] p q =
    (λ e. absurd (tolower-ne-zero a p.0 (difference (tolower a) 0 e)), λ e. cc)
strcasecmp_lem (a ∷ xs) (b ∷ ys) p q =
    let rest = strcasecmp_lem xs ys p.1 q.1 in
    (
      λ e. elim (Bool-cases (tolower a == tolower b)) [
        | inl same ↦ ap₂ ◌∷◌ ((==_iff _ _).0 same) (rest.0 (ground (arith, same)))
        | inr other ↦ absurd (differ (tolower a) (tolower b) other (ground (arith, other)))
      ],
      λ e.
          let first : tolower a ≡ tolower b = cc in
          let others : map tolower xs ≡ map tolower ys = cc in
          rw ((==_iff (tolower a) (tolower b)).1 first) (rest.1 others),
    )
