-- ===== src/LinkedList/Links.antt =====
-- What a circular list in memory stands for, and the two changes of its links: a node put in, and a
-- node taken out.
use xpilot_fxi.Prelude.{
  ℕ, ◌≡◌, ◌≢◌, Bool, true, false, ◌||◌, List, [], ◌∷◌, ◌++◌, arith, refl, sym, ◌∙◌, ◌==◌, length,
}
use xpilot_fxi.LinkedList.Heap.{Heap, null}

-- The address and the data of each node, in order.
abbrev pub Cells : Type 0
Cells = List (ℕ × ℕ)

abbrev pub has : ℕ → Cells → Bool
has a [] = false
has a ((b, _) ∷ xs) = (a == b) || has a xs

infix 40 ◌∈◌ ◌∉◌
abbrev pub ◌∈◌ : ℕ → Cells → Type 0
a ∈ xs = has a xs ≡ true

abbrev pub ◌∉◌ : ℕ → Cells → Type 0
a ∉ xs = has a xs ≡ false

abbrev pub Distinct : Cells → Type 0
Distinct [] = Unit
Distinct ((a, _) ∷ xs) = (a ∉ xs) × Distinct xs

-- The links lead from node `p` over the nodes `xs` to node `q`, and back.
abbrev pub Links : Heap → ℕ → Cells → ℕ → Type 0
Links h p [] q = (h.next p ≡ q) × (h.prev q ≡ p)
Links h p ((a, d) ∷ xs) q =
    (h.next p ≡ a) × (h.prev a ≡ p) × (h.item a ≡ d) × (h.alive a ≡ true) × Links h a xs q

pub record IsList (h : Heap) (l : ℕ) (xs : Cells) : Type 0 where
  pub real : l ≢ null
  pub alive : h.alive l ≡ true
  pub links : Links h l xs l
  pub apart : l ∉ xs
  pub distinct : Distinct xs
  pub size : h.size l ≡ length xs

-- The node before and the node behind a place in the list.
abbrev pub last_of : ℕ → Cells → ℕ
last_of p [] = p
last_of p ((a, _) ∷ xs) = last_of a xs

abbrev pub first_of : Cells → ℕ → ℕ
first_of [] q = q
first_of ((a, _) ∷ xs) q = a

pub has-append : (a : ℕ) (xs ys : Cells) → has a (xs ++ ys) ≡ (has a xs || has a ys)
has-append a [] ys = refl
has-append a (x ∷ xs) ys = ground (arith, has-append a xs ys)

pub has-last_of : (a d : ℕ) (xs : Cells) → last_of a xs ∈ ((a, d) ∷ xs)
has-last_of a d [] = ground arith
has-last_of a d ((b, e) ∷ xs) = ground (arith, has-last_of b e xs)

ne_of_mem : (a b : ℕ) (xs : Cells) → a ∈ xs → b ∉ xs → a ≢ b
ne_of_mem a b xs i o = ground arith

ne_first : (a q : ℕ) (xs : Cells) → a ∉ xs → a ≢ q → a ≢ first_of xs q
ne_first a q [] o ne = ne
ne_first a q ((b, e) ∷ xs) o ne = ground arith

-- `g` agrees with `h` on the node `a`.
abbrev pub SameAt : Heap → Heap → ℕ → Type 0
SameAt g h a =
    (g.next a ≡ h.next a) × (g.prev a ≡ h.prev a) × (g.item a ≡ h.item a) × (g.alive a ≡ h.alive a)

-- Links survive a change elsewhere.
pub Links-frame :
    (h g : Heap) (xs : Cells) (p q : ℕ)
    → g.next p ≡ h.next p
    → g.prev q ≡ h.prev q
    → ((a : ℕ) → a ∈ xs → SameAt g h a)
    → Links h p xs q
    → Links g p xs q
Links-frame h g [] p q sp sq same links = (sp ∙ links.0, sq ∙ links.1)
Links-frame h g ((a, d) ∷ xs) p q sp sq same (n, b, i, v, rest) =
    let (sn, sb, si, sv) = same a (ground arith) in
    (
      sp ∙ n,
      sb ∙ b,
      si ∙ i,
      sv ∙ v,
      Links-frame h g xs a q sn sq (λ c m. same c (ground arith)) rest,
    )

-- `g` is `h` with the node `f` put in between `m` and `n`.
pub record PutIn (h g : Heap) (m f n d : ℕ) : Type 0 where
  pub next_m : g.next m ≡ f
  pub next_f : g.next f ≡ n
  pub prev_f : g.prev f ≡ m
  pub prev_n : g.prev n ≡ f
  pub item_f : g.item f ≡ d
  pub alive_f : g.alive f ≡ true
  pub next_other : (x : ℕ) → x ≢ m → x ≢ f → g.next x ≡ h.next x
  pub prev_other : (x : ℕ) → x ≢ n → x ≢ f → g.prev x ≡ h.prev x
  pub item_other : (x : ℕ) → x ≢ f → g.item x ≡ h.item x
  pub alive_other : (x : ℕ) → x ≢ f → g.alive x ≡ h.alive x

-- `f` is a node of its own beside the cells `xs` between `p` and `q`, which are apart too.
abbrev pub Apart : ℕ → ℕ → ℕ → Cells → Type 0
Apart f p q xs = (f ≢ p) × (f ≢ q) × (f ∉ xs) × (p ∉ xs) × (q ∉ xs) × Distinct xs

PutIn-front :
    (h g : Heap) (f d p q : ℕ) (rs : Cells)
    → PutIn h g p f (first_of rs q) d
    → Apart f p q rs
    → Links h p rs q
    → Links g f rs q
PutIn-front h g f d p q [] i s links = (i.next_f, i.prev_n)
PutIn-front h g f d p q ((b, e) ∷ rs) i s (n, back, it, v, rest) = (
  i.next_f,
  i.prev_n,
  ground (arith, i.item_other b),
  ground (arith, i.alive_other b),
  Links-frame h g rs b q (i.next_other b (ground arith) (ground arith))
      (i.prev_other q (ground arith) (ground arith))
      (λ a m. (
        i.next_other a (ground arith) (ground arith),
        i.prev_other a (ground arith) (ground arith),
        i.item_other a (ground arith),
        i.alive_other a (ground arith),
      ))
      rest,
)

pub Links-PutIn :
    (h g : Heap) (f d p q : ℕ) (ls rs : Cells)
    → PutIn h g (last_of p ls) f (first_of rs q) d
    → Apart f p q (ls ++ rs)
    → Links h p (ls ++ rs) q
    → Links g p (ls ++ ((f, d) ∷ rs)) q
Links-PutIn h g f d p q [] rs i s links =
    (i.next_m, i.prev_f, i.item_f, i.alive_f, PutIn-front h g f d p q rs i s links)
Links-PutIn h g f d p q ((a, e) ∷ ls) rs i s (n, back, it, v, rest) =
    let near : (p ∉ ((a, e) ∷ ls)) × (a ∉ ls) × (a ∉ rs) =
      ground (arith, has-append p ls rs, has-append a ls rs) in
    let p_ne : last_of a ls ≢ p = ne_of_mem _ p ((a, e) ∷ ls) (has-last_of a e ls) near.0 in
    let a_ne : a ≢ first_of rs q = ne_first a q rs near.2 (ground arith) in
    (
      i.next_other p (λ z. p_ne (sym z)) (ground arith) ∙ n,
      i.prev_other a a_ne (ground arith) ∙ back,
      i.item_other a (ground arith) ∙ it,
      i.alive_other a (ground arith) ∙ v,
      Links-PutIn h g f d a q ls rs i (ground arith) rest,
    )

-- `g` is `h` with the node `f` between `m` and `n` taken out.
pub record TakenOut (h g : Heap) (m f n : ℕ) : Type 0 where
  pub next_m : g.next m ≡ n
  pub prev_n : g.prev n ≡ m
  pub next_other : (x : ℕ) → x ≢ m → x ≢ f → g.next x ≡ h.next x
  pub prev_other : (x : ℕ) → x ≢ n → x ≢ f → g.prev x ≡ h.prev x
  pub item_other : (x : ℕ) → x ≢ f → g.item x ≡ h.item x
  pub alive_other : (x : ℕ) → x ≢ f → g.alive x ≡ h.alive x

TakenOut-front :
    (h g : Heap) (f p q : ℕ) (rs : Cells)
    → TakenOut h g p f (first_of rs q)
    → Apart f p q rs
    → Links h f rs q
    → Links g p rs q
TakenOut-front h g f p q [] i s links = (i.next_m, i.prev_n)
TakenOut-front h g f p q ((b, e) ∷ rs) i s (n, back, it, v, rest) = (
  i.next_m,
  i.prev_n,
  ground (arith, i.item_other b),
  ground (arith, i.alive_other b),
  Links-frame h g rs b q (i.next_other b (ground arith) (ground arith))
      (i.prev_other q (ground arith) (ground arith))
      (λ a m. (
        i.next_other a (ground arith) (ground arith),
        i.prev_other a (ground arith) (ground arith),
        i.item_other a (ground arith),
        i.alive_other a (ground arith),
      ))
      rest,
)

pub Links-TakenOut :
    (h g : Heap) (f d p q : ℕ) (ls rs : Cells)
    → TakenOut h g (last_of p ls) f (first_of rs q)
    → Apart f p q (ls ++ rs)
    → Links h p (ls ++ ((f, d) ∷ rs)) q
    → Links g p (ls ++ rs) q
Links-TakenOut h g f d p q [] rs i s (n, back, it, v, rest) = TakenOut-front h g f p q rs i s rest
Links-TakenOut h g f d p q ((a, e) ∷ ls) rs i s (n, back, it, v, rest) =
    let near : (p ∉ ((a, e) ∷ ls)) × (a ∉ ls) × (a ∉ rs) =
      ground (arith, has-append p ls rs, has-append a ls rs) in
    let p_ne : last_of a ls ≢ p = ne_of_mem _ p ((a, e) ∷ ls) (has-last_of a e ls) near.0 in
    let a_ne : a ≢ first_of rs q = ne_first a q rs near.2 (ground arith) in
    (
      i.next_other p (λ z. p_ne (sym z)) (ground arith) ∙ n,
      i.prev_other a a_ne (ground arith) ∙ back,
      i.item_other a (ground arith) ∙ it,
      i.alive_other a (ground arith) ∙ v,
      Links-TakenOut h g f d a q ls rs i (ground arith) rest,
    )

-- What a node in the middle of a list knows of its neighbours.
pub Links-middle :
    (h : Heap) (f d p q : ℕ) (ls rs : Cells)
    → Links h p (ls ++ ((f, d) ∷ rs)) q
    → (h.next f ≡ first_of rs q) × (h.prev f ≡ last_of p ls) × (h.item f ≡ d) × (h.alive f ≡ true)
Links-middle h f d p q [] [] (n, back, it, v, rest) = (rest.0, back, it, v)
Links-middle h f d p q [] ((b, e) ∷ rs) (n, back, it, v, rest) = (rest.0, back, it, v)
Links-middle h f d p q ((a, e) ∷ ls) rs (n, back, it, v, rest) = Links-middle h f d a q ls rs rest

-- The two nodes at a place in a list point at one another.
pub Links-place :
    (h : Heap) (p q : ℕ) (ls rs : Cells)
    → Links h p (ls ++ rs) q
    → (h.next (last_of p ls) ≡ first_of rs q) × (h.prev (first_of rs q) ≡ last_of p ls)
Links-place h p q [] [] links = links
Links-place h p q [] ((b, e) ∷ rs) (n, back, it, v, rest) = (n, back)
Links-place h p q ((a, e) ∷ ls) rs (n, back, it, v, rest) = Links-place h a q ls rs rest

-- Every node of a list is allocated.
pub alive-mem : (h : Heap) (a p q : ℕ) (xs : Cells) → Links h p xs q → a ∈ xs → h.alive a ≡ true
alive-mem h a p q [] links m = cc
alive-mem h a p q ((b, e) ∷ xs) (n, back, it, v, rest) m = ground (arith, alive-mem h a b q xs rest)

pub alive-last_of :
    (h : Heap) (p q : ℕ) (ls rs : Cells)
    → Links h p (ls ++ rs) q
    → h.alive p ≡ true
    → h.alive (last_of p ls) ≡ true
alive-last_of h p q [] rs links v = v
alive-last_of h p q ((a, e) ∷ ls) rs (n, back, it, v', rest) v = alive-last_of h a q ls rs rest v'

pub alive-first_of :
    (h : Heap) (p q : ℕ) (ls rs : Cells)
    → Links h p (ls ++ rs) q
    → h.alive q ≡ true
    → h.alive (first_of rs q) ≡ true
alive-first_of h p q [] [] links v = v
alive-first_of h p q [] ((b, e) ∷ rs) (n, back, it, v', rest) v = v'
alive-first_of h p q ((a, e) ∷ ls) rs (n, back, it, v', rest) v = alive-first_of h a q ls rs rest v
