-- ===== src/LinkedList/Move.antt =====
-- `LIST_MoveItemTop` and `LIST_MoveItemBottom` on a proper list.
use xpilot_fxi.Prelude.{
  ℕ, ◌≡◌, ◌≢◌, false, some, [], ◌∷◌, ◌++◌, arith, refl, ap, sym, ◌∙◌, ◌==◌, length, length-append,
  append-nil, ==_refl,
}
use mathlib.Core.Path.{subst}
use xpilot_fxi.Prelude.Memory.{update}
use xpilot_fxi.LinkedList.{move_item_top, move_item_bottom}
use xpilot_fxi.LinkedList.Heap.{Heap, ◌>>=◌, ◌>>◌, at_node}
use xpilot_fxi.LinkedList.Links.{
  Cells, ◌∉◌, Links, IsList, last_of, first_of, has-append, has-last_of, Apart, PutIn, Links-PutIn,
  TakenOut, Links-TakenOut, Links-middle, Links-place, alive-last_of, alive-first_of,
}
use xpilot_fxi.LinkedList.Add.{Distinct-insert}
use xpilot_fxi.LinkedList.Remove.{ne_last, ne_first, taken-Apart, Links-after}

-- The links after `f` has been passed over.
abbrev unlinked : Heap → ℕ → ℕ → Heap
unlinked h m n = record h { next = update h.next m n; prev = update h.prev n m }

module _ (h : Heap) (l f d : ℕ) (ls rs : Cells) (is : IsList h l (ls ++ ((f, d) ∷ rs))) where
  abbrev pub without : Heap
  without = unlinked h (last_of l ls) (first_of rs l)

  without-TakenOut : TakenOut h without (last_of l ls) f (first_of rs l)
  without-TakenOut = record {
    next_m = ground arith;
    prev_n = ground arith;
    next_other = λ x a b. ground arith;
    prev_other = λ x a b. ground arith;
    item_other = λ x a. refl;
    alive_other = λ x a. refl;
  }

  pub without-Links : Links without l (ls ++ rs) l
  without-Links =
      Links-TakenOut h without f d l l ls rs without-TakenOut (taken-Apart h l f d ls rs is)
        is.links

  -- A heap in which `f` has been hung in again, between `us` and `vs`, holds the list so.
  module _ (us vs : Cells) (e : us ++ vs ≡ ls ++ rs) where
    moved-Apart : Apart f l l (us ++ vs)
    moved-Apart = subst (Apart f l l) (sym e) (taken-Apart h l f d ls rs is)

    pub m_ne : last_of l us ≢ f
    m_ne = ne_last f l us moved-Apart.0 (ground (arith, moved-Apart, has-append f us vs))

    pub n_ne : first_of vs l ≢ f
    n_ne = ne_first f l vs moved-Apart.0 (ground (arith, moved-Apart, has-append f us vs))

    pub moved-IsList :
        (g : Heap)
        → PutIn without g (last_of l us) f (first_of vs l) d
        → g.size l ≡ h.size l
        → IsList g l (us ++ ((f, d) ∷ vs))
    moved-IsList g put same = record {
      real = is.real;
      alive = put.alive_other l (λ z. moved-Apart.0 (sym z)) ∙ is.alive;
      links =
          Links-PutIn without g f d l l us vs put moved-Apart
            (subst (λ xs. Links without l xs l) (sym e) without-Links);
      apart = ground (arith, moved-Apart, has-append l us ((f, d) ∷ vs), has-append l us vs);
      distinct = Distinct-insert f d us vs moved-Apart.2 moved-Apart.5;
      size = omega (
        arith,
        same,
        is.size,
        ap (λ (xs : Cells). length xs) e,
        length-append us ((f, d) ∷ vs),
        length-append us vs,
        length-append ls ((f, d) ∷ rs),
        length-append ls rs,
      );
    }

pub last_test :
    (l a e : ℕ) (ls rs : Cells) → l ∉ (((a, e) ∷ ls) ++ rs) → (last_of a ls == l) ≡ false
last_test l a e ls rs o = ground (arith, has-last_of a e ls, has-append l ls rs)

-- `f` hung in between the tail and `old_top`.
abbrev topped : Heap → ℕ → ℕ → ℕ → Heap
topped h l f old_top = record h {
  next = update (update h.next f old_top) l f;
  prev = update (update h.prev old_top f) f l;
}

-- `LIST_MoveItemTop` brings the given node to the front and leaves the others in their order.
move_item_top_lem :
    (h : Heap) (l f d : ℕ) (ls rs : Cells)
    → IsList h l (ls ++ ((f, d) ∷ rs))
    → (g : Heap) × (move_item_top l f h ≡ some (tt, g)) × IsList g l ((f, d) ∷ (ls ++ rs))
unfolding move_item_top
move_item_top_lem h l f d [] rs is =
    let (n, back, item, alive, rest) = is.links in
    (h, simp (move_item_top, ◌>>=◌, ◌>>◌, at_node, is.alive, alive, back, ==_refl l), is)
move_item_top_lem h l f d ((a, e) ∷ ls) rs is =
    let (n, back, item, alive, rest) = is.links in
    let (forth, before, it, v) = Links-middle h f d l l ((a, e) ∷ ls) rs is.links in
    let w = without h l f d ((a, e) ∷ ls) rs is in
    let m_l : (last_of a ls == l) ≡ false = last_test l a e ls ((f, d) ∷ rs) is.apart in
    let last_v = alive-last_of h l l ((a, e) ∷ ls) ((f, d) ∷ rs) is.links is.alive in
    let first_v =
      alive-first_of h f l [] rs (Links-after h f d l l ((a, e) ∷ ls) rs is.links) is.alive in
    let apart = taken-Apart h l f d ((a, e) ∷ ls) rs is in
    let a_ne : a ≢ f = ground arith in
    (
      topped w l f a,
      simp (
        move_item_top, ◌>>=◌, ◌>>◌, at_node, is.alive, n, v, before, m_l, forth, last_v, first_v,
        alive,
      ),
      moved-IsList h l f d ((a, e) ∷ ls) rs is [] ((a, e) ∷ (ls ++ rs)) refl (topped w l f a)
          (record {
            next_m = ground arith;
            next_f = ground arith;
            prev_f = ground arith;
            prev_n = ground arith;
            item_f = it;
            alive_f = v;
            next_other = λ x y z. ground arith;
            prev_other = λ x y z. ground arith;
            item_other = λ x y. refl;
            alive_other = λ x y. refl;
          })
          refl,
    )

-- `f` hung in between `bottom` and the tail.
abbrev bottomed : Heap → ℕ → ℕ → ℕ → Heap
bottomed h l f bottom = record h {
  next = update (update h.next f l) bottom f;
  prev = update (update h.prev f bottom) l f;
}

-- `LIST_MoveItemBottom` brings the given node to the end and leaves the others in their order.
move_item_bottom_lem :
    (h : Heap) (l f d : ℕ) (ls rs : Cells)
    → IsList h l (ls ++ ((f, d) ∷ rs))
    → (g : Heap) × (move_item_bottom l f h ≡ some (tt, g))
      × IsList g l ((ls ++ rs) ++ ((f, d) ∷ []))
unfolding move_item_bottom
move_item_bottom_lem h l f d ls [] is =
    let (forth, before, it, v) = Links-middle h f d l l ls [] is.links in
    (
      h,
      simp (move_item_bottom, ◌>>=◌, ◌>>◌, at_node, is.alive, v, forth, ==_refl l),
      subst (λ xs. IsList h l (xs ++ ((f, d) ∷ []))) (sym (append-nil ls)) is,
    )
move_item_bottom_lem h l f d ls ((b, e) ∷ rs) is =
    let (forth, before, it, v) = Links-middle h f d l l ls ((b, e) ∷ rs) is.links in
    let w = without h l f d ls ((b, e) ∷ rs) is in
    let links = without-Links h l f d ls ((b, e) ∷ rs) is in
    let all = ls ++ ((b, e) ∷ rs) in
    let nil : all ++ [] ≡ all = append-nil all in
    let ends = Links-place w l l all [] (subst (λ xs. Links w l xs l) (sym nil) links) in
    let last_v = alive-last_of h l l ls ((f, d) ∷ (b, e) ∷ rs) is.links is.alive in
    let bottom_v =
      alive-last_of w l l all [] (subst (λ xs. Links w l xs l) (sym nil) links) is.alive in
    let b_v = (Links-after h f d l l ls ((b, e) ∷ rs) is.links).3 in
    let apart = taken-Apart h l f d ls ((b, e) ∷ rs) is in
    let b_l : (b == l) ≡ false = ground (arith, apart, has-append l ls ((b, e) ∷ rs)) in
    let l_b : (l == b) ≡ false = ground arith in
    let m = m_ne h l f d ls ((b, e) ∷ rs) is all [] nil in
    let l_f : (l == f) ≡ false = ground (arith, apart) in
    let tail : h.prev l ≡ last_of l all = ground (arith, ends.1) in
    (
      bottomed w l f (last_of l all),
      simp (
        move_item_bottom, ◌>>=◌, ◌>>◌, at_node, is.alive, v, before, b_l, l_b, tail, forth, last_v,
        bottom_v, b_v,
      ),
      moved-IsList h l f d ls ((b, e) ∷ rs) is all [] nil (bottomed w l f (last_of l all))
          (record {
            next_m = ground arith;
            next_f = ground arith;
            prev_f = ground arith;
            prev_n = ground arith;
            item_f = it;
            alive_f = v;
            next_other = λ x y z. ground arith;
            prev_other = λ x y z. ground arith;
            item_other = λ x y. refl;
            alive_other = λ x y. refl;
          })
          refl,
    )
