-- ===== src/LinkedList/Remove.antt =====
-- `LIST_RemoveItem` on a proper list.
use xpilot_fxi.Prelude.{
  ℕ, ◌-◌, ◌≡◌, ◌≢◌, false, some, [], ◌∷◌, ◌++◌, arith, refl, sym, ◌==◌, length-append,
}
use xpilot_fxi.Prelude.Memory.{update}
use xpilot_fxi.LinkedList.{remove_node, remove_item}
use xpilot_fxi.LinkedList.Heap.{Heap, null, ◌>>=◌, ◌>>◌, at_node}
use xpilot_fxi.LinkedList.Links.{
  Cells, ◌∉◌, Distinct, Links, IsList, last_of, first_of, has-append, Apart, TakenOut,
  Links-TakenOut, Links-middle, alive-last_of, alive-first_of,
}

-- The heap after the node `f` of the list `l`, between `m` and `n`, has been removed.
abbrev pub removed : Heap → ℕ → ℕ → ℕ → ℕ → Heap
removed h f l m n = record h {
  alive = update h.alive f false;
  next = update (update h.next m n) f null;
  prev = update (update h.prev n m) f null;
  item = update h.item f null;
  size = update h.size l (h.size l - 1);
  num_nodes = h.num_nodes - 1;
}

Distinct-drop :
    (f d : ℕ) (ls rs : Cells)
    → Distinct (ls ++ ((f, d) ∷ rs))
    → (f ∉ (ls ++ rs)) × Distinct (ls ++ rs)
Distinct-drop f d [] rs s = s
Distinct-drop f d ((a, e) ∷ ls) rs s =
    let rest = Distinct-drop f d ls rs s.1 in
    ground (arith, rest, has-append a ls ((f, d) ∷ rs), has-append a ls rs)

pub Links-after :
    (h : Heap) (f d p q : ℕ) (ls rs : Cells) → Links h p (ls ++ ((f, d) ∷ rs)) q → Links h f rs q
Links-after h f d p q [] rs (n, back, it, v, rest) = rest
Links-after h f d p q ((a, e) ∷ ls) rs (n, back, it, v, rest) = Links-after h f d a q ls rs rest

pub ne_last : (f p : ℕ) (ls : Cells) → f ≢ p → f ∉ ls → last_of p ls ≢ f
ne_last f p [] ne o = λ e. ne (sym e)
ne_last f p ((a, d) ∷ ls) ne o = ne_last f a ls (ground arith) (ground arith)

pub ne_first : (f q : ℕ) (rs : Cells) → f ≢ q → f ∉ rs → first_of rs q ≢ f
ne_first f q [] ne o = λ e. ne (sym e)
ne_first f q ((a, d) ∷ rs) ne o = ground arith

module _ (h : Heap) (l f d : ℕ) (ls rs : Cells) (is : IsList h l (ls ++ ((f, d) ∷ rs))) where
  open is use {real, alive, links, apart, distinct, size}

  pub taken-Apart : Apart f l l (ls ++ rs)
  taken-Apart =
      let (new, rest) = Distinct-drop f d ls rs distinct in
      let other : l ∉ (ls ++ rs) =
        ground (arith, has-append l ls ((f, d) ∷ rs), has-append l ls rs) in
      let ne : f ≢ l = ground (arith, has-append l ls ((f, d) ∷ rs)) in
      (ne, ne, new, other, other, rest)

  pub last_ne : last_of l ls ≢ f
  last_ne = ne_last f l ls taken-Apart.0 (ground (arith, taken-Apart, has-append f ls rs))

  pub first_ne : first_of rs l ≢ f
  first_ne = ne_first f l rs taken-Apart.0 (ground (arith, taken-Apart, has-append f ls rs))

  abbrev result : Heap
  result = removed h f l (last_of l ls) (first_of rs l)

  remove_node-result : remove_node l f h ≡ some (first_of rs l, result)
  unfolding remove_node
  remove_node-result =
      let (forth, back, it, v) = Links-middle h f d l l ls rs links in
      let last_v = alive-last_of h l l ls ((f, d) ∷ rs) links alive in
      let first_v = alive-first_of h f l [] rs (Links-after h f d l l ls rs links) alive in
      simp (◌>>=◌, ◌>>◌, at_node, remove_node, v, forth, back, last_v, first_v, alive)

  remove_item-result : remove_item l f h ≡ some (first_of rs l, result)
  unfolding remove_item
  remove_item-result =
      let inner : (f == l) ≡ false = ground (arith, taken-Apart) in rw inner remove_node-result

  result-TakenOut : TakenOut h result (last_of l ls) f (first_of rs l)
  result-TakenOut = record {
    next_m = ground (arith, last_ne);
    prev_n = ground (arith, first_ne);
    next_other = λ x a b. ground arith;
    prev_other = λ x a b. ground arith;
    item_other = λ x a. ground arith;
    alive_other = λ x a. ground arith;
  }

  result-IsList : IsList result l (ls ++ rs)
  result-IsList = record {
    real = real;
    alive = ground (arith, taken-Apart);
    links = Links-TakenOut h result f d l l ls rs result-TakenOut taken-Apart links;
    apart = taken-Apart.3;
    distinct = taken-Apart.5;
    size = ground (arith, length-append ls ((f, d) ∷ rs), length-append ls rs);
  }

  -- `LIST_RemoveItem` takes exactly the given node out of a list, frees it, and returns the node
  -- behind it; one node less is counted.
  pub remove_item_lem :
      (g : Heap) × (remove_item l f h ≡ some (first_of rs l, g))
      × IsList g l (ls ++ rs)
      × (g.alive f ≡ false)
      × (g.num_nodes ≡ h.num_nodes - 1)
      × (g.freed ≡ h.freed)
      × (g.num_lists ≡ h.num_lists)
      × (g.item (first_of rs l) ≡ h.item (first_of rs l))
  remove_item_lem = (
    result,
    remove_item-result,
    result-IsList,
    ground arith,
    refl,
    refl,
    refl,
    ground (arith, first_ne),
  )
