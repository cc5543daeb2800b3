-- ===== src/LinkedList/Add.antt =====
-- `LIST_AddItem`, `LIST_AddItemTop` and `LIST_AddItemBottom` on a proper list.
use xpilot_fxi.Prelude.{
  ℕ, ◌+◌, ◌≡◌, ◌≢◌, true, false, some, [], ◌∷◌, ◌++◌, arith, refl, sym, length-append, append-nil,
}
use mathlib.Core.Path.{subst}
use xpilot_fxi.Prelude.Memory.{update}
use xpilot_fxi.LinkedList.{add_item, add_item_top, add_item_bottom}
use xpilot_fxi.LinkedList.Heap.{Heap, null, ◌>>=◌, get_next-ok}
use xpilot_fxi.LinkedList.Links.{
  Cells, ◌∉◌, Distinct, IsList, last_of, first_of, has-append, Apart, PutIn, Links-PutIn,
  Links-place, alive-mem, alive-last_of, alive-first_of,
}

-- The heap after `d` has been put at the new node `f` of the list `l`, between `m` and `n`.
abbrev pub added : Heap → ℕ → ℕ → ℕ → ℕ → ℕ → Heap
added h f l m n d = record h {
  alive = update h.alive f true;
  next = update (update h.next f n) m f;
  prev = update (update h.prev f m) n f;
  item = update h.item f d;
  size = update h.size l (h.size l + 1);
  num_nodes = h.num_nodes + 1;
}

pub Distinct-insert :
    (f d : ℕ) (ls rs : Cells)
    → f ∉ (ls ++ rs)
    → Distinct (ls ++ rs)
    → Distinct (ls ++ ((f, d) ∷ rs))
Distinct-insert f d [] rs o s = (o, s)
Distinct-insert f d ((a, e) ∷ ls) rs o s = (
  ground (arith, has-append a ls ((f, d) ∷ rs), has-append a ls rs),
  Distinct-insert f d ls rs (ground arith) s.1,
)

ne_alive : (h : Heap) (a f : ℕ) → h.alive a ≡ true → h.alive f ≡ false → a ≢ f
ne_alive h a f v dead = ground arith

module _ (h : Heap) (l : ℕ) (ls rs : Cells) (is : IsList h l (ls ++ rs)) where
  open is use {real, alive, links, apart, distinct, size}

  last-alive : h.alive (last_of l ls) ≡ true
  last-alive = alive-last_of h l l ls rs links alive

  first-alive : h.alive (first_of rs l) ≡ true
  first-alive = alive-first_of h l l ls rs links alive

  fresh-Apart : (f : ℕ) → h.alive f ≡ false → Apart f l l (ls ++ rs)
  fresh-Apart f dead =
      let new : f ∉ (ls ++ rs) = ground (arith, alive-mem h f l l (ls ++ rs) links) in
      let other : f ≢ l = ground arith in (other, other, new, apart, apart, distinct)

  module _ (f d : ℕ) (ne : f ≢ null) (dead : h.alive f ≡ false) where
    abbrev result : Heap
    result = added h f l (last_of l ls) (first_of rs l) d

    add_item-result : add_item f l (first_of rs l) d h ≡ some (f, result)
    unfolding add_item
    add_item-result =
        let (forth, back) = Links-place h l l ls rs links in
        let m_ne : last_of l ls ≢ f = ne_alive h _ f last-alive dead in
        let n_ne : first_of rs l ≢ f = ne_alive h _ f first-alive dead in
        ground (arith, last-alive, first-alive)

    result-PutIn : PutIn h result (last_of l ls) f (first_of rs l) d
    result-PutIn =
        let m_ne : last_of l ls ≢ f = ne_alive h _ f last-alive dead in
        let n_ne : first_of rs l ≢ f = ne_alive h _ f first-alive dead in
        record {
          next_m = ground arith;
          next_f = ground arith;
          prev_f = ground arith;
          prev_n = ground arith;
          item_f = ground arith;
          alive_f = ground arith;
          next_other = λ x a b. ground arith;
          prev_other = λ x a b. ground arith;
          item_other = λ x a. ground arith;
          alive_other = λ x a. ground arith;
        }

    result-IsList : IsList result l (ls ++ ((f, d) ∷ rs))
    result-IsList = record {
      real = real;
      alive = ground arith;
      links = Links-PutIn h result f d l l ls rs result-PutIn (fresh-Apart f dead) links;
      apart = ground (arith, has-append l ls ((f, d) ∷ rs), has-append l ls rs, fresh-Apart f dead);
      distinct = Distinct-insert f d ls rs (fresh-Apart f dead).2 distinct;
      size = ground (arith, length-append ls ((f, d) ∷ rs), length-append ls rs);
    }

    -- `LIST_AddItem` at the place between `ls` and `rs` of a list puts the new node there: the list
    -- is then `ls`, the node and `rs`, and one more node is counted.
    pub add_item_lem :
        (g : Heap) × (add_item f l (first_of rs l) d h ≡ some (f, g))
        × IsList g l (ls ++ ((f, d) ∷ rs))
        × (g.num_nodes ≡ h.num_nodes + 1)
    add_item_lem = (result, add_item-result, result-IsList, refl)

-- `LIST_AddItemTop` puts the new node in front of the list.
add_item_top_lem :
    (h : Heap) (l f d : ℕ) (xs : Cells)
    → IsList h l xs
    → f ≢ null
    → h.alive f ≡ false
    → (g : Heap) × (add_item_top f l d h ≡ some (f, g))
      × IsList g l ((f, d) ∷ xs)
      × (g.num_nodes ≡ h.num_nodes + 1)
unfolding add_item_top
add_item_top_lem h l f d xs is ne dead =
    let (g, run, is', count) = add_item_lem h l [] xs is f d ne dead in
    let place = Links-place h l l [] xs is.links in
    (g, rw (add_item_top, ◌>>=◌, get_next-ok h l is.alive, place.0) run, is', count)

-- `LIST_AddItemBottom` puts it at the end.
add_item_bottom_lem :
    (h : Heap) (l f d : ℕ) (xs : Cells)
    → IsList h l xs
    → f ≢ null
    → h.alive f ≡ false
    → (g : Heap) × (add_item_bottom f l d h ≡ some (f, g))
      × IsList g l (xs ++ ((f, d) ∷ []))
      × (g.num_nodes ≡ h.num_nodes + 1)
unfolding add_item_bottom
add_item_bottom_lem h l f d xs is ne dead =
    add_item_lem h l xs [] (subst (IsList h l) (sym (append-nil xs)) is) f d ne dead
