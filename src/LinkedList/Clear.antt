-- ===== src/LinkedList/Clear.antt =====
-- `LIST_RemoveFirstItem`, `LIST_Clear` and `LIST_Delete`, and what `LIST_RemoveItemRange` and
-- `LIST_DeleteNodesOnly` leave behind.
use xpilot_fxi.Prelude.{
  ℕ, zero, suc, ◌-◌, ◌<◌, ◌≡◌, ◌≢◌, true, false, some, List, [], ◌∷◌, ◌++◌, arith, refl, ap, ◌∙◌,
  ◌==◌, length, ==_refl,
}
use xpilot_fxi.Prelude.Memory.{update}
use xpilot_fxi.LinkedList.{
  remove_item, remove_first_item, remove_item_range, clear, delete, delete_nodes_only, is_empty,
}
use xpilot_fxi.LinkedList.Heap.{
  Heap, null, ◌>>=◌, ◌>>◌, at_node, free_data, get_next-ok, get_item-ok, get_size-ok, set_next,
  set_prev, release, count_lists,
}
use xpilot_fxi.LinkedList.Links.{Cells, ◌∈◌, IsList, Links-middle, Links-frame, alive-mem}
use xpilot_fxi.LinkedList.Remove.{remove_item_lem}

-- `LIST_RemoveFirstItem` of a list that is not empty returns the first data and takes its node out.
pub remove_first_item_lem :
    (h : Heap) (l f d : ℕ) (xs : Cells)
    → IsList h l ((f, d) ∷ xs)
    → (g : Heap) × (remove_first_item l h ≡ some (d, g))
      × IsList g l xs
      × (g.num_nodes ≡ h.num_nodes - 1)
      × (g.freed ≡ h.freed)
      × (g.num_lists ≡ h.num_lists)
unfolding remove_first_item
remove_first_item_lem h l f d xs is =
    let (g, run, is', dead, nodes, freed, lists, it) = remove_item_lem h l f d [] xs is in
    let (n, back, item, alive, rest) = is.links in
    (
      g,
      simp (
        remove_first_item,
        ◌>>=◌,
        ◌>>◌,
        get_next-ok h l is.alive,
        n,
        get_item-ok h f alive,
        item,
        run,
      ),
      is',
      nodes,
      freed,
      lists,
    )

-- On an empty list it returns the data of the tail and changes nothing.
pub remove_first_item-nil :
    (h : Heap) (l : ℕ) → IsList h l [] → remove_first_item l h ≡ some (h.item l, h)
unfolding remove_first_item remove_item
remove_first_item-nil h l is = simp (
  remove_first_item,
  ◌>>=◌,
  ◌>>◌,
  get_next-ok h l is.alive,
  is.links.0,
  get_item-ok h l is.alive,
  remove_item,
  ==_refl l,
)

-- The data pointers freed so far, after those of `xs` have been freed in order.
pub freed_onto : Cells → List ℕ → List ℕ
freed_onto [] fs = fs
freed_onto ((a, d) ∷ xs) fs = freed_onto xs (d ∷ fs)

is_empty_lem :
    (h : Heap) (l : ℕ) (xs : Cells) → IsList h l xs → is_empty l h ≡ some (length xs == 0, h)
unfolding is_empty
is_empty_lem h l xs is = rw (is_empty, ◌>>=◌, get_size-ok h l is.alive, is.size)

after_free-IsList :
    (g : Heap) (l d : ℕ) (xs : Cells)
    → IsList g l xs
    → IsList (record g { freed = d ∷ g.freed }) l xs
after_free-IsList g l d xs is = record {
  real = is.real;
  alive = is.alive;
  links =
      Links-frame g (record g { freed = d ∷ g.freed }) xs l l refl refl
        (λ a m. (refl, refl, refl, refl)) is.links;
  apart = is.apart;
  distinct = is.distinct;
  size = is.size;
}

-- What `LIST_Clear` does to the list, the data and both counters.
clear-counted :
    (xs : Cells) (fuel : ℕ) (h : Heap) (l : ℕ)
    → IsList h l xs
    → length xs < fuel
    → (g : Heap) × (clear fuel l h ≡ some (true, g))
      × IsList g l []
      × (g.freed ≡ freed_onto xs h.freed)
      × (g.num_nodes ≡ h.num_nodes - length xs)
      × (g.num_lists ≡ h.num_lists)
unfolding clear freed_onto free_data
clear-counted xs zero h l is lt = absurd (omega arith)
clear-counted [] (suc fuel) h l is lt =
    (h, rw (clear, ◌>>=◌, is_empty_lem h l [] is), is, refl, omega arith, refl)
clear-counted ((f, d) ∷ xs) (suc fuel) h l is lt =
    let (g, run, is', nodes, freed, lists) = remove_first_item_lem h l f d xs is in
    let more : (suc (length xs) == 0) ≡ false = ground arith in
    let g' : Heap = record g { freed = d ∷ g.freed } in
    let (g'', run', is'', freed', nodes', lists') =
      clear-counted xs fuel g' l (after_free-IsList g l d xs is') (omega arith) in
    (
      g'',
      simp (clear, ◌>>=◌, ◌>>◌, is_empty_lem h l ((f, d) ∷ xs) is, more, run) run',
      is'',
      freed' ∙ ap (λ fs. freed_onto xs (d ∷ fs)) freed,
      omega (arith, nodes, nodes'),
      lists' ∙ lists,
    )

-- `LIST_Clear` removes every node and frees the data of each once, in order. Rounds for one more
-- than the nodes are enough.
pub clear_lem :
    (xs : Cells) (fuel : ℕ) (h : Heap) (l : ℕ)
    → IsList h l xs
    → length xs < fuel
    → (g : Heap) × (clear fuel l h ≡ some (true, g))
      × IsList g l []
      × (g.freed ≡ freed_onto xs h.freed)
      × (g.num_nodes ≡ h.num_nodes - length xs)
clear_lem xs fuel h l is lt =
    let (g, run, is', freed, nodes, lists) = clear-counted xs fuel h l is lt in
    (g, run, is', freed, nodes)

-- `LIST_Delete` clears the list, frees its header and counts one list less.
pub delete_lem :
    (xs : Cells) (fuel : ℕ) (h : Heap) (l : ℕ)
    → IsList h l xs
    → length xs < fuel
    → (g : Heap) × (delete fuel l h ≡ some (true, g))
      × (g.alive l ≡ false)
      × (g.freed ≡ freed_onto xs h.freed)
      × (g.num_nodes ≡ h.num_nodes - length xs)
      × (g.num_lists ≡ h.num_lists - 1)
unfolding delete set_prev set_next release count_lists
delete_lem xs fuel h l is lt =
    let (g, run, is', freed, nodes, lists) = clear-counted xs fuel h l is lt in
    let real : (l == null) ≡ false = ground (arith, is.real) in
    (
      record g {
        prev = update g.prev l null;
        next = update g.next l null;
        alive = update g.alive l false;
        num_lists = g.num_lists - 1;
      },
      simp (delete, ◌>>=◌, ◌>>◌, at_node, real, run, is'.alive),
      ground arith,
      freed,
      nodes,
      ap (λ n. n - 1) lists,
    )

-- `LIST_DeleteNodesOnly` frees the header and leaves every node allocated and counted, although no
-- list holds it any more.
pub delete_nodes_only_leaks :
    (h : Heap) (l a : ℕ) (xs : Cells)
    → IsList h l xs
    → a ∈ xs
    → (g : Heap) × (delete_nodes_only l h ≡ some (tt, g))
      × (g.alive l ≡ false)
      × (g.alive a ≡ true)
      × (g.num_nodes ≡ h.num_nodes)
unfolding delete_nodes_only set_prev set_next release count_lists
delete_nodes_only_leaks h l a xs is m =
    let real : (l == null) ≡ false = ground (arith, is.real) in
    let ne : a ≢ l = ground (arith, is.apart) in
    (
      record h {
        prev = update h.prev l null;
        next = update h.next l null;
        alive = update h.alive l false;
        num_lists = h.num_lists - 1;
      },
      simp (delete_nodes_only, ◌>>=◌, ◌>>◌, at_node, real, is.alive),
      ground arith,
      ground (arith, alive-mem h a l l xs is.links m),
      refl,
    )

eq_dead : (g : Heap) (f b : ℕ) → g.alive f ≡ false → g.alive b ≡ true → (f == b) ≡ false
eq_dead g f b dead alive = ground arith

-- `LIST_RemoveItemRange` over one node frees the data of the node behind it, which stays in the
-- list, and not the data of the node that it removes.
pub remove_item_range_frees :
    (h : Heap) (l f d b e : ℕ) (ls rs : Cells)
    → IsList h l (ls ++ ((f, d) ∷ (b, e) ∷ rs))
    → (g : Heap) × (remove_item_range 2 l f b h ≡ some (some b, g))
      × IsList g l (ls ++ ((b, e) ∷ rs))
      × (g.freed ≡ e ∷ h.freed)
unfolding remove_item_range free_data
remove_item_range_frees h l f d b e ls rs is =
    let (g, run, is', dead, nodes, freed, lists, it) =
      remove_item_lem h l f d ls ((b, e) ∷ rs) is in
    let (n, back, item, alive) = Links-middle g b e l l ls rs is'.links in
    let ne : (f == b) ≡ false = eq_dead g f b dead alive in
    (
      record g { freed = e ∷ g.freed },
      simp (remove_item_range, ◌>>=◌, ◌>>◌, ne, run, get_item-ok g b alive, item, ==_refl b),
      after_free-IsList g l e _ is',
      ap (λ fs. e ∷ fs) freed,
    )
