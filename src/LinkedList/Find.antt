-- ===== src/LinkedList/Find.antt =====
-- `LIST_New`, `LIST_FindItem` and `LIST_SetIterFirst` on a proper list.
use xpilot_fxi.Prelude.{
  ℕ, suc, ◌+◌, ◌≡◌, ◌≢◌, inl, inr, Bool, true, false, some, [], ◌∷◌, arith, refl, ◌==◌, length,
  if◌then◌else◌, ==_refl, Bool-cases,
}
use xpilot_fxi.Prelude.Memory.{update}
use xpilot_fxi.LinkedList.{new, find_loop, find_item, get_first_item, set_iter_first}
use xpilot_fxi.LinkedList.Heap.{
  Heap, null, pure, ◌>>=◌, ◌>>◌, at_node, get_prev, get_next-ok, get_item-ok,
}
use xpilot_fxi.LinkedList.Links.{Cells, ◌∉◌, Links, IsList, first_of, alive-first_of, Links-place}

-- `LIST_New` gives an empty list when `malloc` returns an address.
new_lem :
    (h : Heap) (fresh : ℕ)
    → fresh ≢ null
    → (g : Heap) × (new fresh h ≡ some (fresh, g))
      × IsList g fresh []
      × (g.num_lists ≡ h.num_lists + 1)
unfolding new
new_lem h fresh real =
    let test : (fresh == null) ≡ false = ground arith in
    (
      record h {
        alive = update h.alive fresh true;
        num_lists = h.num_lists + 1;
        next = update h.next fresh fresh;
        prev = update h.prev fresh fresh;
        item = update h.item fresh null;
        size = update h.size fresh 0;
      },
      simp (new, ◌>>=◌, ◌>>◌, at_node, test, ==_refl fresh),
      record {
        real = real;
        alive = ground arith;
        links = ground arith;
        apart = refl;
        distinct = tt;
        size = ground arith;
      },
      refl,
    )

-- The address of the first node whose data passes the test.
abbrev pub first_match : Cells → (ℕ → Bool) → ℕ
first_match [] equal = null
first_match ((a, d) ∷ xs) equal = if equal d then a else first_match xs equal

found :
    (h : Heap) (p a : ℕ)
    → h.alive p ≡ true
    → h.prev p ≡ a
    → (get_prev p >>= (λ q. pure (some q))) h ≡ some (some a, h)
unfolding get_prev
found h p a v e = simp (get_prev, ◌>>=◌, at_node, v, e)

find_loop_lem :
    (h : Heap) (l p : ℕ) (equal : ℕ → Bool) (xs : Cells)
    → l ∉ xs
    → Links h p xs l
    → h.alive l ≡ true
    → find_loop (suc (length xs)) (first_of xs l) l equal h ≡ some (some (first_match xs equal), h)
unfolding find_loop
find_loop_lem h l p equal [] o links v = simp (find_loop, ==_refl l)
find_loop_lem h l p equal ((a, d) ∷ xs) o (n, back, it, alive, rest) v =
    let test : (a == l) ≡ false = ground arith in
    let after : h.next a ≡ first_of xs l = (Links-place h a l [] xs rest).0 in
    let before : h.prev (first_of xs l) ≡ a = (Links-place h a l [] xs rest).1 in
    let first_v = alive-first_of h a l [] xs rest v in
    elim (Bool-cases (equal d)) [
      | inl e ↦
          simp
            (
              find_loop,
              ◌>>=◌,
              ◌>>◌,
              test,
              get_item-ok h a alive,
              get_next-ok h a alive,
              it,
              after,
              e,
            )
            (found h (first_of xs l) a first_v before)
      | inr e ↦
          simp (find_loop, ◌>>=◌, ◌>>◌, test, get_item-ok h a alive, get_next-ok h a alive, it, e)
            (rw after (find_loop_lem h l a equal xs (ground arith) rest v))
    ]

-- `LIST_FindItem` returns the first node whose data passes the test, `NULL` if there is none, and
-- one pass over the nodes is enough.
pub find_item_lem :
    (h : Heap) (l : ℕ) (equal : ℕ → Bool) (xs : Cells)
    → IsList h l xs
    → find_item (suc (length xs)) l equal h ≡ some (some (first_match xs equal), h)
unfolding find_item get_first_item
find_item_lem h l equal xs is =
    let first = (Links-place h l l [] xs is.links).0 in
    simp (
      find_item,
      ◌>>=◌,
      get_next-ok h l is.alive,
      first,
      find_loop_lem h l l equal xs is.apart is.links is.alive,
    )

-- `LIST_SetIterFirst` breaks the list: called with the second of two nodes it ties the node to
-- itself, so a walk over the list from its first node never comes to the end.
pub set_iter_first_breaks :
    (h : Heap) (l a b d e : ℕ)
    → IsList h l ((a, d) ∷ (b, e) ∷ [])
    → (g : Heap) × (set_iter_first l b h ≡ some (tt, g)) × (g.next l ≡ b) × (g.next b ≡ b)
unfolding set_iter_first
set_iter_first_breaks h l a b d e is =
    let (na, ba, ia, va, (nb, bb, ib, vb, (nl, bl))) = is.links in
    let b_a : (b == a) ≡ false = ground (arith, is.distinct) in
    let l_b : (l == b) ≡ false = ground (arith, is.apart) in
    let b_l : (b == l) ≡ false = ground (arith, is.apart) in
    let a_b : (a == b) ≡ false = ground (arith, is.distinct) in
    let a_l : (a == l) ≡ false = ground (arith, is.apart) in
    (
      record h {
        next = update (update (update h.next a l) l b) b b;
        prev = update (update h.prev a a) b l;
      },
      simp (
        set_iter_first, ◌>>=◌, ◌>>◌, at_node, is.alive, na, va, vb, nb, nl, bb, b_a, b_l, a_b, l_b,
        a_l,
      ),
      ground arith,
      ground arith,
    )
