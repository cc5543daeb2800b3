-- ===== src/LinkedList/Examples.antt =====
-- A list of three nodes in memory, and the theorems at it.
use xpilot_fxi.Prelude.{
  ℕ, ◌+◌, ◌&&◌, ◌-◌, ◌≡◌, ◌≢◌, true, false, some, [], ◌∷◌, arith, refl, ltb, ◌==◌, if◌then◌else◌,
}
use xpilot_fxi.LinkedList.{
  add_item, remove_item, remove_item_range, clear, delete, delete_nodes_only, set_iter_first,
  find_item,
}
use xpilot_fxi.LinkedList.Heap.{Heap, null}
use xpilot_fxi.LinkedList.Links.{Cells, IsList}
use xpilot_fxi.LinkedList.Add.{add_item_lem}
use xpilot_fxi.LinkedList.Remove.{remove_item_lem}
use xpilot_fxi.LinkedList.Clear.{
  clear_lem, delete_lem, freed_onto, delete_nodes_only_leaks, remove_item_range_frees,
}
use xpilot_fxi.LinkedList.Find.{first_match, find_item_lem, set_iter_first_breaks}

-- The list at 1 holds the nodes 2, 3 and 4 with the data 12, 13 and 14.
abbrev three_next : ℕ → ℕ
three_next a = if ltb a 4 then a + 1 else 1

abbrev three_prev : ℕ → ℕ
three_prev a = if ltb a 2 then 4 else a - 1

abbrev three : Heap
three = record {
  alive = λ a. ltb 0 a && ltb a 5;
  next = three_next;
  prev = three_prev;
  item = λ a. if a == 1 then 0 else a + 10;
  size = λ a. 3;
  num_lists = 1;
  num_nodes = 3;
  freed = [];
}

abbrev cells : Cells
cells = (2, 12) ∷ (3, 13) ∷ (4, 14) ∷ []

three-IsList : IsList three 1 cells
three-IsList = record {
  real = ground arith;
  alive = refl;
  links =
      (refl, refl, refl, refl, (refl, refl, refl, refl, (refl, refl, refl, refl, (refl, refl))));
  apart = refl;
  distinct = (refl, (refl, (refl, tt)));
  size = refl;
}

five-dead : three.alive 5 ≡ false
five-dead = refl

five-real : 5 ≢ null
five-real = ground arith

add_item_lem_example :
    (g : Heap) × (add_item 5 1 3 15 three ≡ some (5, g))
    × IsList g 1 ((2, 12) ∷ (5, 15) ∷ (3, 13) ∷ (4, 14) ∷ [])
    × (g.num_nodes ≡ 4)
add_item_lem_example =
    add_item_lem three 1 ((2, 12) ∷ []) ((3, 13) ∷ (4, 14) ∷ []) three-IsList 5 15 five-real
      five-dead

remove_item_lem_example :
    (g : Heap) × (remove_item 1 3 three ≡ some (4, g))
    × IsList g 1 ((2, 12) ∷ (4, 14) ∷ [])
    × (g.alive 3 ≡ false)
    × (g.num_nodes ≡ 2)
    × (g.freed ≡ [])
    × (g.num_lists ≡ 1)
    × (g.item 4 ≡ 14)
remove_item_lem_example = remove_item_lem three 1 3 13 ((2, 12) ∷ []) ((4, 14) ∷ []) three-IsList

clear_lem_example :
    (g : Heap) × (clear 4 1 three ≡ some (true, g))
    × IsList g 1 []
    × (g.freed ≡ freed_onto cells [])
    × (g.num_nodes ≡ 0)
clear_lem_example = clear_lem cells 4 three 1 three-IsList (omega arith)

delete_lem_example :
    (g : Heap) × (delete 4 1 three ≡ some (true, g))
    × (g.alive 1 ≡ false)
    × (g.freed ≡ freed_onto cells [])
    × (g.num_nodes ≡ 0)
    × (g.num_lists ≡ 0)
delete_lem_example = delete_lem cells 4 three 1 three-IsList (omega arith)

delete_nodes_only_leaks_example :
    (g : Heap) × (delete_nodes_only 1 three ≡ some (tt, g))
    × (g.alive 1 ≡ false)
    × (g.alive 3 ≡ true)
    × (g.num_nodes ≡ 3)
delete_nodes_only_leaks_example = delete_nodes_only_leaks three 1 3 cells three-IsList refl

remove_item_range_frees_example :
    (g : Heap) × (remove_item_range 2 1 2 3 three ≡ some (some 3, g))
    × IsList g 1 ((3, 13) ∷ (4, 14) ∷ [])
    × (g.freed ≡ 13 ∷ [])
remove_item_range_frees_example =
    remove_item_range_frees three 1 2 12 3 13 [] ((4, 14) ∷ []) three-IsList

find_item_lem_example :
    find_item 4 1 (λ d. d == 14) three ≡ some (some (first_match cells (λ d. d == 14)), three)
find_item_lem_example = find_item_lem three 1 (λ d. d == 14) cells three-IsList

-- The list at 1 holds the nodes 2 and 3.
abbrev two : Heap
two = record three {
  next = λ a. if ltb a 3 then a + 1 else 1;
  prev = λ a. if ltb a 2 then 3 else a - 1;
  size = λ a. 2;
  num_nodes = 2;
}

two-IsList : IsList two 1 ((2, 12) ∷ (3, 13) ∷ [])
two-IsList = record {
  real = ground arith;
  alive = refl;
  links = (refl, refl, refl, refl, (refl, refl, refl, refl, (refl, refl)));
  apart = refl;
  distinct = (refl, (refl, tt));
  size = refl;
}

set_iter_first_breaks_example :
    (g : Heap) × (set_iter_first 1 3 two ≡ some (tt, g)) × (g.next 1 ≡ 3) × (g.next 3 ≡ 3)
set_iter_first_breaks_example = set_iter_first_breaks two 1 2 3 12 13 two-IsList
