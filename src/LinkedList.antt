-- ===== src/LinkedList.antt =====
-- common/list.c: circular doubly linked lists. A list and an iterator are addresses; `ASSERT` is
-- empty in a build without debugging. What `malloc` returns is an argument.
pub mod Heap
pub mod Links
pub mod Add
pub mod Remove
pub mod Clear
pub mod Move
pub mod Find
mod Examples
use xpilot_fxi.Prelude.{
  ℕ, zero, suc, ◌+◌, ◌-◌, Bool, true, false, Option, none, some, List, [], ◌∷◌, ◌==◌, ◌||◌, not,
  if◌then◌else◌,
}
use Heap.{
  M, ◌>>=◌, ◌>>◌, pure, null, get_next, get_prev, get_item, get_size, set_next, set_prev, set_item,
  set_size, allocate, release, free_data, count_lists, count_nodes,
}

-- `LIST_New`
unfoldable pub new : ℕ → M ℕ
unfolding allocate count_lists set_next set_prev set_item set_size
new fresh = if fresh == null then pure null else do
  allocate fresh
  count_lists (λ n. n + 1)
  set_next fresh fresh
  set_prev fresh fresh
  set_item fresh null
  set_size fresh 0
  pure fresh

-- `LIST_GetFirstItem`, `LIST_GetLastItem`, `LIST_GetLastData`, `LIST_GetFirstData`
unfoldable pub get_first_item : ℕ → M ℕ
get_first_item list = get_next list

abbrev pub get_last_item : ℕ → M ℕ
get_last_item list = pure list

unfoldable pub get_last_data : ℕ → M ℕ
get_last_data list = do p ← get_prev list; get_item p

unfoldable pub get_first_data : ℕ → M ℕ
get_first_data list = do p ← get_next list; get_item p

unfoldable pub is_empty : ℕ → M Bool
is_empty list = do n ← get_size list; pure (n == 0)

-- `LIST_RemoveItem` where `pos` is not the tail. The counts are `int32_t`s that the code never
-- takes below 0 on a proper list.
unfoldable pub remove_node : ℕ → ℕ → M ℕ
unfolding get_next get_prev set_next set_prev get_size set_size set_item release count_nodes
remove_node list p = do
  next ← get_next p
  prev ← get_prev p
  set_next prev next
  set_prev next prev
  n ← get_size list
  set_size list (n - 1)
  set_prev p null
  set_next p null
  set_item p null
  release p
  count_nodes (λ k. k - 1)
  pure next

unfoldable pub remove_item : ℕ → ℕ → M ℕ
remove_item list p h = if p == list then some (list, h) else remove_node list p h

-- `LIST_RemoveItemRange`: after the removal `first` is the next node, whose data is freed. The
-- loop runs on fuel.
unfoldable pub remove_item_range : ℕ → ℕ → ℕ → ℕ → M (Option ℕ)
remove_item_range zero list first last = pure none
remove_item_range (suc fuel) list first last = if first == last then pure (some first) else do
  next ← remove_item list first
  d ← get_item next
  free_data d
  remove_item_range fuel list next last

-- `LIST_AddItem`; the two last reads of `node->Prev` and `node->Next` give what was stored.
unfoldable pub add_item : ℕ → ℕ → ℕ → ℕ → M ℕ
unfolding get_next get_prev set_next set_prev get_size set_size set_item allocate count_nodes
add_item fresh list p d = if fresh == null then pure null else do
  allocate fresh
  set_next fresh p
  before ← get_prev p
  set_prev fresh before
  set_item fresh d
  left ← get_prev fresh
  set_next left fresh
  right ← get_next fresh
  set_prev right fresh
  n ← get_size list
  set_size list (n + 1)
  count_nodes (λ k. k + 1)
  pure fresh

unfoldable pub add_item_top : ℕ → ℕ → ℕ → M ℕ
add_item_top fresh list d = do p ← get_next list; add_item fresh list p d

unfoldable pub add_item_bottom : ℕ → ℕ → ℕ → M ℕ
add_item_bottom fresh list d = add_item fresh list list d

unfoldable pub remove_first_item : ℕ → M ℕ
remove_first_item list = do
  first ← get_next list
  d ← get_item first
  remove_item list first
  pure d

unfoldable pub remove_last_item : ℕ → M ℕ
remove_last_item list = do last ← get_prev list; d ← get_item last; remove_item list last; pure d

-- `LIST_Clear`, on fuel; `false` if it runs out.
unfoldable pub clear : ℕ → ℕ → M Bool
clear zero list = pure false
clear (suc fuel) list = do
  empty ← is_empty list
  if empty then pure true else do d ← remove_first_item list; free_data d; clear fuel list

-- `LIST_Delete` and `LIST_DeleteNodesOnly`
unfoldable pub delete : ℕ → ℕ → M Bool
delete fuel list = if list == null then pure true else do
  done ← clear fuel list
  if not done then pure false else do
    set_prev list null
    set_next list null
    release list
    count_lists (λ n. n - 1)
    pure true

unfoldable pub delete_nodes_only : ℕ → M (Unit {0})
delete_nodes_only list =
    if list == null
    then pure tt
    else do set_prev list null; set_next list null; release list; count_lists (λ n. n - 1)

-- `LIST_MoveItemTop`, `LIST_MoveItemBottom`
unfoldable pub move_item_top : ℕ → ℕ → M (Unit {0})
unfolding get_next get_prev set_next set_prev
move_item_top list iter = do
  old_top ← get_next list
  before ← get_prev iter
  if before == list then pure tt else do
    after ← get_next iter
    set_next before after
    set_prev after before
    set_next iter old_top
    set_prev old_top iter
    set_prev iter list
    set_next list iter

unfoldable pub move_item_bottom : ℕ → ℕ → M (Unit {0})
unfolding get_next get_prev set_next set_prev
move_item_bottom list iter = do
  after ← get_next iter
  if after == list then pure tt else do
    before ← get_prev iter
    set_next before after
    set_prev after before
    set_next iter list
    bottom ← get_prev list
    set_prev iter bottom
    set_prev list iter
    set_next bottom iter

-- `LIST_SetIterFirst`
unfoldable pub set_iter_first : ℕ → ℕ → M (Unit {0})
unfolding get_next get_prev set_next set_prev
set_iter_first list iter = do
  old_top ← get_next list
  tmp ← get_next old_top
  after ← get_next iter
  set_next old_top after
  before ← get_prev iter
  set_prev old_top before
  set_next list iter
  set_prev iter list
  set_next iter tmp

-- `LIST_FindItemRange`, whose `bcmp` is a test of the data pointer, and `LIST_FindItem`. The
-- result is the node, `null` if there is none; `none` if the fuel runs out.
unfoldable pub find_loop : ℕ → ℕ → ℕ → (ℕ → Bool) → M (Option ℕ)
find_loop zero p last equal = pure none
find_loop (suc fuel) p last equal = if p == last then pure (some null) else do
  d ← get_item p
  after ← get_next p
  if equal d then (do q ← get_prev after; pure (some q)) else find_loop fuel after last equal

unfoldable pub find_item : ℕ → ℕ → (ℕ → Bool) → M (Option ℕ)
find_item fuel list equal = do first ← get_first_item list; find_loop fuel first list equal

unfoldable pub get_item_count : ℕ → M ℕ
get_item_count list = get_size list
