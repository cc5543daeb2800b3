-- ===== src/LinkedList/Heap.antt =====
-- The memory of common/list.c: nodes at addresses, the counts of the lists that hold them, the two
-- static counters, and the data pointers that were handed to `free`, latest first. The header of a
-- list begins with its node `Tail`, so the address of the list is that of `Tail`.
use xpilot_fxi.Prelude.{ℕ, Bool, ◌≡◌, true, false, Option, none, some, List, ◌∷◌, if◌then◌else◌}
use native.Mathlib.Omega.{arith}
use xpilot_fxi.Prelude.Memory.{update}

abbrev pub null : ℕ
null = 0

-- `alive` says which nodes are allocated; a list's header is the node with its address.
pub record Heap : Type 0 where
  pub alive : ℕ → Bool
  pub next : ℕ → ℕ
  pub prev : ℕ → ℕ
  pub item : ℕ → ℕ
  pub size : ℕ → ℕ
  pub num_lists : ℕ
  pub num_nodes : ℕ
  pub freed : List ℕ

-- A piece of code on the memory, where `none` is an access through a null or dangling pointer.
abbrev pub M : Type 0 → Type 0
M Result = (memory : Heap) → Option (Result × Heap)

-- Code that has ended with a result and a memory goes on, unless it has failed.
abbrev pub resume : {A B : Type 0} → (A → M B) → Option (A × Heap) → Option (B × Heap)
resume next none = none
resume next (some (result, memory)) = next result memory

infixl 5 ◌>>=◌ ◌>>◌
abbrev pub ◌>>=◌ : {A B : Type 0} → M A → (A → M B) → M B
◌>>=◌ code next memory = resume next (code memory)

abbrev pub pure : {A : Type 0} → A → M A
pure result memory = some (result, memory)

abbrev pub ◌>>◌ : {A B : Type 0} → M A → M B → M B
◌>>◌ code next memory = resume (λ ignored. next) (code memory)

-- Access to a field of the node at `p`.
abbrev pub at_node : {A : Type 0} → ℕ → M A → M A
at_node p m h = if h.alive p then m h else none

unfoldable pub get_next : ℕ → M ℕ
get_next p = at_node p (λ h. some (h.next p, h))

unfoldable pub get_prev : ℕ → M ℕ
get_prev p = at_node p (λ h. some (h.prev p, h))

unfoldable pub get_item : ℕ → M ℕ
get_item p = at_node p (λ h. some (h.item p, h))

unfoldable pub get_size : ℕ → M ℕ
get_size l = at_node l (λ h. some (h.size l, h))

unfoldable pub set_next : ℕ → ℕ → M (Unit {0})
set_next p q = at_node p (λ h. some (tt, record h { next = update h.next p q }))

unfoldable pub set_prev : ℕ → ℕ → M (Unit {0})
set_prev p q = at_node p (λ h. some (tt, record h { prev = update h.prev p q }))

unfoldable pub set_item : ℕ → ℕ → M (Unit {0})
set_item p d = at_node p (λ h. some (tt, record h { item = update h.item p d }))

unfoldable pub set_size : ℕ → ℕ → M (Unit {0})
set_size l n = at_node l (λ h. some (tt, record h { size = update h.size l n }))

-- `malloc` of a node or a header at the address `p`.
unfoldable pub allocate : ℕ → M (Unit {0})
allocate p h = some (tt, record h { alive = update h.alive p true })

-- `free` of a node or a header.
unfoldable pub release : ℕ → M (Unit {0})
release p = at_node p (λ h. some (tt, record h { alive = update h.alive p false }))

-- `free` of a data pointer.
unfoldable pub free_data : ℕ → M (Unit {0})
free_data d h = some (tt, record h { freed = d ∷ h.freed })

unfoldable pub count_lists : (ℕ → ℕ) → M (Unit {0})
count_lists f h = some (tt, record h { num_lists = f h.num_lists })

unfoldable pub count_nodes : (ℕ → ℕ) → M (Unit {0})
count_nodes f h = some (tt, record h { num_nodes = f h.num_nodes })

module _ (h : Heap) (p : ℕ) (v : h.alive p ≡ true) where
  pub get_next-ok : get_next p h ≡ some (h.next p, h)
  unfolding get_next
  get_next-ok = ground arith

  pub get_prev-ok : get_prev p h ≡ some (h.prev p, h)
  unfolding get_prev
  get_prev-ok = ground arith

  pub get_item-ok : get_item p h ≡ some (h.item p, h)
  unfolding get_item
  get_item-ok = ground arith

  pub get_size-ok : get_size p h ≡ some (h.size p, h)
  unfolding get_size
  get_size-ok = ground arith
