-- ===== src/LinkedList.antt =====
-- lib/list.c: doubly linked lists between two sentinels. A `struct list` at address `l` is its head
-- node at `l` and its tail node at `l + 8`; a node is its address, and the two fields of all nodes
-- are two memories. Loops take fuel, one round for each node and one to see the end.
pub mod Distinct
pub mod Segment
pub mod Update
pub mod Sequence
pub mod Two
pub mod Refine
pub mod Walk
mod Tests
use holo_os.Base.{ℕ, zero, suc, ◌+◌, ◌%◌, ◌^◌, Bool, true, false, ◌==◌, if◌then◌else◌}
use holo_os.Base.Memory.{Mem, update}
use holo_os.Base.Run.{Run, ok, out_of_fuel}

pub record Links : Type 0 where
  pub prev : Mem
  pub next : Mem

abbrev pub null : ℕ
null = 0

-- `&list->tail`
abbrev pub tail : ℕ → ℕ
tail l = l + 8

abbrev pub set_prev : Links → ℕ → ℕ → Links
set_prev h a v = record h { prev = update h.prev a v }

abbrev pub set_next : Links → ℕ → ℕ → Links
set_next h a v = record h { next = update h.next a v }

unfoldable pub list_init : Links → ℕ → Links
list_init h l =
    let h1 = set_prev h l null in
    let h2 = set_next h1 l (tail l) in let h3 = set_prev h2 (tail l) l in set_next h3 (tail l) null

unfoldable pub list_insert : Links → ℕ → ℕ → Links
list_insert h before node =
    let h1 = set_next h (h.prev before) node in
    let h2 = set_prev h1 node (h1.prev before) in
    let h3 = set_next h2 node before in set_prev h3 before node

pub list_push : Links → ℕ → ℕ → Links
list_push h l node = list_insert h (h.next l) node

unfoldable pub list_append : Links → ℕ → ℕ → Links
list_append h l node = list_insert h (tail l) node

pub list_remove : Links → ℕ → Links
list_remove h node =
    let h1 = set_next h (h.prev node) (h.next node) in set_prev h1 (h1.next node) (h1.prev node)

unfoldable pub list_empty : Links → ℕ → Bool
list_empty h l = h.next l == tail l

unfoldable pub list_pop : Links → ℕ → ℕ × Links
list_pop h l =
    if list_empty h l then (null, h) else (let node = h.next l in (node, list_remove h node))

exist_loop : ℕ → Links → ℕ → ℕ → ℕ → Run Bool
exist_loop zero h l node cur = out_of_fuel
exist_loop (suc fuel) h l node cur =
    let rest = exist_loop fuel h l node (h.next cur) in
    if cur == tail l then ok false else if cur == node then ok true else rest

pub list_exist : ℕ → Links → ℕ → ℕ → Run Bool
unfolding exist_loop
list_exist fuel h l node = exist_loop fuel h l node (h.next l)

-- `func` is the caller's function pointer.
traversal_loop : (ℕ → ℕ → Bool) → ℕ → ℕ → Links → ℕ → ℕ → Run ℕ
traversal_loop func arg zero h l cur = out_of_fuel
traversal_loop func arg (suc fuel) h l cur =
    let rest = traversal_loop func arg fuel h l (h.next cur) in
    if cur == tail l then ok null else if func cur arg then ok cur else rest

pub list_traversal : ℕ → Links → ℕ → (ℕ → ℕ → Bool) → ℕ → Run ℕ
unfolding traversal_loop
list_traversal fuel h l func arg = traversal_loop func arg fuel h l (h.next l)

-- `len` is a `uint32`.
len_loop : ℕ → Links → ℕ → ℕ → ℕ → Run ℕ
len_loop zero h l len cur = out_of_fuel
len_loop (suc fuel) h l len cur =
    let rest = len_loop fuel h l ((len + 1) % 2 ^ 32) (h.next cur) in
    if cur == tail l then ok len else rest

pub list_len : ℕ → Links → ℕ → Run ℕ
unfolding len_loop
list_len fuel h l = len_loop fuel h l 0 (h.next l)
