-- ===== src/Memory/Heap/Calls.antt =====
-- `sysMalloc` and `sysFree` of kernel/memory.c. The heads of arenas are fields by the arena's address;
-- `desc` is none where the source has NULL, and the descriptor's place elsewhere. The free blocks are
-- nodes of lists; the zeros that `memset` stores in a block's own links are left out, since a link is
-- stored before it is read. The lock of the pool and the interrupt flag are given back as they were
-- taken on every way out.
pub mod Arenas
pub mod Trips
pub mod Whole
mod Tests
use holo_os.Base.{
  ℕ, zero, suc, ◌+◌, ◌-◌, ◌*◌, ◌/◌, ◌%◌, ◌^◌, Bool, true, false, not, ◌||◌, leb, ltb, ◌==◌,
  if◌then◌else◌, Option, none, some, List,
}
use holo_os.Base.Memory.{Mem, update}
use holo_os.Base.Run.{Run, ok, panic, assert, ◌>>=◌, ◌>>◌}
use holo_os.CString.{memset}
use holo_os.LinkedList.{Links, list_append, list_remove, list_pop, list_empty, list_exist}
use holo_os.Memory.Alloc.{malloc_page, mfree_page, clear_pages}
use holo_os.Memory.Heap.{MemBlockDesc, arena_size, find_desc, arena2block, block2arena}
use holo_os.Memory.Paging.{Store}
use holo_os.Memory.Pool.{
  Pools, VirtualAddr, PoolFlags, pf_kernel, pf_user, mem_pool, null, pg_size, k_heap_start,
}

pub record Heap : Type 0 where
  pub store : Store
  pub links : Links
  pub desc : ℕ → Option MemBlockDesc
  pub cnt : Mem
  pub large : ℕ → Bool

abbrev pub put {ℓ} : {A : Type ℓ} → (ℕ → A) → ℕ → A → ℕ → A
put f a x b = if b == a then x else f b

-- The pool of the current thread, by its `pageDir`.
abbrev pub pool_flag : ℕ → PoolFlags
pool_flag page_dir = if page_dir == null then pf_kernel else pf_user

-- The first branch: whole pages, behind a head without descriptor.
pub malloc_large : Heap → Pools → VirtualAddr → PoolFlags → ℕ → Run (ℕ × Heap)
malloc_large h pools user pf size = do
  let page_cnt = (size + arena_size + pg_size - 1) % 2 ^ 32 / pg_size
  (a, s) ← malloc_page h.store pools user pf page_cnt
  if a == null then ok (null, record h { store = s }) else do
    s' ← clear_pages s a page_cnt
    ok (
      a + arena_size,
      record h {
        store = s';
        desc = put h.desc a none;
        cnt = update h.cnt a page_cnt;
        large = put h.large a true;
      },
    )

-- The loop that splits up an arena, from block `idx` on, by the rounds left.
pub split_arena : ℕ → ℕ → ℕ → MemBlockDesc → ℕ → Links → Run Links
split_arena zero fuel a d idx links = ok links
split_arena (suc rounds) fuel a d idx links = do
  let b = arena2block a d idx
  found ← list_exist fuel links d.free_list b
  assert (not found)
  split_arena rounds fuel a d (idx + 1) (list_append links d.free_list b)

-- `if (listEmpty(…)) { … }`; false where there is no page for a new arena.
pub new_arena : ℕ → Heap → Pools → VirtualAddr → PoolFlags → MemBlockDesc → Run (Bool × Heap)
new_arena fuel h pools user pf d = do
  (a, s) ← malloc_page h.store pools user pf 1
  if a == null then ok (false, record h { store = s }) else do
    s' ← clear_pages s a 1
    links ← split_arena d.blocks_per_arena fuel a d 0 h.links
    ok (
      true,
      record h {
        store = s';
        links = links;
        desc = put h.desc a (some d);
        cnt = update h.cnt a d.blocks_per_arena;
        large = put h.large a false;
      },
    )

-- `memset(b, 0, blockSize)`, of bytes and words, with the block taken from the free list, and its
-- arena's count.
pub take_block : Heap → MemBlockDesc → Run (ℕ × Heap)
take_block h d = do
  let (b, links) = list_pop h.links d.free_list
  bytes ← memset h.store.bytes b 0 d.block_size
  words ← memset h.store.words b 0 d.block_size
  let a = block2arena b
  ok (
    b,
    record h {
      store = record { bytes = bytes; words = words };
      links = links;
      cnt = update h.cnt a ((h.cnt a + 2 ^ 32 - 1) % 2 ^ 32);
    },
  )

-- The second branch, for a block of the descriptor `d`.
pub malloc_block : ℕ → Heap → Pools → VirtualAddr → PoolFlags → MemBlockDesc → Run (ℕ × Heap)
malloc_block fuel h pools user pf d = do
  (filled, h') ←
      (if list_empty h.links d.free_list then new_arena fuel h pools user pf d else ok (true, h))
  if filled then take_block h' d else ok (null, h')

-- `descs` are those of the current thread's space. A size without descriptor, which those of
-- `blockDescInit` leave no room for, would be read out of range.
pub sys_malloc : ℕ → Heap → Pools → ℕ → VirtualAddr → List MemBlockDesc → ℕ → Run (ℕ × Heap)
sys_malloc fuel h pools page_dir user descs size =
    let pf = pool_flag page_dir in
    if size == 0 || leb (mem_pool pf pools).pool_size size
    then ok (null, h)
    else if ltb 1024 size
    then malloc_large h pools user pf size
    else elim (find_desc descs size) [ none ↦ panic | some d ↦ malloc_block fuel h pools user pf d ]

-- The loop that takes the blocks of an arena off the free list.
pub unsplit_arena : ℕ → ℕ → ℕ → MemBlockDesc → ℕ → Links → Run Links
unsplit_arena zero fuel a d idx links = ok links
unsplit_arena (suc rounds) fuel a d idx links = do
  let b = arena2block a d idx
  found ← list_exist fuel links d.free_list b
  assert found
  unsplit_arena rounds fuel a d (idx + 1) (list_remove links b)

-- The second branch of `sysFree`.
pub free_block : ℕ → Heap → Pools → VirtualAddr → PoolFlags → MemBlockDesc → ℕ → Run Heap
free_block fuel h pools user pf d b =
    let a = block2arena b in
    let cnt = (h.cnt a + 1) % 2 ^ 32 in
    let links = list_append h.links d.free_list b in
    let h' = record h { links = links; cnt = update h.cnt a cnt } in
    if cnt == d.blocks_per_arena
    then (do
      links' ← unsplit_arena d.blocks_per_arena fuel a d 0 links
      s ← mfree_page h'.store pools user pf a 1
      ok (record h' { links = links'; store = s }))
    else ok h'

-- A head without descriptor that is not marked as large would be read through NULL.
pub sys_free : ℕ → Heap → Pools → ℕ → VirtualAddr → ℕ → Run Heap
sys_free fuel h pools page_dir user ptr = do
  assert (not (ptr == null))
  assert (not (page_dir == null) || leb k_heap_start ptr)
  let pf = pool_flag page_dir
  let a = block2arena ptr
  elim (h.desc a) [
    | some d ↦ free_block fuel h pools user pf d ptr
    | none ↦
        if h.large a
        then (mfree_page h.store pools user pf a (h.cnt a) >>= λ s. ok (record h { store = s }))
        else panic
  ]
