-- ===== src/Memory/Heap/Calls/Whole.antt =====
-- A block of kernel/memory.c that `sysMalloc` takes from a new arena and `sysFree` takes back.
use holo_os.Base.{
  ℕ, suc, ◌+◌, ◌-◌, ◌<◌, ◌≤◌, ◌≡◌, refl, subst, ap, ◌∙◌, true, false, not, ◌&&◌, ◌||◌, leb, ltb,
  ◌==◌, some, List, [], arith,
}
use holo_os.Base.Run.{ok}
use holo_os.CString.Block.{fill}
use holo_os.LinkedList.{Links}
use holo_os.LinkedList.Segment.{IsList}
use holo_os.LinkedList.Walk.{member}
use holo_os.Memory.Alloc.{malloc_page, mfree_page}
use holo_os.Memory.Heap.{MemBlockDesc, find_desc, arena2block, block2arena}
use holo_os.Memory.Heap.Blocks.{in_page}
use holo_os.Memory.Heap.Members.{Absent-not_member, no_member-nil, and-and_not}
use holo_os.Memory.Heap.Calls.{Heap, pool_flag, sys_malloc, sys_free}
use holo_os.Memory.Heap.Calls.Arenas.{blocks, length-blocks, member-blocks, before-Absent}
use holo_os.Memory.Heap.Calls.Trips.{
  IsArena, cleared, first_taken, malloc_block-new, freed, free_block-last,
}
use holo_os.Memory.Paging.{Store}
use holo_os.Memory.Pool.{Pools, VirtualAddr, mem_pool, null, k_heap_start}

-- The page of a new arena is zero, also where the block is.
abbrev pub left_store : Store → ℕ → MemBlockDesc → Store
left_store s a d = record {
  bytes = fill (cleared s a).bytes (arena2block a d 0) 0 d.block_size;
  words = fill (cleared s a).words (arena2block a d 0) 0 d.block_size;
}

-- The arguments of a call that is for a small block.
pub record IsSmall (h : Heap) (pools : Pools) (page_dir : ℕ) (descs : List MemBlockDesc) (size : ℕ)
    (d : MemBlockDesc) : Type 0 where
  pub pos : 0 < size
  pub small : size ≤ 1024
  pub fits : size < (mem_pool (pool_flag page_dir) pools).pool_size
  pub found : find_desc descs size ≡ some d
  pub enough : size ≤ d.block_size
  pub empty : IsList h.links d.free_list []

module _ (h : Heap) (pools : Pools) (user : VirtualAddr) (page_dir : ℕ) (descs : List MemBlockDesc)
    (size : ℕ) (d : MemBlockDesc) (small : IsSmall h pools page_dir descs size d) (a fuel : ℕ)
    (v : IsArena a d) (lt : d.blocks_per_arena < fuel) where
  sys_malloc-new :
      (s : Store)
      → malloc_page h.store pools user (pool_flag page_dir) 1 ≡ ok (a, s)
      → (links : Links) × (sys_malloc fuel h pools page_dir user descs size
          ≡ ok
              (arena2block a d 0, first_taken h pools user (pool_flag page_dir) d a fuel v s links))
        × IsList
            (first_taken h pools user (pool_flag page_dir) d a fuel v s links).links
            d.free_list
            (blocks a d 1 (d.blocks_per_arena - 1))
  unfolding sys_malloc
  sys_malloc-new s got =
      let (links, run, is) =
        malloc_block-new h pools user (pool_flag page_dir) d a fuel v s got small.empty lt in
      let p = small.pos in
      let q = small.small in
      let r = small.fits in
      let in_range : (size == 0 || leb (mem_pool (pool_flag page_dir) pools).pool_size size)
          ≡ false =
        ground arith in
      let not_large : ltb 1024 size ≡ false = ground arith in
      (links, rw (in_range, not_large, small.found) run, is)

  -- A block that `sysMalloc` takes from a new arena lies in the arena's page and is as large as asked
  -- for; when `sysFree` takes it back, the page is given back too and the free list is empty again.
  pub sys_free-sys_malloc :
      (s s2 : Store)
      → malloc_page h.store pools user (pool_flag page_dir) 1 ≡ ok (a, s)
      → (not (page_dir == null) || leb k_heap_start (arena2block a d 0)) ≡ true
      → mfree_page (left_store s a d) pools user (pool_flag page_dir) a 1 ≡ ok s2
      → (b : ℕ) × (h1 : Heap) × (h2 : Heap) × (sys_malloc fuel h pools page_dir user descs size
          ≡ ok (b, h1))
        × (a < b)
        × (b + size ≤ a + 4096)
        × (sys_free fuel h1 pools page_dir user b ≡ ok h2)
        × (h2.store ≡ s2)
        × IsList h2.links d.free_list []
  unfolding sys_free
  sys_free-sys_malloc s s2 got heap gave =
      let (links, run, is) = sys_malloc-new s got in
      let n = d.blocks_per_arena in
      let two = v.some_blocks in
      let pos = v.pos in
      let big = small.enough in
      let b = arena2block a d 0 in
      let h1 = first_taken h pools user (pool_flag page_dir) d a fuel v s links in
      let (addr, inside, home) = in_page d a 0 v.desc v.page v.low (omega arith) in
      let rest = blocks a d 1 (n - 1) in
      let out =
        Absent-not_member b rest
          (before-Absent a d fuel v.desc v.page v.low (n - 1) 1 0 (omega arith) (omega arith)) in
      let few = v.few_blocks in
      let count : h1.cnt a + 1 ≡ n = rw home (ground arith) in
      let len = length-blocks a d 1 (n - 1) in
      let (links2, ys, freed_run, is2, left) =
        free_block-last h1 pools user (pool_flag page_dir) d a fuel v 0 rest s2 (omega arith) is out
          (λ i lt' ne. member-blocks a d (n - 1) 1 i (omega arith) (omega arith)) count
          (omega arith) gave in
      let desc : h1.desc (block2arena b) ≡ some d = rw home (ground arith) in
      let ne : (b == null) ≡ false = ground arith in
      let more : n ≡ suc (n - 1) = omega arith in
      let nothing : (x : ℕ) → member x ys ≡ false = λ x.
        left x
        ∙ ap (λ m. member x rest && not (member x (blocks a d 0 m))) more
        ∙ and-and_not (member x rest) (b == x) in
      (
        b,
        h1,
        freed h1 pools user (pool_flag page_dir) d a fuel v links2 s2,
        run,
        omega arith,
        omega arith,
        rw (ne, heap, desc) freed_run,
        refl,
        subst (λ zs. IsList links2 d.free_list zs) (no_member-nil ys nothing) is2,
      )
