-- ===== src/Memory/Heap/Calls/Tests.antt =====
-- A block of 1000 bytes of the kernel's heap on a machine of 32 MB (kernel/memory.c), and the theorems there.
use holo_os.Base.{
  ℕ, ◌+◌, ◌*◌, ◌^◌, ◌<◌, ◌≤◌, ◌≡◌, refl, inl, true, false, not, ◌&&◌, ◌||◌, ◌==◌, leb,
  if◌then◌else◌, none, some, List, [], ◌∷◌, arith,
}
use holo_os.Base.Bits.{test_bit, set_bit, clear_bit}
use holo_os.Base.Run.{ok}
use holo_os.Bitmap.{bitmap_scan, bitmap_test, bitmap_set}
use holo_os.CString.Block.{fill}
use holo_os.LinkedList.{Links}
use holo_os.LinkedList.Segment.{IsList}
use holo_os.LinkedList.Walk.{member}
use holo_os.Memory.Alloc.{
  malloc_page, vaddr_get, set_bits, map_pages, space, below_stack, mfree_page, unmap_pages,
  vaddr_remove, in_pool,
}
use holo_os.Memory.Heap.{MemBlockDesc, find_desc, arena2block}
use holo_os.Memory.Heap.Calls.{Heap, sys_malloc, sys_free, free_block}
use holo_os.Memory.Heap.Calls.Arenas.{blocks}
use holo_os.Memory.Heap.Calls.Trips.{IsArena, freed, free_block-last}
use holo_os.Memory.Heap.Calls.Whole.{IsSmall, left_store, sys_free-sys_malloc}
use holo_os.Memory.Paging.{
  Store, page_table_add, pte_ptr, pde_ptr, v2p, page_table_pte_remove, entry,
}
use holo_os.Memory.Pool.{
  Pools, VirtualAddr, pools_of, palloc, pfree, mem_pool, pf_kernel, null, k_heap_start,
}

abbrev pools : Pools
pools = pools_of (32 * 2 ^ 20)

abbrev user : VirtualAddr
user = record { vaddr_start = 0; vaddr_bitmap = record { bits = 0; size = 0 } }

-- The largest blocks, with the head of their list at 1000.
abbrev desc : MemBlockDesc
desc = record { block_size = 1024; blocks_per_arena = 3; free_list = 1000 }

-- Every entry of the directory is present, no page is mapped, and the list is empty.
abbrev heap : Heap
heap = record {
  store = record { bytes = λ a. 0; words = λ a. if leb 0xfffff000 a then 0x101007 else 0 };
  links = record { next = λ a. 1008; prev = λ a. 1000 };
  desc = λ a. none;
  cnt = λ a. 0;
  large = λ a. false;
}

heap-IsSmall : IsSmall heap pools 0 (desc ∷ []) 1000 desc
unfolding find_desc pools_of mem_pool
heap-IsSmall = record {
  pos = omega arith;
  small = omega arith;
  fits = omega arith;
  found = refl;
  enough = omega arith;
  empty = record { chain = (refl, refl); apart = omega arith };
}

abbrev arena : ℕ
arena = 0xc0100000

arena-IsArena : IsArena arena desc
arena-IsArena = record {
  desc = (omega arith, refl);
  some_blocks = omega arith;
  few_blocks = omega arith;
  page = refl;
  pos = omega arith;
  low = omega arith;
  head = inl (omega arith);
}

got_page : (s : Store) × (malloc_page heap.store pools user pf_kernel 1 ≡ ok (arena, s))
unfolding pools_of mem_pool malloc_page vaddr_get set_bits map_pages palloc bitmap_scan bitmap_test
    bitmap_set test_bit set_bit page_table_add space below_stack pte_ptr pde_ptr
got_page = (_, refl)

gave_page :
    (s : Store) × (mfree_page (left_store got_page.0 arena desc) pools user pf_kernel arena 1
      ≡ ok s)
unfolding pools_of mem_pool fill v2p pte_ptr entry mfree_page unmap_pages vaddr_remove in_pool pfree
    set_bits bitmap_set set_bit clear_bit space page_table_pte_remove arena2block got_page
gave_page = (_, refl)

in_heap : (not (0 == null) || leb k_heap_start (arena2block arena desc 0)) ≡ true
unfolding arena2block
in_heap = refl

sys_free-sys_malloc_example :
    (b : ℕ) × (h1 : Heap) × (h2 : Heap) × (sys_malloc 9 heap pools 0 user (desc ∷ []) 1000
      ≡ ok (b, h1))
    × (arena < b)
    × (b + 1000 ≤ arena + 4096)
    × (sys_free 9 h1 pools 0 user b ≡ ok h2)
    × (h2.store ≡ gave_page.0)
    × IsList h2.links 1000 []
sys_free-sys_malloc_example =
    sys_free-sys_malloc heap pools user 0 (desc ∷ []) 1000 desc heap-IsSmall arena 9 arena-IsArena
      (omega arith) got_page.0 gave_page.0 got_page.1 in_heap gave_page.1

-- Blocks 1 and 2 of the arena are free, and block 0 comes back.
abbrev one : ℕ
one = arena + 12 + 1024

abbrev two : ℕ
two = arena + 12 + 2048

abbrev nearly_free : Heap
nearly_free = record {
  store = left_store got_page.0 arena desc;
  links = record {
    next = λ a. if a == 1000 then one else if a == one then two else 1008;
    prev = λ a. if a == 1008 then two else if a == two then one else 1000;
  };
  desc = λ a. some desc;
  cnt = λ a. 2;
  large = λ a. false;
}

nearly_free-IsList : IsList nearly_free.links 1000 (one ∷ two ∷ [])
nearly_free-IsList = record {
  chain = (refl, refl, (refl, refl, (refl, refl)));
  apart = omega arith;
}

free_block-last_example :
    (links : Links) × (ys : List ℕ) × (free_block 9 nearly_free pools user pf_kernel desc
        (arena2block arena desc 0)
      ≡ ok (freed nearly_free pools user pf_kernel desc arena 9 arena-IsArena links gave_page.0))
    × IsList links 1000 ys
    × ((x : ℕ)
        → member x ys ≡ (member x (one ∷ two ∷ []) && not (member x (blocks arena desc 0 3))))
unfolding arena2block
free_block-last_example =
    free_block-last nearly_free pools user pf_kernel desc arena 9 arena-IsArena 0 (one ∷ two ∷ [])
      gave_page.0 (omega arith) nearly_free-IsList refl (λ i lt ne. ground arith) refl (omega arith)
      gave_page.1
