-- ===== src/Memory/Heap.antt =====
-- kernel/memory.c: the sizes of the heap's blocks and where the blocks of an arena lie
-- (`blockDescInit`, `arena2block`, `block2arena`, the search of `sysMalloc` for a size, and `memInit`).
pub mod Blocks
pub mod Calls
pub mod Members
pub mod Kept
mod Tests
use Prim.Native.Nat.{bit_and}
use holo_os.Base.{
  ℕ, zero, suc, ◌+◌, ◌-◌, ◌*◌, ◌/◌, ◌%◌, ◌^◌, leb, if◌then◌else◌, Option, none, some, List, [], ◌∷◌,
}
use holo_os.LinkedList.{Links, list_init}
use holo_os.Base.Run.{Run, ok, ◌>>=◌}
use holo_os.Memory.Paging.{Store}
use holo_os.Memory.Pool.{Pools, mem_pool_init, pg_size}

-- `sizeof(struct arena)`: a pointer, a count and a flag, filled up to a multiple of 4
abbrev pub arena_size : ℕ
arena_size = 12

abbrev pub desc_cnt : ℕ
desc_cnt = 7

-- `freeList` by its address
pub record MemBlockDesc : Type 0 where
  pub block_size : ℕ
  pub blocks_per_arena : ℕ
  pub free_list : ℕ

-- The loop, by the rounds left: a descriptor takes 24 bytes, the last 16 its list.
desc_loop : ℕ → Links → ℕ → ℕ → List MemBlockDesc × Links
desc_loop zero h desc block_size = ([], h)
desc_loop (suc rounds) h desc block_size =
    let d : MemBlockDesc = record {
      block_size = block_size;
      blocks_per_arena = (pg_size - arena_size) / block_size;
      free_list = desc + 8;
    } in
    let (ds, h') =
      desc_loop rounds (list_init h (desc + 8)) (desc + 24) ((block_size + block_size) % 2 ^ 32) in
    (d ∷ ds, h')

pub block_desc_init : Links → ℕ → List MemBlockDesc × Links
unfolding desc_loop
block_desc_init h desc_arr = desc_loop desc_cnt h desc_arr 16

-- `for (descIdx = 0; descIdx < DESC_CNT; descIdx++) { if (size <= descs[descIdx].blockSize) { break; } }`
pub find_desc : List MemBlockDesc → ℕ → Option MemBlockDesc
find_desc [] size = none
find_desc (d ∷ ds) size =
    let rest = find_desc ds size in if leb size d.block_size then some d else rest

pub arena2block : ℕ → MemBlockDesc → ℕ → ℕ
arena2block a desc idx = (a + arena_size + idx * desc.block_size) % 2 ^ 32

pub block2arena : ℕ → ℕ
block2arena b = bit_and b 0xfffff000

-- `memInit` with the size of memory that the loader has left at 0xb06; `k_block_descs` is the address
-- of `kBlockDescs`.
unfoldable pub mem_init : Store → Links → ℕ → Run (Pools × List MemBlockDesc × Store × Links)
mem_init s h k_block_descs = do
  (pools, bytes) ← mem_pool_init s.bytes (s.words 0xb06)
  let (descs, h') = block_desc_init h k_block_descs
  ok (pools, descs, record s { bytes = bytes }, h')
