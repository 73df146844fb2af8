-- ===== src/Memory/Heap/Tests.antt =====
-- The blocks for 100 bytes in an arena of the kernel's heap (kernel/memory.c), and the theorem there.
use holo_os.Base.{ℕ, ◌+◌, ◌*◌, ◌<◌, ◌≤◌, ◌≡◌, ◌⊎◌, refl, some, arith}
use holo_os.LinkedList.{Links}
use holo_os.Memory.Heap.{MemBlockDesc, block_desc_init, find_desc, arena2block, block2arena}
use holo_os.Memory.Heap.Blocks.{block2arena-arena2block}

abbrev links : Links
links = record { prev = λ a. 0; next = λ a. 0 }

block2arena-arena2block_example :
    (d : MemBlockDesc) × (find_desc (block_desc_init links 0xc0007000).0 100 ≡ some d)
    × (100 ≤ d.block_size)
    × ((d.block_size ≡ 16) ⊎ (d.block_size < 2 * 100))
    × ((i : ℕ)
        → i < d.blocks_per_arena
        → (block2arena (arena2block 0xc0100000 d i) ≡ 0xc0100000)
          × (0xc0100000 + 12 ≤ arena2block 0xc0100000 d i)
          × (arena2block 0xc0100000 d i + d.block_size ≤ 0xc0100000 + 4096))
    × ((i j : ℕ)
        → i < j
        → j < d.blocks_per_arena
        → arena2block 0xc0100000 d i + d.block_size ≤ arena2block 0xc0100000 d j)
block2arena-arena2block_example =
    block2arena-arena2block links 0xc0007000 100 0xc0100000 (omega arith) refl (omega arith)
