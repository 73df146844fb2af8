-- ===== src/Memory.antt =====
-- kernel/memory.c: page frames, page tables, pages of virtual memory and the blocks of the heap.
pub mod Pool
pub mod Paging
pub mod Alloc
pub mod Heap
mod Tests
