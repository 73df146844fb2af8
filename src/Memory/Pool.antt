-- ===== src/Memory/Pool.antt =====
-- kernel/memory.c: a pool of page frames, `palloc`, `pfree` and `memPoolInit`. Each `lock` of a pool
-- is left to the code that takes it.
pub mod Frames
pub mod Layout
use holo_os.Base.{
  ℕ, ◌+◌, ◌-◌, ◌*◌, ◌/◌, ◌%◌, ◌^◌, Bool, true, false, ◌||◌, leb, ◌==◌, if◌then◌else◌, Option, none,
  some,
}
use holo_os.Base.Memory.{Mem}
use holo_os.Base.Run.{Run, ok, ◌>>=◌}
use holo_os.Bitmap.{Bitmap, bitmap_init, bitmap_scan, bitmap_set}

abbrev pub pg_size : ℕ
pg_size = 4096

abbrev pub null : ℕ
null = 0

-- `a - b` on `uint32`
abbrev pub sub_32 : ℕ → ℕ → ℕ
sub_32 a b = (a + 2 ^ 32 - b) % 2 ^ 32

pub record Pool : Type 0 where
  pub pool_bitmap : Bitmap
  pub paddr_start : ℕ
  pub pool_size : ℕ

pub record VirtualAddr : Type 0 where
  pub vaddr_bitmap : Bitmap
  pub vaddr_start : ℕ

-- the `static` variables `kernelPool`, `userPool` and `kernelVaddr`
pub record Pools : Type 0 where
  pub kernel_pool : Pool
  pub user_pool : Pool
  pub kernel_vaddr : VirtualAddr

-- `enum poolFlags`, and `pf & PF_KERNEL ? &kernelPool : &userPool`
pub data PoolFlags : Type 0 where
  pf_kernel pf_user : PoolFlags

unfoldable pub mem_pool : PoolFlags → Pools → Pool
mem_pool pf_kernel pools = pools.kernel_pool
mem_pool pf_user pools = pools.user_pool

-- The frame's address, or NULL, and the memory that the call leaves.
unfoldable pub palloc : Mem → Pool → Run (ℕ × Mem)
palloc m pool = elim (bitmap_scan m pool.pool_bitmap 1) [
  | none ↦ ok (null, m)
  | some bit_idx ↦ do
    m' ← bitmap_set m pool.pool_bitmap bit_idx 1
    ok ((bit_idx * pg_size + pool.paddr_start) % 2 ^ 32, m')
]

unfoldable pub pfree : Mem → Pools → ℕ → Run Mem
pfree m pools paddr =
    if leb pools.user_pool.paddr_start paddr
    then bitmap_set m pools.user_pool.pool_bitmap
        (sub_32 paddr pools.user_pool.paddr_start / pg_size) 0
    else bitmap_set m pools.kernel_pool.pool_bitmap
        (sub_32 paddr pools.kernel_pool.paddr_start / pg_size) 0

abbrev pub mem_bitmap_base : ℕ
mem_bitmap_base = 0xc009a000

abbrev pub k_heap_start : ℕ
k_heap_start = 0xc0100000

-- The `uint16` page counts of `memPoolInit`: all pages, those of the kernel and those of the users.
unfoldable pub free_pages : ℕ → ℕ × ℕ × ℕ
free_pages mem_capacity =
    let page_table_size : ℕ = pg_size * 256 in
    let used_memory = 0x100000 + page_table_size in
    let free_memory = sub_32 mem_capacity used_memory in
    let all = free_memory / pg_size % 2 ^ 16 in
    let kernel = all / 2 in (all, kernel, sub_32 all kernel % 2 ^ 16)

-- The records that `memPoolInit` fills in, before it clears the bitmaps.
unfoldable pub pools_of : ℕ → Pools
unfolding free_pages
pools_of mem_capacity =
    let (all, kernel, user) = free_pages mem_capacity in
    let kbm_length = kernel / 8 in
    let ubm_length = user / 8 in
    let k_phy_start : ℕ = 0x100000 + pg_size * 256 in
    let u_phy_start = (k_phy_start + kernel * pg_size) % 2 ^ 32 in
    record {
      kernel_pool = record {
        pool_bitmap = record { bits = mem_bitmap_base; size = kbm_length };
        paddr_start = k_phy_start;
        pool_size = kernel * pg_size % 2 ^ 32;
      };
      user_pool = record {
        pool_bitmap = record { bits = mem_bitmap_base + kbm_length; size = ubm_length };
        paddr_start = u_phy_start;
        pool_size = user * pg_size % 2 ^ 32;
      };
      kernel_vaddr = record {
        vaddr_bitmap = record {
          bits = mem_bitmap_base + kbm_length + ubm_length;
          size = kbm_length;
        };
        vaddr_start = k_heap_start;
      };
    }

-- `memPoolInit` without its messages on the screen and the two calls of `lockInit`.
pub mem_pool_init : Mem → ℕ → Run (Pools × Mem)
mem_pool_init m mem_capacity = do
  let pools = pools_of mem_capacity
  m1 ← bitmap_init m pools.kernel_pool.pool_bitmap
  m2 ← bitmap_init m1 pools.user_pool.pool_bitmap
  m3 ← bitmap_init m2 pools.kernel_vaddr.vaddr_bitmap
  ok (pools, m3)
