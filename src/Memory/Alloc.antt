-- ===== src/Memory/Alloc.antt =====
-- kernel/memory.c: pages of virtual memory and the frames behind them (`vaddrGet`, `vaddrRemove`,
-- `mallocPage`, `mfreePage`, `getKernelPages`, `getUserPages`, `getPage`). The user space of the current thread is an argument.
pub mod Range
pub mod Spaces
pub mod Pages
mod Tests
use Prim.Native.Nat.{bit_and}
use holo_os.Base.{
  ℕ, zero, suc, ◌+◌, ◌-◌, ◌*◌, ◌/◌, ◌%◌, ◌^◌, Bool, true, false, not, ◌&&◌, leb, ltb, ◌==◌,
  if◌then◌else◌, Option, none, some,
}
use holo_os.Base.Memory.{Mem}
use holo_os.Base.Run.{Run, ok, assert, ◌>>=◌, ◌>>◌}
use holo_os.Bitmap.{Bitmap, bitmap_scan, bitmap_set}
use holo_os.CString.{memset}
use holo_os.Memory.Pool.{
  Pools, VirtualAddr, PoolFlags, pf_kernel, pf_user, mem_pool, pg_size, null, sub_32, palloc, pfree,
}
use holo_os.Memory.Paging.{Store, page_table_add, page_table_pte_remove, v2p}

-- `for (i = 0; i < pgCnt; ++i) bitmapSet(bmap, start + i, val);`
unfoldable pub set_bits : Mem → Bitmap → ℕ → ℕ → ℕ → Run Mem
set_bits m bmap start zero val = ok m
set_bits m bmap start (suc cnt) val = do
  m' ← bitmap_set m bmap start val
  set_bits m' bmap (start + 1) cnt val

-- `&kernelVaddr`, or the `userVaddr` of the current thread
unfoldable pub space : PoolFlags → Pools → VirtualAddr → VirtualAddr
space pf_kernel pools user = pools.kernel_vaddr
space pf_user pools user = user

-- `ASSERT((uint32) vaddrStart < (0xc0000000 - PG_SIZE))` for a user page
unfoldable pub below_stack : PoolFlags → ℕ → Bool
below_stack pf_kernel vaddr = true
below_stack pf_user vaddr = ltb vaddr (0xc0000000 - pg_size)

unfoldable pub vaddr_get : Mem → Pools → VirtualAddr → PoolFlags → ℕ → Run (ℕ × Mem)
vaddr_get m pools user pf pg_cnt =
    let va = space pf pools user in
    elim (bitmap_scan m va.vaddr_bitmap pg_cnt) [
      | none ↦ ok (null, m)
      | some start ↦ do
        m' ← set_bits m va.vaddr_bitmap start pg_cnt 1
        let vaddr = (va.vaddr_start + start * pg_size) % 2 ^ 32
        assert (below_stack pf vaddr)
        ok (vaddr, m')
    ]

unfoldable pub vaddr_remove : Mem → Pools → VirtualAddr → PoolFlags → ℕ → ℕ → Run Mem
vaddr_remove m pools user pf vaddr page_cnt =
    let va = space pf pools user in
    set_bits m va.vaddr_bitmap (sub_32 vaddr va.vaddr_start / pg_size) page_cnt 0

-- The loop of `mallocPage`, by the pages left; false where `palloc` found no frame.
unfoldable pub map_pages : Store → Pools → PoolFlags → ℕ → ℕ → Run (Bool × Store)
map_pages s pools pf zero vaddr = ok (true, s)
map_pages s pools pf (suc cnt) vaddr = do
  (paddr, bytes) ← palloc s.bytes (mem_pool pf pools)
  if paddr == null then ok (false, record s { bytes = bytes }) else do
    s' ← page_table_add (record s { bytes = bytes }) pools vaddr paddr
    map_pages s' pools pf cnt ((vaddr + pg_size) % 2 ^ 32)

unfoldable pub malloc_page : Store → Pools → VirtualAddr → PoolFlags → ℕ → Run (ℕ × Store)
malloc_page s pools user pf pg_cnt = do
  assert (ltb 0 pg_cnt && ltb pg_cnt 3840)
  (start, bytes) ← vaddr_get s.bytes pools user pf pg_cnt
  if start == null then ok (null, record s { bytes = bytes }) else do
    (mapped, s') ← map_pages (record s { bytes = bytes }) pools pf pg_cnt start
    ok (if mapped then start else null, s')

-- `memset(vaddr, 0, pgCnt * PG_SIZE)`, which clears words as it clears bytes
unfoldable pub clear_pages : Store → ℕ → ℕ → Run Store
clear_pages s vaddr pg_cnt = do
  bytes ← memset s.bytes vaddr 0 (pg_cnt * pg_size % 2 ^ 32)
  words ← memset s.words vaddr 0 (pg_cnt * pg_size % 2 ^ 32)
  ok (record { bytes = bytes; words = words })

unfoldable pub get_kernel_pages : Store → Pools → VirtualAddr → ℕ → Run (ℕ × Store)
get_kernel_pages s pools user pg_cnt = do
  (vaddr, s') ← malloc_page s pools user pf_kernel pg_cnt
  if vaddr == null then ok (vaddr, s') else do s'' ← clear_pages s' vaddr pg_cnt; ok (vaddr, s'')

-- The lock of the user's pool is taken and given back around it.
pub get_user_pages : Store → Pools → VirtualAddr → ℕ → Run (ℕ × Store)
get_user_pages s pools user pg_cnt = do
  (vaddr, s') ← malloc_page s pools user pf_user pg_cnt
  if vaddr == null then ok (vaddr, s') else do s'' ← clear_pages s' vaddr pg_cnt; ok (vaddr, s'')

-- `cur->pageDir != NULL && pf == PF_USER`, or `cur->pageDir == NULL && pf == PF_KERNEL`
unfoldable pub may_take : PoolFlags → ℕ → Bool
may_take pf_user page_dir = not (page_dir == null)
may_take pf_kernel page_dir = page_dir == null

-- `page_dir` is that of the current thread. The flag of the result says whether the lock of the pool
-- is held when the call returns.
unfoldable pub get_page : Store → Pools → ℕ → VirtualAddr → PoolFlags → ℕ → Run (ℕ × Bool × Store)
get_page s pools page_dir user pf vaddr = do
  assert (may_take pf page_dir)
  let va = space pf pools user
  let bit_idx = sub_32 vaddr va.vaddr_start / pg_size
  assert (ltb 0 bit_idx)
  marked ← bitmap_set s.bytes va.vaddr_bitmap bit_idx 1
  (paddr, bytes) ← palloc marked (mem_pool pf pools)
  if paddr == null then ok (null, true, record s { bytes = bytes }) else do
    s' ← page_table_add (record s { bytes = bytes }) pools vaddr paddr
    ok (vaddr, false, s')

-- The test of each round of `mfreePage`: the frame belongs to the pool of the first one.
unfoldable pub in_pool : Pools → PoolFlags → ℕ → Bool
in_pool pools pf_user paddr = paddr % pg_size == 0 && leb pools.user_pool.paddr_start paddr
in_pool pools pf_kernel paddr =
    paddr % pg_size == 0
    && ltb paddr pools.user_pool.paddr_start
    && leb pools.kernel_pool.paddr_start paddr

-- Both loops of `mfreePage`, by the pages left.
unfoldable pub unmap_pages : Store → Pools → PoolFlags → ℕ → ℕ → Run Store
unmap_pages s pools pool zero vaddr = ok s
unmap_pages s pools pool (suc cnt) vaddr = do
  let paddr = v2p s.words vaddr
  assert (in_pool pools pool paddr)
  bytes ← pfree s.bytes pools paddr
  let words = page_table_pte_remove s.words vaddr
  unmap_pages (record { bytes = bytes; words = words }) pools pool cnt ((vaddr + pg_size) % 2 ^ 32)

unfoldable pub mfree_page : Store → Pools → VirtualAddr → PoolFlags → ℕ → ℕ → Run Store
mfree_page s pools user pf vaddr page_cnt = do
  assert (leb 1 page_cnt && vaddr % pg_size == 0)
  let paddr = v2p s.words vaddr
  assert (paddr % pg_size == 0 && leb 0x102000 paddr)
  let pool = if leb pools.user_pool.paddr_start paddr then pf_user else pf_kernel
  s' ← unmap_pages s pools pool page_cnt vaddr
  bytes ← vaddr_remove s'.bytes pools user pf vaddr page_cnt
  ok (record s' { bytes = bytes })
