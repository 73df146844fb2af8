-- ===== src/Memory/Tests.antt =====
-- kernel/memory.c on a machine of 32 MB, and the theorems there.
use holo_os.Base.{ℕ, ◌+◌, ◌*◌, ◌%◌, ◌^◌, ◌<◌, ◌≤◌, ◌≡◌, refl, true, arith}
use holo_os.Base.Bits.{test_bit, set_bit, test_bit_full}
use holo_os.Bitmap.{bitmap_scan, bitmap_test, bitmap_set}
use holo_os.Base.Memory.{Mem, update}
use holo_os.Base.Run.{ok, panic}
use holo_os.Bitmap.Set.{IsBytes}
use holo_os.Memory.Pool.{Pools, pools_of, palloc, pfree, pf_kernel, mem_pool}
use holo_os.Memory.Pool.Frames.{SameUse, pfree-palloc, is_used, frames}
use holo_os.Memory.Pool.Layout.{IsPools, pools_of-IsPools, pools_of_truncates}
use holo_os.Memory.Paging.{Store, page_table_add, pde_ptr, pte_ptr}
use holo_os.Memory.Paging.Mapping.{pde, page_table_add-panic}
use holo_os.Memory.Paging.Tables.{MappedNew, page_table_add-MappedNew, page_table_add-full}

abbrev mem_size : ℕ
mem_size = 32 * 2 ^ 20

abbrev pools : Pools
pools = pools_of mem_size

-- No frame is in use, and no page is mapped.
abbrev blank : Mem
blank a = 0

blank-IsBytes : IsBytes blank
blank-IsBytes a = omega arith

pools-IsPools : IsPools pools
pools-IsPools = (pools_of-IsPools mem_size (omega arith) (omega arith)).0

-- With 258 MB no page at all is left.
pools_of_truncates_example :
    (pools_of (258 * 2 ^ 20)).kernel_pool.pool_size
      + (pools_of (258 * 2 ^ 20)).user_pool.pool_size
      + 0x200000
      + 2 ^ 28
    ≤ 258 * 2 ^ 20
pools_of_truncates_example = pools_of_truncates (258 * 2 ^ 20) (omega arith) (omega arith)

-- The first frame of the kernel's pool is in use.
abbrev one_used : Mem
one_used = update blank 0xc009a000 1

palloc_first : palloc blank pools.kernel_pool ≡ ok (0x200000, one_used)
unfolding pools_of palloc bitmap_scan bitmap_test bitmap_set test_bit set_bit
palloc_first = refl

pfree-palloc_example :
    (m2 : Mem) × (pfree one_used pools 0x200000 ≡ ok m2) × SameUse pools pools-IsPools blank m2
unfolding mem_pool
pfree-palloc_example =
    pfree-palloc pools pools-IsPools blank pf_kernel 0x200000 one_used blank-IsBytes palloc_first
      (omega arith)

-- The directory maps the region of the kernel's heap; no page of it is mapped.
abbrev store : Store
store = record { bytes = blank; words = update blank 0xfffffc00 7 }

abbrev unmapped : Store
unmapped = record { bytes = blank; words = blank }

page_table_add-panic_example :
    page_table_add
      (record store { words = update store.words 0xfff00400 0x200007 })
      pools
      0xc0100000
      0x201000
    ≡ panic
unfolding pde_ptr pte_ptr
page_table_add-panic_example =
    page_table_add-panic (record store { words = update store.words 0xfff00400 0x200007 }) pools
      0xc0100000 0x201000 refl refl

page_table_add-MappedNew_example :
    (s' : Store) × (page_table_add unmapped pools 0xc0100000 0x201000 ≡ ok s')
    × (s'.bytes ≡ one_used)
    × MappedNew blank s'.words 0xc0100000 0x200000 0x201000
page_table_add-MappedNew_example =
    page_table_add-MappedNew unmapped pools 0xc0100000 0x201000 (omega arith) blank-IsBytes
      pools-IsPools.kernel 0x200000 one_used palloc_first refl (omega arith) refl

-- Every byte is 0xff, so no frame is free.
abbrev all_used : Mem
all_used a = 0xff

all_used-used : (i : ℕ) → i < frames pools.kernel_pool → is_used all_used pools.kernel_pool i ≡ true
unfolding bitmap_test
all_used-used i lt = test_bit_full (i % 8) (omega arith)

page_table_add-full_example :
    (s' : Store) × (page_table_add
        (record { bytes = all_used; words = blank })
        pools
        0xc0100000
        0x201000
      ≡ ok s')
    × (pde s'.words 0xc0100000 ≡ 7)
page_table_add-full_example =
    page_table_add-full (record { bytes = all_used; words = blank }) pools 0xc0100000 0x201000
      (omega arith) (λ a. omega arith) pools-IsPools.kernel all_used-used refl (omega arith) refl
