-- ===== src/Memory/Alloc/Tests.antt =====
-- The pages of a user process of 23 MB from 0x8048000 (kernel/memory.c), and the theorems there.
use holo_os.Base.{ℕ, ◌*◌, ◌%◌, ◌^◌, ◌<◌, true, ◌==◌, if◌then◌else◌, ◌≡◌, refl, arith}
use holo_os.Base.Bits.{test_bit, set_bit, test_bit_full}
use holo_os.Base.Memory.{Mem, update}
use holo_os.Base.Run.{ok}
use holo_os.Bitmap.{bitmap_scan, bitmap_test, bitmap_set}
use holo_os.Bitmap.Set.{IsBytes}
use holo_os.Memory.Pool.{Pools, VirtualAddr, pf_user, pools_of, mem_pool, null}
use holo_os.Memory.Pool.Frames.{frames, is_used}
use holo_os.Memory.Pool.Layout.{pools_of-IsPools}
use holo_os.Memory.Alloc.Pages.{get_page-full}
use holo_os.Memory.Alloc.{space, below_stack, get_page, may_take, vaddr_get, vaddr_remove, set_bits}
use holo_os.Memory.Alloc.Spaces.{IsSpace, vaddr_remove-vaddr_get}

abbrev pools : Pools
pools = pools_of (32 * 2 ^ 20)

abbrev user : VirtualAddr
user = record { vaddr_bitmap = record { bits = 0xc0101000; size = 736 }; vaddr_start = 0x8048000 }

user-IsSpace : IsSpace (space pf_user pools user)
unfolding space
user-IsSpace = record { aligned = refl; above = omega arith; fits = omega arith }

-- The second page is in use.
abbrev second_used : Mem
second_used a = if a == 0xc0101000 then 2 else 0

second_used-IsBytes : IsBytes second_used
second_used-IsBytes a = ground arith

-- The next two are in use as well.
abbrev four_used : Mem
four_used = update (update second_used 0xc0101000 6) 0xc0101000 14

vaddr_get_third : vaddr_get second_used pools user pf_user 2 ≡ ok (0x804a000, four_used)
unfolding vaddr_get space below_stack set_bits bitmap_scan bitmap_test bitmap_set test_bit set_bit
vaddr_get_third = refl

vaddr_remove-vaddr_get_example :
    (m2 : Mem) × (vaddr_remove four_used pools user pf_user 0x804a000 2 ≡ ok m2)
    × ((j : ℕ) → bitmap_test m2 user.vaddr_bitmap j ≡ bitmap_test second_used user.vaddr_bitmap j)
unfolding space
vaddr_remove-vaddr_get_example =
    vaddr_remove-vaddr_get second_used pools user pf_user 2 0x804a000 four_used second_used-IsBytes
      user-IsSpace (omega arith) vaddr_get_third (omega arith)

-- Every byte is 0xff, so no frame is free.
abbrev all_used : Mem
all_used a = 0xff

abbrev marked : Mem
marked = update all_used 0xc0101000 0xff

marked-IsBytes : IsBytes marked
marked-IsBytes a = ground arith

marked-used : (i : ℕ) → i < frames pools.user_pool → is_used marked pools.user_pool i ≡ true
unfolding bitmap_test pools_of
marked-used i lt = let full = test_bit_full (i % 8) (omega arith) in ground arith

get_page-full_example :
    get_page (record { bytes = all_used; words = λ a. 0 }) pools 0xc0300000 user pf_user 0x8049000
    ≡ ok (null, true, record { bytes = marked; words = λ a. 0 })
unfolding space bitmap_set set_bit mem_pool may_take
get_page-full_example =
    get_page-full (record { bytes = all_used; words = λ a. 0 }) pools 0xc0300000 user pf_user
      0x8049000 marked refl (omega arith) refl marked-IsBytes
      (pools_of-IsPools (32 * 2 ^ 20) (omega arith) (omega arith)).0.user marked-used
