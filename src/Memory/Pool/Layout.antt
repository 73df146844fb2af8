-- ===== src/Memory/Pool/Layout.antt =====
-- The pools that `memPoolInit` (kernel/memory.c) lays out.
use holo_os.Base.{ℕ, ◌+◌, ◌*◌, ◌/◌, ◌%◌, ◌^◌, ◌<◌, ◌≤◌, ◌≡◌, refl, ◌⊎◌, ◌∙◌, false, arith, inl}
use holo_os.Base.Memory.{Mem}
use holo_os.Base.Run.{ok}
use holo_os.Bitmap.{Bitmap, bitmap_init, bitmap_test}
use holo_os.Bitmap.Set.{bitmap_init_lem, bitmap_test_frame}
use holo_os.Memory.Pool.{Pool, Pools, mem_bitmap_base, pools_of, mem_pool_init}

abbrev pub used_memory : ℕ
used_memory = 0x200000

-- The bits of a pool stand for page frames whose addresses fit a word.
pub record IsPool (p : Pool) : Type 0 where
  pub aligned : p.paddr_start % 4096 ≡ 0
  pub above : used_memory ≤ p.paddr_start
  pub fits : p.paddr_start + p.pool_bitmap.size * 8 * 4096 ≤ 2 ^ 32

-- The three bitmaps lie one behind the other, and so do the frames of the two pools.
pub record IsPools (p : Pools) : Type 0 where
  pub base : 0 < p.kernel_pool.pool_bitmap.bits
  pub user_bits :
      p.kernel_pool.pool_bitmap.bits + p.kernel_pool.pool_bitmap.size ≤ p.user_pool.pool_bitmap.bits
  pub vaddr_bits :
      p.user_pool.pool_bitmap.bits + p.user_pool.pool_bitmap.size ≤ p.kernel_vaddr.vaddr_bitmap.bits
  pub kernel : IsPool p.kernel_pool
  pub user : IsPool p.user_pool
  pub frames :
      p.kernel_pool.paddr_start + p.kernel_pool.pool_bitmap.size * 8 * 4096
      ≤ p.user_pool.paddr_start
  pub heap_aligned : p.kernel_vaddr.vaddr_start % 4096 ≡ 0
  pub heap : 0 < p.kernel_vaddr.vaddr_start
  pub heap_fits : p.kernel_vaddr.vaddr_start + p.kernel_vaddr.vaddr_bitmap.size * 8 * 4096 ≤ 2 ^ 32

-- On a machine with 2 MB to 258 MB of memory the layout is sound: the three bitmaps lie apart in
-- the four pages below the kernel's control block, the frames of both pools lie apart between the
-- memory in use and the end of memory, and the kernel's virtual pages fit the address space.
pub pools_of-IsPools :
    (memory : ℕ)
    → used_memory ≤ memory
    → memory < used_memory + 2 ^ 28
    → IsPools (pools_of memory)
      × ((pools_of memory).kernel_vaddr.vaddr_bitmap.bits
            + (pools_of memory).kernel_vaddr.vaddr_bitmap.size
          ≤ 0xc009e000)
      × ((pools_of memory).user_pool.paddr_start
            + (pools_of memory).user_pool.pool_bitmap.size * 8 * 4096
          ≤ memory)
unfolding pools_of
pools_of-IsPools memory low high = omega arith

mem_bitmap_base-le : (memory : ℕ) → mem_bitmap_base ≤ (pools_of memory).kernel_pool.pool_bitmap.bits
unfolding pools_of
mem_bitmap_base-le memory = omega arith

-- On a machine with 258 MB or more, up to the 4 GB of the address space, the 16-bit page count
-- wraps: at least 256 MB of the memory beyond the first 2 MB belong to no pool.
pub pools_of_truncates :
    (memory : ℕ)
    → used_memory + 2 ^ 28 ≤ memory
    → memory < 2 ^ 32
    → (pools_of memory).kernel_pool.pool_size
        + (pools_of memory).user_pool.pool_size
        + used_memory
        + 2 ^ 28
      ≤ memory
unfolding pools_of
pools_of_truncates memory high word = omega arith

-- Every bit of the bitmap is 0.
abbrev pub AllClear : Mem → Bitmap → Type 0
AllClear m b = (i : ℕ) → i < b.size * 8 → bitmap_test m b i ≡ false

AllClear-kept :
    (m m' : Mem) (b : Bitmap)
    → AllClear m b
    → ((a : ℕ) → b.bits ≤ a → a < b.bits + b.size → m' a ≡ m a)
    → AllClear m' b
AllClear-kept m m' b h same i lt =
    bitmap_test_frame m m' b i (same (b.bits + i / 8) (omega arith) (omega arith)) ∙ h i lt

-- Three bitmaps that lie one behind the other are cleared in turn.
clear_three :
    (m : Mem) (p q r : Bitmap) (low high : ℕ)
    → 0 < low
    → low ≤ p.bits
    → p.bits + p.size ≤ q.bits
    → q.bits + q.size ≤ r.bits
    → r.bits + r.size ≤ high
    → (m1 : Mem) × (m2 : Mem) × (m' : Mem) × (bitmap_init m p ≡ ok m1)
      × (bitmap_init m1 q ≡ ok m2)
      × (bitmap_init m2 r ≡ ok m')
      × AllClear m' p
      × AllClear m' q
      × AllClear m' r
      × ((a : ℕ) → (a < low) ⊎ (high ≤ a) → m' a ≡ m a)
clear_three m p q r low high pos h1 h2 h3 h4 =
    let (m1, run1, clear1, same1) = bitmap_init_lem m p (omega arith) in
    let (m2, run2, clear2, same2) = bitmap_init_lem m1 q (omega arith) in
    let (m3, run3, clear3, same3) = bitmap_init_lem m2 r (omega arith) in
    (
      m1,
      m2,
      m3,
      run1,
      run2,
      run3,
      AllClear-kept m2 m3 p (AllClear-kept m1 m2 p clear1 λ a lo hi. same2 a (inl (omega arith)))
          (λ a lo hi. same3 a (inl (omega arith))),
      AllClear-kept m2 m3 q clear2 (λ a lo hi. same3 a (inl (omega arith))),
      clear3,
      λ a out. same3 a (omega arith) ∙ same2 a (omega arith) ∙ same1 a (omega arith),
    )

-- `memPoolInit` on such a machine returns those pools with every frame and every page free, and
-- writes no byte outside of the four pages of the bitmaps.
pub mem_pool_init_lem :
    (m : Mem) (memory : ℕ)
    → used_memory ≤ memory
    → memory < used_memory + 2 ^ 28
    → (m' : Mem) × (mem_pool_init m memory ≡ ok (pools_of memory, m'))
      × AllClear m' (pools_of memory).kernel_pool.pool_bitmap
      × AllClear m' (pools_of memory).user_pool.pool_bitmap
      × AllClear m' (pools_of memory).kernel_vaddr.vaddr_bitmap
      × ((a : ℕ) → (a < mem_bitmap_base) ⊎ (0xc009e000 ≤ a) → m' a ≡ m a)
unfolding mem_pool_init
mem_pool_init_lem m memory low high =
    let (v, top, _) = pools_of-IsPools memory low high in
    let (m1, m2, m', run1, run2, run3, kernel, user, pages, same) =
      clear_three m (pools_of memory).kernel_pool.pool_bitmap
        (pools_of memory).user_pool.pool_bitmap (pools_of memory).kernel_vaddr.vaddr_bitmap
        mem_bitmap_base 0xc009e000 (omega arith) (mem_bitmap_base-le memory) v.user_bits
        v.vaddr_bits top in
    (m', rw (run1, run2, run3) refl, kernel, user, pages, same)
