-- ===== src/Memory/Pool/Frames.antt =====
-- `palloc` and `pfree` of kernel/memory.c: which frame is handed out, and that it comes back.
use holo_os.Base.{
  ℕ, ◌+◌, ◌*◌, ◌/◌, ◌%◌, ◌<◌, ◌≡◌, ◌≢◌, ◌∙◌, subst, ◌&&◌, ◌==◌, leb, if◌then◌else◌, refl, Bool,
  true, false, Bool-cases, Option, none, some, arith, inl, inr,
}
use holo_os.Base.Memory.{Mem}
use holo_os.Base.Run.{Run, ok}
use holo_os.Bitmap.{bitmap_test, bitmap_scan}
use holo_os.Bitmap.Scan.{IsFree, Scanned, bitmap_scan-Scanned}
use holo_os.Bitmap.Set.{IsBytes, Stored, bitmap_set_lem, bitmap_test_frame}
use holo_os.Memory.Pool.{
  Pool, pg_size, null, sub_32, PoolFlags, pf_kernel, pf_user, mem_pool, Pools, pfree, palloc,
}
use holo_os.Memory.Pool.Layout.{IsPool, IsPools}

-- The address of the frame that a bit of the pool stands for.
abbrev pub frame : Pool → ℕ → ℕ
frame p i = p.paddr_start + i * pg_size

abbrev pub frames : Pool → ℕ
frames p = p.pool_bitmap.size * 8

abbrev pub same_flag : PoolFlags → PoolFlags → Bool
same_flag pf_kernel pf_kernel = true
same_flag pf_user pf_user = true
same_flag pf_kernel pf_user = false
same_flag pf_user pf_kernel = false

abbrev pub is_used : Mem → Pool → ℕ → Bool
is_used m p i = bitmap_test m p.pool_bitmap i

-- What `palloc` does: it fails if every frame is in use, and otherwise hands out the first frame
-- that is free and marks it as used, and nothing else.
pub data Palloc (m : Mem) (p : Pool) (out : ℕ × Mem) : Type 0 where
  full : ((i : ℕ) → i < frames p → is_used m p i ≡ true) → out.0 ≡ null → out.1 ≡ m → Palloc m p out
  taken :
      (i : ℕ)
      → i < frames p
      → is_used m p i ≡ false
      → ((k : ℕ) → k < i → is_used m p k ≡ true)
      → out.0 ≡ frame p i
      → Stored m p.pool_bitmap i true out.1
      → Palloc m p out

module _ (m : Mem) (p : Pool) where
  IsFree-one : (i : ℕ) → is_used m p i ≡ false → IsFree m p.pool_bitmap i 1
  IsFree-one i h j lt = let e : i + j ≡ i = omega arith in rw e h

  used_of_not_free : (i : ℕ) → ¬ IsFree m p.pool_bitmap i 1 → is_used m p i ≡ true
  used_of_not_free i h = elim (Bool-cases (is_used m p i)) [
    | inl used ↦ used
    | inr free ↦ absurd (h (IsFree-one i free))
  ]

  palloc-of_scan :
      IsBytes m
      → IsPool p
      → (r : Option ℕ) → bitmap_scan m p.pool_bitmap 1 ≡ r
      → Scanned m p.pool_bitmap 1 r
      → (out : ℕ × Mem) × (palloc m p ≡ ok out) × Palloc m p out
  unfolding palloc
  palloc-of_scan h v none e s =
      ((null, m), rw (e, palloc), full (λ i lt. used_of_not_free i (s i (omega arith))) refl refl)
  palloc-of_scan h v (some i) e (le, free, first) =
      let (m', run, st) = bitmap_set_lem m p.pool_bitmap i 1 h (omega arith) in
      (
        (frame p i, m'),
        rw (e, run, palloc) (ground (arith, v.fits)),
        taken i (omega arith) (let z : i + 0 ≡ i = omega arith in rw z at (free 0 (omega arith)))
            (λ k lt. used_of_not_free k (first k lt)) refl st,
      )

  -- `palloc` of a pool whose frames fit the address space always returns: NULL and an unchanged
  -- memory exactly if every frame is in use, and otherwise the address of the first free frame,
  -- which is then marked as used while every other bit keeps its value.
  pub palloc_lem : IsBytes m → IsPool p → (out : ℕ × Mem) × (palloc m p ≡ ok out) × Palloc m p out
  palloc_lem h v =
      palloc-of_scan h v (bitmap_scan m p.pool_bitmap 1) refl
        (bitmap_scan-Scanned m p.pool_bitmap 1 (omega arith) (omega (arith, v.fits)))

-- What a call of `palloc` that returned has done.
pub Palloc-of_ok :
    (m : Mem) (p : Pool) (out : ℕ × Mem)
    → IsBytes m
    → IsPool p
    → palloc m p ≡ ok out
    → Palloc m p out
Palloc-of_ok m p out h v e =
    let (out', run, s) = palloc_lem m p h v in
    let same : out' ≡ out = cc in subst (Palloc m p) same s

pub Palloc-aligned :
    {m : Mem} (p : Pool) {out : ℕ × Mem} → IsPool p → Palloc m p out → out.0 % pg_size ≡ 0
Palloc-aligned p v (full all z same) = omega arith
Palloc-aligned p v (taken i lt free first addr st) = omega (arith, v.aligned)

-- A full pool gives NULL.
pub palloc-full :
    (m : Mem) (p : Pool)
    → IsBytes m
    → IsPool p
    → ((i : ℕ) → i < frames p → is_used m p i ≡ true)
    → palloc m p ≡ ok (null, m)
palloc-full m p h v all = let (out, run, s) = palloc_lem m p h v in run ∙ go out s
  where
    go : (out : ℕ × Mem) → Palloc m p out → ◌≡◌ {A = Run (ℕ × Mem)} (ok out) (ok (null, m))
    go out (full _ z same) = λ i. ok (z i, same i)
    go out (taken i lt free first addr st) = cc (all i lt)

-- The bits of a pool do not depend on stores outside of its bitmap.
is_used-kept :
    (m m' : Mem) (p : Pool) (i : ℕ)
    → m' (p.pool_bitmap.bits + i / 8) ≡ m (p.pool_bitmap.bits + i / 8)
    → is_used m' p i ≡ is_used m p i
is_used-kept m m' p i e = bitmap_test_frame m m' p.pool_bitmap i e

module _ (pools : Pools) (v : IsPools pools) where
  mem_pool-IsPool : (pf : PoolFlags) → IsPool (mem_pool pf pools)
  unfolding mem_pool
  mem_pool-IsPool pf_kernel = v.kernel
  mem_pool-IsPool pf_user = v.user

  -- A store of one pool's bit leaves the bits of every pool but that one.
  Stored-is_used :
      (m m' : Mem) (pf pf' : PoolFlags) (i j : ℕ) (b : Bool)
      → i < frames (mem_pool pf pools)
      → j < frames (mem_pool pf' pools)
      → Stored m (mem_pool pf pools).pool_bitmap i b m'
      → is_used m' (mem_pool pf' pools) j
        ≡ (if same_flag pf pf' && i == j then b else is_used m (mem_pool pf' pools) j)
  unfolding mem_pool
  Stored-is_used m m' pf_kernel pf_kernel i j b hi hj st = st.bits j
  Stored-is_used m m' pf_user pf_user i j b hi hj st = st.bits j
  Stored-is_used m m' pf_kernel pf_user i j b hi hj st =
      is_used-kept m m' pools.user_pool j (st.others _ (omega (arith, v.user_bits)))
  Stored-is_used m m' pf_user pf_kernel i j b hi hj st =
      is_used-kept m m' pools.kernel_pool j (st.others _ (omega (arith, v.user_bits)))

  -- `pfree` of a frame of a pool clears the bit of that frame, in the pool that it belongs to.
  pub pfree_lem :
      (m : Mem) (pf : PoolFlags) (i : ℕ)
      → IsBytes m
      → i < frames (mem_pool pf pools)
      → (m' : Mem) × (pfree m pools (frame (mem_pool pf pools) i) ≡ ok m')
        × Stored m (mem_pool pf pools).pool_bitmap i false m'
  unfolding pfree mem_pool
  pfree_lem m pf_kernel i h lt =
      let (m', run, st) = bitmap_set_lem m pools.kernel_pool.pool_bitmap i 0 h (omega arith) in
      let below : leb pools.user_pool.paddr_start (frame pools.kernel_pool i) ≡ false =
        ground (arith, v.frames) in
      let idx : sub_32 (frame pools.kernel_pool i) pools.kernel_pool.paddr_start / pg_size ≡ i =
        omega (arith, v.kernel.fits) in
      (m', rw (below, idx) run, st)
  pfree_lem m pf_user i h lt =
      let (m', run, st) = bitmap_set_lem m pools.user_pool.pool_bitmap i 0 h (omega arith) in
      let above : leb pools.user_pool.paddr_start (frame pools.user_pool i) ≡ true = ground arith in
      let idx : sub_32 (frame pools.user_pool i) pools.user_pool.paddr_start / pg_size ≡ i =
        omega (arith, v.user.fits) in
      (m', rw (above, idx) run, st)

  -- Both pools have the same frames in use.
  abbrev pub SameUse : Mem → Mem → Type 0
  SameUse m m' =
      (pf : PoolFlags) (j : ℕ)
      → j < frames (mem_pool pf pools)
      → is_used m' (mem_pool pf pools) j ≡ is_used m (mem_pool pf pools) j

  put_back :
      (m m1 m2 : Mem) (pf pf' : PoolFlags) (i j : ℕ)
      → is_used m (mem_pool pf pools) i ≡ false
      → is_used m1 (mem_pool pf' pools) j
        ≡ (if same_flag pf pf' && i == j then true else is_used m (mem_pool pf' pools) j)
      → is_used m2 (mem_pool pf' pools) j
        ≡ (if same_flag pf pf' && i == j then false else is_used m1 (mem_pool pf' pools) j)
      → is_used m2 (mem_pool pf' pools) j ≡ is_used m (mem_pool pf' pools) j
  put_back m m1 m2 pf_kernel pf_kernel i j free e1 e2 = ground arith
  put_back m m1 m2 pf_user pf_user i j free e1 e2 = ground arith
  put_back m m1 m2 pf_kernel pf_user i j free e1 e2 = e2 ∙ e1
  put_back m m1 m2 pf_user pf_kernel i j free e1 e2 = e2 ∙ e1

  pfree-of_Palloc :
      (m : Mem) (pf : PoolFlags) (out : ℕ × Mem)
      → Palloc m (mem_pool pf pools) out
      → out.0 ≢ null
      → (m2 : Mem) × (pfree out.1 pools out.0 ≡ ok m2) × SameUse m m2
  pfree-of_Palloc m pf out (full all z same) ne = absurd (ne z)
  pfree-of_Palloc m pf out (taken i lt free first addr st) ne =
      let (m2, run, st2) = pfree_lem out.1 pf i st.bytes lt in
      (
        m2,
        rw addr run,
        λ pf' j lt'.
            put_back m out.1 m2 pf pf' i j free (Stored-is_used m out.1 pf pf' i j true lt lt' st)
              (Stored-is_used out.1 m2 pf pf' i j false lt lt' st2),
      )

  -- A frame that `palloc` hands out from one of the two pools is put back by `pfree` into the pool
  -- that it came from: afterwards both pools have the same frames in use as before.
  pub pfree-palloc :
      (m : Mem) (pf : PoolFlags) (a : ℕ) (m1 : Mem)
      → IsBytes m
      → palloc m (mem_pool pf pools) ≡ ok (a, m1)
      → a ≢ null
      → (m2 : Mem) × (pfree m1 pools a ≡ ok m2) × SameUse m m2
  pfree-palloc m pf a m1 h e ne =
      pfree-of_Palloc m pf (a, m1)
        (Palloc-of_ok m (mem_pool pf pools) (a, m1) h (mem_pool-IsPool pf) e) ne
