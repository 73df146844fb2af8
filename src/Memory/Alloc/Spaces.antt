-- ===== src/Memory/Alloc/Spaces.antt =====
-- `vaddrGet` and `vaddrRemove` of kernel/memory.c: which pages of a space are handed out, and that
-- they come back.
use holo_os.Base.{
  ℕ, ◌+◌, ◌-◌, ◌*◌, ◌/◌, ◌%◌, ◌^◌, ◌<◌, ◌≤◌, ◌≡◌, ◌≢◌, refl, ◌∙◌, Bool-cases, true, false,
  if◌then◌else◌, Option, none, some, arith, inl, inr, sym,
}
use holo_os.Base.Memory.{Mem}
use holo_os.Base.Run.{Run, ok, panic}
use holo_os.Bitmap.{Bitmap, bitmap_test, bitmap_scan}
use holo_os.Bitmap.Scan.{IsFree, Scanned, bitmap_scan-Scanned}
use holo_os.Bitmap.Set.{IsBytes}
use holo_os.Memory.Pool.{Pools, VirtualAddr, PoolFlags, pg_size, null, sub_32}
use holo_os.Memory.Alloc.{space, below_stack, vaddr_get, vaddr_remove}
use holo_os.Memory.Alloc.Range.{in_range, StoredRange, set_bits_lem}

-- The bits of a space stand for pages whose addresses fit a word, none of them NULL.
pub record IsSpace (va : VirtualAddr) : Type 0 where
  pub aligned : va.vaddr_start % 4096 ≡ 0
  pub above : 0 < va.vaddr_start
  pub fits : va.vaddr_start + va.vaddr_bitmap.size * 8 * 4096 ≤ 2 ^ 32

abbrev pub page : VirtualAddr → ℕ → ℕ
page va i = va.vaddr_start + i * pg_size

-- What `vaddrGet` does: it fails if the space has no run of that many free pages; otherwise it
-- marks the first such run as used and returns its first page, unless that run starts at the
-- stack of a user process or above, where the assertion stops the kernel.
pub data VaddrGet (m : Mem) (va : VirtualAddr) (pf : PoolFlags) (cnt : ℕ) (r : Run (ℕ × Mem))
    : Type 0 where
  full :
      ((i : ℕ) → i + cnt ≤ va.vaddr_bitmap.size * 8 → ¬ IsFree m va.vaddr_bitmap i cnt)
      → r ≡ ok (null, m)
      → VaddrGet m va pf cnt r
  taken :
      (i : ℕ) (m' : Mem)
      → i + cnt ≤ va.vaddr_bitmap.size * 8
      → IsFree m va.vaddr_bitmap i cnt
      → ((k : ℕ) → k < i → ¬ IsFree m va.vaddr_bitmap k cnt)
      → below_stack pf (page va i) ≡ true
      → r ≡ ok (page va i, m')
      → StoredRange m va.vaddr_bitmap i cnt true m'
      → VaddrGet m va pf cnt r
  stack :
      (i : ℕ)
      → i + cnt ≤ va.vaddr_bitmap.size * 8
      → IsFree m va.vaddr_bitmap i cnt
      → ((k : ℕ) → k < i → ¬ IsFree m va.vaddr_bitmap k cnt)
      → below_stack pf (page va i) ≡ false
      → r ≡ panic
      → VaddrGet m va pf cnt r

ok_address : {a b : ℕ} {m m' : Mem} → ◌≡◌ {A = Run (ℕ × Mem)} (ok (a, m)) (ok (b, m')) → a ≡ b
ok_address e = cc

ok_memory : {a b : ℕ} {m m' : Mem} → ◌≡◌ {A = Run (ℕ × Mem)} (ok (a, m)) (ok (b, m')) → m ≡ m'
ok_memory e = cc

-- Bits that were free, set and cleared again are as they were.
restored :
    (m m1 m2 : Mem) (b : Bitmap) (i n j : ℕ)
    → IsFree m b i n
    → bitmap_test m1 b j ≡ (if in_range i n j then true else bitmap_test m b j)
    → bitmap_test m2 b j ≡ (if in_range i n j then false else bitmap_test m1 b j)
    → bitmap_test m2 b j ≡ bitmap_test m b j
restored m m1 m2 b i n j free e1 e2 = elim (Bool-cases (in_range i n j)) [
  | inl inside ↦
      let lt : j - i < n = ground arith in
      let back : i + (j - i) ≡ j = ground arith in
      (rw inside at e2) ∙ sym (rw back at (free (j - i) lt))
  | inr outside ↦ (rw outside at e2) ∙ (rw outside at e1)
]

module _ (m : Mem) (pools : Pools) (user : VirtualAddr) (pf : PoolFlags) (cnt : ℕ) where
  vaddr_get-of_scan :
      IsBytes m
      → IsSpace (space pf pools user)
      → 0 < cnt
      → (r : Option ℕ) → bitmap_scan m (space pf pools user).vaddr_bitmap cnt ≡ r
      → Scanned m (space pf pools user).vaddr_bitmap cnt r
      → VaddrGet m (space pf pools user) pf cnt (vaddr_get m pools user pf cnt)
  unfolding vaddr_get
  vaddr_get-of_scan h v pos none e s = full s (rw (e, vaddr_get) refl)
  vaddr_get-of_scan h v pos (some i) e (le, free, first) =
      let va = space pf pools user in
      let (m', run, st) = set_bits_lem m va.vaddr_bitmap i cnt 1 h (omega arith) in
      let addr : (va.vaddr_start + i * pg_size) % 2 ^ 32 ≡ page va i = omega (arith, v.fits) in
      elim (Bool-cases (below_stack pf (page va i))) [
        | inl low ↦ taken i m' le free first low (rw (e, run, addr, low, vaddr_get) refl) st
        | inr high ↦ stack i le free first high (rw (e, run, addr, high, vaddr_get) refl)
      ]

  pub vaddr_get_lem :
      IsBytes m
      → IsSpace (space pf pools user)
      → 0 < cnt
      → VaddrGet m (space pf pools user) pf cnt (vaddr_get m pools user pf cnt)
  vaddr_get_lem h v pos =
      let va = space pf pools user in
      vaddr_get-of_scan h v pos (bitmap_scan m va.vaddr_bitmap cnt) refl
        (bitmap_scan-Scanned m va.vaddr_bitmap cnt pos (omega (arith, v.fits)))

  remove-of_VaddrGet :
      (a : ℕ) (m1 : Mem)
      → IsSpace (space pf pools user)
      → a ≢ null
      → VaddrGet m (space pf pools user) pf cnt (ok (a, m1))
      → (m2 : Mem) × (vaddr_remove m1 pools user pf a cnt ≡ ok m2)
        × ((j : ℕ)
            → bitmap_test m2 (space pf pools user).vaddr_bitmap j
              ≡ bitmap_test m (space pf pools user).vaddr_bitmap j)
  unfolding vaddr_remove
  remove-of_VaddrGet a m1 v ne (full all e) = absurd (ne (ok_address e))
  remove-of_VaddrGet a m1 v ne (stack i le free first high e) = cc
  remove-of_VaddrGet a m1 v ne (taken i m' le free first low e st) =
      let va = space pf pools user in
      let (m2, run, st2) = set_bits_lem m' va.vaddr_bitmap i cnt 0 st.bytes (omega arith) in
      let idx : sub_32 (page va i) va.vaddr_start / pg_size ≡ i = omega (arith, v.fits) in
      (
        m2,
        rw (ok_address e, ok_memory e, idx) run,
        λ j. restored m m' m2 va.vaddr_bitmap i cnt j free (st.bits j) (st2.bits j),
      )

  -- Pages of a space that `vaddrGet` returned and `vaddrRemove` takes back are free again, and no
  -- other bit of the space has changed.
  pub vaddr_remove-vaddr_get :
      (a : ℕ) (m1 : Mem)
      → IsBytes m
      → IsSpace (space pf pools user)
      → 0 < cnt
      → vaddr_get m pools user pf cnt ≡ ok (a, m1)
      → a ≢ null
      → (m2 : Mem) × (vaddr_remove m1 pools user pf a cnt ≡ ok m2)
        × ((j : ℕ)
            → bitmap_test m2 (space pf pools user).vaddr_bitmap j
              ≡ bitmap_test m (space pf pools user).vaddr_bitmap j)
  vaddr_remove-vaddr_get a m1 h v pos e ne =
      remove-of_VaddrGet a m1 v ne (rw e at (vaddr_get_lem h v pos))
