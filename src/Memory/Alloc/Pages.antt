-- ===== src/Memory/Alloc/Pages.antt =====
-- `getKernelPages` and `getPage` of kernel/memory.c: the pages that they return.
use holo_os.Base.{
  ℕ, ◌+◌, ◌*◌, ◌/◌, ◌%◌, ◌^◌, ◌<◌, ◌≡◌, ◌≢◌, inl, inr, refl, Bool, Bool-cases, true, false, ltb,
  ◌==◌, if◌then◌else◌, arith,
}
use holo_os.Base.Memory.{Mem}
use holo_os.Base.Run.{
  Run, ok, assert, ◌>>=◌, ◌>>◌, Gives, Gives-ok, Gives-panic, Gives-bind, Gives-any,
}
use holo_os.Bitmap.{bitmap_set}
use holo_os.Bitmap.Set.{IsBytes}
use holo_os.CString.{memset}
use holo_os.CString.Block.{fill, memset_lem}
use holo_os.Memory.Alloc.{space, malloc_page, clear_pages, get_kernel_pages, may_take, get_page}
use holo_os.Memory.Paging.{Store, page_table_add}
use holo_os.Memory.Paging.Window.{Same, page_table_add-Same}
use holo_os.Memory.Pool.Frames.{Palloc, full, taken, palloc_lem, palloc-full, frames, is_used}
use holo_os.Memory.Pool.Layout.{IsPool}
use holo_os.Memory.Pool.{
  Pool, Pools, VirtualAddr, PoolFlags, pf_kernel, mem_pool, sub_32, palloc, null, pg_size,
}

-- What a call of `getPage` for `v` does, with the page marked as used in `m`: if the pool has a free
-- frame, it maps the page and gives the lock of the pool back; if every frame is in use, it returns
-- NULL with the lock held. It writes no words but page tables.
pub data GotPage (m : Mem) (p : Pool) (w : Mem) (v : ℕ) (r : ℕ × Bool × Store) : Type 0 where
  mapped :
      (i : ℕ)
      → i < frames p
      → is_used m p i ≡ false
      → r.0 ≡ v
      → r.1 ≡ false
      → Same w r.2.words
      → GotPage m p w v r
  no_frame :
      ((i : ℕ) → i < frames p → is_used m p i ≡ true)
      → r.0 ≡ null
      → r.1 ≡ true
      → Same w r.2.words
      → GotPage m p w v r

module _ (s : Store) (pools : Pools) (v : ℕ) (low : v < 2 ^ 32) where
  abbrev with_frame : (out : ℕ × Mem) → Run (ℕ × Bool × Store)
  with_frame out =
      if out.0 == null
      then ok (null, true, record s { bytes = out.1 })
      else (page_table_add (record s { bytes = out.1 }) pools v out.0 >>= λ s'. ok (v, false, s'))

  module _ (page_dir : ℕ) (user : VirtualAddr) (pf : PoolFlags) (m : Mem) (h : IsBytes m)
      (is : IsPool (mem_pool pf pools)) where
    with_frame_lem :
        (out : ℕ × Mem)
        → Palloc m (mem_pool pf pools) out
        → Gives (GotPage m (mem_pool pf pools) s.words v) (with_frame out)
    with_frame_lem out (full all e same) =
        let none_found : (out.0 == null) ≡ true = ground arith in
        rw none_found (Gives-ok _ (no_frame all refl refl (λ a lt. refl)))
    with_frame_lem out (taken i lt free first e st) =
        let above = is.above in
        let found : (out.0 == null) ≡ false = ground arith in
        rw found (
          Gives-bind (λ t. Same s.words t.words)
            (page_table_add (record s { bytes = out.1 }) pools v out.0) (λ s'. ok (v, false, s'))
            (page_table_add-Same pools v low (record s { bytes = out.1 }) out.0)
            (λ t h. Gives-ok (v, false, t) (mapped i lt free refl refl h)))

    pub get_page_lem :
        bitmap_set s.bytes
            (space pf pools user).vaddr_bitmap
            (sub_32 v (space pf pools user).vaddr_start / pg_size)
            1
          ≡ ok m
        → Gives (GotPage m (mem_pool pf pools) s.words v) (get_page s pools page_dir user pf v)
    unfolding get_page
    get_page_lem marked =
        let idx = sub_32 v (space pf pools user).vaddr_start / pg_size in
        let alloc = λ (m : Mem). palloc m (mem_pool pf pools) >>= with_frame in
        let (out, run, found) = palloc_lem m (mem_pool pf pools) h is in
        rw (marked, run)
          (Gives-bind (λ u. Unit) (assert (may_take pf page_dir))
            (λ u. assert (ltb 0 idx) >> with_frame out) (Gives-any _)
            (λ _ _.
              Gives-bind (λ u. Unit) (assert (ltb 0 idx)) (λ u. with_frame out) (Gives-any _)
                (λ _ _. with_frame_lem out found)))

-- With every frame of the pool in use, `getPage` keeps the pool's lock: the next call of `getPage`
-- for the pool would wait for it.
pub get_page-full :
    (s : Store) (pools : Pools) (page_dir : ℕ) (user : VirtualAddr) (pf : PoolFlags) (v : ℕ)
    (m : Mem)
    → may_take pf page_dir ≡ true
    → 0 < sub_32 v (space pf pools user).vaddr_start / pg_size
    → bitmap_set s.bytes
        (space pf pools user).vaddr_bitmap
        (sub_32 v (space pf pools user).vaddr_start / pg_size)
        1
      ≡ ok m
    → IsBytes m
    → IsPool (mem_pool pf pools)
    → ((i : ℕ) → i < frames (mem_pool pf pools) → is_used m (mem_pool pf pools) i ≡ true)
    → get_page s pools page_dir user pf v ≡ ok (null, true, record s { bytes = m })
unfolding get_page
get_page-full s pools page_dir user pf v m may pos mark h is all =
    let in_space : ltb 0 (sub_32 v (space pf pools user).vaddr_start / pg_size) ≡ true =
      ground arith in
    rw (may, in_space, mark, palloc-full m (mem_pool pf pools) h is all) refl

module _ (cnt : ℕ) (few : cnt < 2 ^ 20) where
  -- The bytes and words of a run of pages are 0.
  abbrev Zeroed : ℕ × Store → Type 0
  Zeroed r =
      r.0 ≢ null
      → (i : ℕ) → i < cnt * pg_size
      → (r.1.bytes (r.0 + i) ≡ 0) × (r.1.words (r.0 + i) ≡ 0)

  memset-zeroed :
      (w : Mem) (p : ℕ)
      → Gives
          (λ w'. (i : ℕ) → i < cnt * pg_size → w' (p + i) ≡ 0)
          (memset w p 0 (cnt * pg_size % 2 ^ 32))
  unfolding fill
  memset-zeroed w p = rw (memset_lem w p 0 (cnt * pg_size % 2 ^ 32)) (elim (Bool-cases (p == 0)) [
    | inl e ↦ rw e Gives-panic
    | inr e ↦ rw e (Gives-ok _ (λ i lt. ground arith))
  ])

  clear_pages-Zeroed : (s : Store) (p : ℕ) → Gives (λ s'. Zeroed (p, s')) (clear_pages s p cnt)
  unfolding clear_pages
  clear_pages-Zeroed s p =
      let n = cnt * pg_size % 2 ^ 32 in
      Gives-bind (λ (b : Mem). (i : ℕ) → i < cnt * pg_size → b (p + i) ≡ 0) (memset s.bytes p 0 n)
        (λ b. memset s.words p 0 n >>= λ w. ok (record { bytes = b; words = w }))
        (memset-zeroed s.bytes p)
        (λ b hb.
          Gives-bind (λ (w : Mem). (i : ℕ) → i < cnt * pg_size → w (p + i) ≡ 0)
            (memset s.words p 0 n) (λ w. ok (record { bytes = b; words = w }))
            (memset-zeroed s.words p)
            (λ w hw. Gives-ok (record { bytes = b; words = w }) (λ ne i lt. (hb i lt, hw i lt))))

  -- `getKernelPages` returns NULL or pages that hold zeros.
  pub get_kernel_pages-Zeroed :
      (s : Store) (pools : Pools) (user : VirtualAddr)
      → Gives Zeroed (get_kernel_pages s pools user cnt)
  unfolding get_kernel_pages
  get_kernel_pages-Zeroed s pools user =
      Gives-bind (λ r. Unit) (malloc_page s pools user pf_kernel cnt)
        (λ r. if r.0 == null then ok r else (clear_pages r.1 r.0 cnt >>= λ t. ok (r.0, t)))
        (Gives-any _)
        (λ r _. elim (Bool-cases (r.0 == null)) [
          | inl e ↦ rw e (Gives-ok r (λ ne. absurd (ground arith)))
          | inr e ↦ rw e (
              Gives-bind (λ t. Zeroed (r.0, t)) (clear_pages r.1 r.0 cnt) (λ t. ok (r.0, t))
                (clear_pages-Zeroed r.1 r.0) (λ t h. Gives-ok (r.0, t) h))
        ])
