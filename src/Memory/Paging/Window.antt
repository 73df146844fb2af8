-- ===== src/Memory/Paging/Window.antt =====
-- `pageTableAdd` of kernel/memory.c writes page tables only, all of which lie in the window that the
-- directory's last entry opens at 0xffc00000.
use holo_os.Base.{ℕ, ◌^◌, ◌<◌, ◌≤◌, ◌≡◌, Bool, refl, ◌∙◌, true, false, ◌==◌, if◌then◌else◌, arith}
use Prim.Native.Nat.{bit_and}
use holo_os.Base.Memory.{Mem, update, update_ne}
use holo_os.Base.Run.{
  ok, panic, assert, ◌>>=◌, ◌>>◌, Gives, Gives-ok, Gives-panic, Gives-bind, Gives-any,
}
use holo_os.CString.{memset}
use holo_os.CString.Block.{fill, memset_lem}
use holo_os.Memory.Paging.{Store, pte_ptr, pde_ptr, entry, make_table, page_table_add}
use holo_os.Memory.Paging.Entries.{and_frame, pte_ptr_lem, pde_ptr_lem}
use holo_os.Memory.Pool.{Pools, pg_size, palloc}

-- The words below the window are the same.
abbrev pub Same : Mem → Mem → Type 0
Same w w' = (a : ℕ) → a < 0xffc00000 → w' a ≡ w a

module _ (pools : Pools) (v : ℕ) (low : v < 2 ^ 32) where
  update-Same : (w : Mem) (p x : ℕ) → 0xffc00000 ≤ p → Same w (update w p x)
  update-Same w p x h a lt = update_ne w p x a (omega arith)

  in_window : (0xffc00000 ≤ pte_ptr v) × (0xffc00000 ≤ pde_ptr v)
  in_window = (omega (arith, pte_ptr_lem v low), omega (arith, pde_ptr_lem v low))

  given : (b : Bool) (w w' : Mem) → Same w w' → Gives (Same w) (if b then panic else ok w')
  given true w w' h = Gives-panic
  given false w w' h = Gives-ok w' h

  memset-Same : (w : Mem) → Gives (Same w) (memset w (bit_and (pte_ptr v) 0xfffff000) 0 pg_size)
  unfolding fill
  memset-Same w = rw (memset_lem w (bit_and (pte_ptr v) 0xfffff000) 0 pg_size) (
      given _ w _
        (λ a lt. let l = in_window.0 in ground (arith, and_frame (pte_ptr v), pte_ptr_lem v low)))

  make_table-Same : (s : Store) → Gives (λ s'. Same s.words s'.words) (make_table s pools v)
  unfolding make_table
  make_table-Same s =
      Gives-bind (λ r. Unit) (palloc s.bytes pools.kernel_pool)
        (λ r.
          memset (update s.words (pde_ptr v) (entry r.0)) (bit_and (pte_ptr v) 0xfffff000) 0 pg_size
          >>= λ c. ok (record { bytes = r.1; words = c }))
        (Gives-any (palloc s.bytes pools.kernel_pool))
        (λ r _.
          let w = update s.words (pde_ptr v) (entry r.0) in
          let dir = update-Same s.words (pde_ptr v) (entry r.0) in_window.1 in
          Gives-bind (Same w) (memset w (bit_and (pte_ptr v) 0xfffff000) 0 pg_size)
            (λ c. ok (record { bytes = r.1; words = c })) (memset-Same w)
            (λ c h. Gives-ok (record { bytes = r.1; words = c }) (λ a lt. h a lt ∙ dir a lt)))

  if_lem :
      (s : Store) (b : Bool)
      → Gives (λ s'. Same s.words s'.words) (if b then make_table s pools v else ok s)
  if_lem s true = make_table-Same s
  if_lem s false = Gives-ok s (λ a lt. refl)

  pub page_table_add-Same :
      (s : Store) (paddr : ℕ) → Gives (λ s'. Same s.words s'.words) (page_table_add s pools v paddr)
  unfolding page_table_add
  page_table_add-Same s paddr =
      let first = if bit_and (s.words (pde_ptr v)) 1 == 0 then make_table s pools v else ok s in
      let last = λ (t : Store). record t { words = update t.words (pte_ptr v) (entry paddr) } in
      Gives-bind (λ t. Same s.words t.words) first
        (λ t. assert (bit_and (t.words (pte_ptr v)) 1 == 0) >> ok (last t))
        (if_lem s (bit_and (s.words (pde_ptr v)) 1 == 0))
        (λ t h.
          let absent = assert (bit_and (t.words (pte_ptr v)) 1 == 0) in
          Gives-bind (λ u. Unit) absent (λ u. ok (last t)) (Gives-any absent)
            (λ _ _.
              Gives-ok (last t)
                (λ a lt. update-Same t.words (pte_ptr v) (entry paddr) in_window.0 a lt ∙ h a lt)))
