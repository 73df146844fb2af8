-- ===== src/Process/Directory.antt =====
-- `createPageDir` of kernel/process.c: the page directory of a new process.
use holo_os.Base.{
  ℕ, ◌+◌, ◌*◌, ◌/◌, ◌%◌, ◌^◌, ◌<◌, ◌≤◌, ◌≡◌, ◌≢◌, ◌⊎◌, inl, refl, sym, ap, ◌∙◌, false, ◌||◌, ◌==◌,
  arith,
}
use holo_os.Base.Memory.{Mem, update, update_self}
use holo_os.Base.Run.{ok}
use holo_os.CString.Block.{copied, memcpy_lem}
use holo_os.Memory.Alloc.{get_kernel_pages}
use holo_os.Memory.Alloc.Pages.{get_kernel_pages-Zeroed}
use holo_os.Memory.Paging.{Store, pte_ptr, v2p, entry}
use holo_os.Memory.Paging.Entries.{entry_lem, pte_ptr_lem}
use holo_os.Memory.Paging.Mapping.{v2p_lem}
use holo_os.Memory.Pool.{Pools, null}
use holo_os.Thread.{Kernel}
use holo_os.Process.{create_page_dir}

-- The directory at `dir`, which the memory `w` had as a page of zeros in the frame `frame`: the user's
-- part is empty, the kernel's part is that of the current directory, and the last entry maps the
-- directory itself. No other word has changed.
pub record NewDir (w w' : Mem) (dir frame : ℕ) : Type 0 where
  pub empty : (i : ℕ) → i < 768 → w' (dir + i * 4) ≡ 0
  pub shared : (i : ℕ) → 768 ≤ i → i < 1023 → w' (dir + i * 4) ≡ w (0xfffff000 + i * 4)
  pub own : w' (dir + 1023 * 4) ≡ frame + 7
  pub others : (a : ℕ) → (a < dir) ⊎ (dir + 4096 ≤ a) → w' a ≡ w a

module _ (w : Mem) (dir : ℕ) (ne : dir ≢ null) (aligned : dir % 4096 ≡ 0)
    (below : dir + 4096 ≤ 0xffc00000) where
  abbrev kernel_part : Mem
  kernel_part = copied w (dir + 0xc00) (0xfffff000 + 0xc00) 1020

  abbrev new_dir : Mem
  new_dir = update kernel_part (dir + 4092) (entry (v2p kernel_part dir))

  same_frame : v2p kernel_part dir ≡ v2p w dir
  unfolding copied
  same_frame =
      let same : kernel_part (pte_ptr dir) ≡ w (pte_ptr dir) =
        ground (arith, pte_ptr_lem dir (omega arith)) in
      v2p_lem kernel_part dir
      ∙ ap (λ x. (x / 4096 % 2 ^ 20 * 4096 + dir % 4096) % 2 ^ 32) same
      ∙ sym (v2p_lem w dir)

  frame_aligned : v2p w dir % 4096 ≡ 0
  frame_aligned = omega (arith, v2p_lem w dir)

  new_dir_lem : ((i : ℕ) → i < 4096 → w (dir + i) ≡ 0) → NewDir w new_dir dir (v2p w dir)
  unfolding copied
  new_dir_lem zero = record {
    empty = λ i lt. let z = zero (i * 4) (omega arith) in ground arith;
    shared = λ i ge lt. ground arith;
    own =
        update_self kernel_part (dir + 4092) _
        ∙ entry_lem (v2p kernel_part dir) (rw same_frame frame_aligned)
        ∙ ap (λ x. x + 7) same_frame;
    others = λ a out. ground arith;
  }

module _ (k : Kernel) (pools : Pools) (dir : ℕ) (s : Store) where
  -- `createPageDir` on a page that `getKernelPages` returned, below the window of the page tables.
  pub create_page_dir_lem :
      get_kernel_pages k.store pools (k.tasks.user_vaddr k.current) 1 ≡ ok (dir, s)
      → dir ≢ null
      → dir % 4096 ≡ 0
      → dir + 4096 ≤ 0xffc00000
      → (k' : Kernel) × (create_page_dir k pools ≡ ok (dir, k'))
        × NewDir s.words k'.store.words dir (v2p s.words dir)
  unfolding create_page_dir
  create_page_dir_lem got ne aligned below =
      let there : (dir == null) ≡ false = ground arith in
      let to : (dir + 0x300 * 4) % 2 ^ 32 ≡ dir + 0xc00 = omega arith in
      let last : (dir + 1023 * 4) % 2 ^ 32 ≡ dir + 4092 = omega arith in
      let some : (dir + 0xc00 == 0 || 0xfffff000 + 0xc00 == 0) ≡ false = ground arith in
      let zeros =
        (get_kernel_pages-Zeroed 1 (omega arith) k.store pools (k.tasks.user_vaddr k.current)).gives
          (dir, s) got in
      (
        record k { store = record s { words = new_dir s.words dir ne aligned below } },
        rw
            (
              got,
              there,
              to,
              memcpy_lem s.words (dir + 0xc00) (0xfffff000 + 0xc00) 1020 (inl (omega arith)),
              some,
              last,
            )
            refl,
        new_dir_lem s.words dir ne aligned below (λ i lt. (zeros ne i lt).1),
      )
