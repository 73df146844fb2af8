-- ===== src/Memory/Paging/Tables.antt =====
-- `pageTableAdd` of kernel/memory.c where the directory has no entry yet: a page table is made.
use holo_os.Base.{
  ℕ, ◌+◌, ◌*◌, ◌/◌, ◌%◌, ◌^◌, ◌<◌, ◌≡◌, ◌≢◌, refl, ◌∙◌, true, false, ◌==◌, if◌then◌else◌, arith,
}
use Prim.Native.Nat.{bit_and}
use holo_os.Base.Memory.{Mem, update, update_self, update_ne}
use holo_os.Base.Run.{ok}
use holo_os.Bitmap.Set.{IsBytes}
use holo_os.CString.Block.{fill, memset_lem}
use holo_os.Memory.Pool.{Pools, pg_size, null, palloc}
use holo_os.Memory.Pool.Frames.{Palloc-of_ok, Palloc-aligned, palloc-full, is_used, frames}
use holo_os.Memory.Pool.Layout.{IsPool}
use holo_os.Memory.Paging.{Store, pde_ptr, pte_ptr, v2p, entry, make_table, page_table_add}
use holo_os.Memory.Paging.Entries.{entry_lem, pte_ptr_lem, pde_ptr_lem, and_frame, and_present}
use holo_os.Memory.Paging.Mapping.{pte, pde, Below, v2p_lem}

-- What mapping a page by way of a new page table in frame `table` leaves behind.
pub record MappedNew (words words' : Mem) (v table frame : ℕ) : Type 0 where
  pub directory : pde words' v ≡ table + 7
  pub translates : (u : ℕ) → Below u → u / 4096 ≡ v / 4096 → v2p words' u ≡ frame + u % 4096
  pub cleared : (u : ℕ) → Below u → u / 2 ^ 22 ≡ v / 2 ^ 22 → u / 4096 ≢ v / 4096 → pte words' u ≡ 0
  pub others : (u : ℕ) → Below u → u / 2 ^ 22 ≢ v / 2 ^ 22 → pte words' u ≡ pte words u

module _ (words : Mem) (v table frame : ℕ) where
  -- The words after the directory entry is stored, the table cleared and the page's entry stored.
  abbrev table_words : Mem
  table_words =
      fill (update words (pde_ptr v) (entry table)) (bit_and (pte_ptr v) 0xfffff000) 0 pg_size

  abbrev new_words : Mem
  new_words = update table_words (pte_ptr v) (entry frame)

  module _ (low : Below v) where
    table_base : bit_and (pte_ptr v) 0xfffff000 ≡ 0xffc00000 + v / 2 ^ 22 * 4096
    table_base = omega (arith, and_frame (pte_ptr v), pte_ptr_lem v (omega arith))

    table_words_lem :
        (u : ℕ)
        → Below u
        → table_words (pte_ptr u) ≡ (if u / 2 ^ 22 == v / 2 ^ 22 then 0 else words (pte_ptr u))
    unfolding fill
    table_words_lem u lu =
        ground (arith, table_base, pte_ptr_lem u (omega arith), pde_ptr_lem v (omega arith))

    table_words-pde : table_words (pde_ptr v) ≡ entry table
    unfolding fill
    table_words-pde = ground (arith, table_base, pde_ptr_lem v (omega arith))

    new_words-MappedNew :
        table % 4096 ≡ 0
        → frame % 4096 ≡ 0
        → frame < 2 ^ 32
        → MappedNew words new_words v table frame
    new_words-MappedNew aligned_table aligned word = record {
      directory =
          update_ne table_words (pte_ptr v) (entry frame) (pde_ptr v)
            (omega (arith, pde_ptr_lem v (omega arith), pte_ptr_lem v (omega arith)))
          ∙ table_words-pde
          ∙ entry_lem table aligned_table;
      translates = λ u lu same.
          let ptr : pte_ptr u ≡ pte_ptr v =
            omega (arith, pte_ptr_lem u (omega arith), pte_ptr_lem v (omega arith)) in
          v2p_lem new_words u
          ∙ rw (ptr, update_self table_words (pte_ptr v) (entry frame), entry_lem frame aligned)
              (omega arith);
      cleared = λ u lu same apart.
          update_ne table_words (pte_ptr v) (entry frame) (pte_ptr u)
            (λ e. apart (omega (arith, pte_ptr_lem u (omega arith), pte_ptr_lem v (omega arith))))
          ∙ table_words_lem u lu
          ∙ ground arith;
      others = λ u lu apart.
          update_ne table_words (pte_ptr v) (entry frame) (pte_ptr u)
            (λ e. apart (omega (arith, pte_ptr_lem u (omega arith), pte_ptr_lem v (omega arith))))
          ∙ table_words_lem u lu
          ∙ ground arith;
    }

module _ (s : Store) (pools : Pools) (v frame : ℕ) (low : Below v) where
  make_table_lem :
      (out : ℕ × Mem)
      → palloc s.bytes pools.kernel_pool ≡ ok out
      → make_table s pools v
        ≡ ok (record { bytes = out.1; words = table_words s.words v out.0 frame })
  unfolding make_table
  make_table_lem out e =
      let directory = update s.words (pde_ptr v) (entry out.0) in
      let base = bit_and (pte_ptr v) 0xfffff000 in
      let ne : (base == 0) ≡ false = ground (arith, table_base s.words v out.0 frame low) in
      rw (e, memset_lem directory base 0 pg_size, ne) refl

  page_table_add-of_palloc :
      (out : ℕ × Mem)
      → palloc s.bytes pools.kernel_pool ≡ ok out
      → pde s.words v % 2 ≡ 0
      → page_table_add s pools v frame
        ≡ ok (record { bytes = out.1; words = new_words s.words v out.0 frame })
  unfolding page_table_add
  page_table_add-of_palloc out e absent =
      let blank : table_words s.words v out.0 frame (pte_ptr v) ≡ 0 =
        table_words_lem s.words v out.0 frame low v low ∙ ground arith in
      rw
        (
          and_present (s.words (pde_ptr v)),
          absent,
          make_table_lem out e,
          and_present (table_words s.words v out.0 frame (pte_ptr v)),
          blank,
        )
        refl

  module _ (bytes : IsBytes s.bytes) (pool : IsPool pools.kernel_pool) where
    -- If the directory entry is absent, `pageTableAdd` takes a frame of the kernel's pool for a new
    -- page table, clears it and maps the page in it; every page outside of the 4 MB region keeps
    -- its entry, and every other page inside is unmapped.
    pub page_table_add-MappedNew :
        (table : ℕ) (m : Mem)
        → palloc s.bytes pools.kernel_pool ≡ ok (table, m)
        → frame % 4096 ≡ 0
        → frame < 2 ^ 32
        → pde s.words v % 2 ≡ 0
        → (s' : Store) × (page_table_add s pools v frame ≡ ok s')
          × (s'.bytes ≡ m)
          × MappedNew s.words s'.words v table frame
    page_table_add-MappedNew table m e aligned word absent =
        let done = Palloc-of_ok s.bytes pools.kernel_pool (table, m) bytes pool e in
        (
          record { bytes = m; words = new_words s.words v table frame },
          page_table_add-of_palloc (table, m) e absent,
          refl,
          new_words-MappedNew s.words v table frame low (Palloc-aligned pools.kernel_pool pool done)
              aligned word,
        )

    -- `pageTableAdd` does not test what `palloc` returns: if the directory entry is absent and no
    -- frame of the kernel's pool is free, it succeeds, and the page table that it installs lies in
    -- frame 0 of physical memory.
    pub page_table_add-full :
        ((i : ℕ) → i < frames pools.kernel_pool → is_used s.bytes pools.kernel_pool i ≡ true)
        → frame % 4096 ≡ 0
        → frame < 2 ^ 32
        → pde s.words v % 2 ≡ 0
        → (s' : Store) × (page_table_add s pools v frame ≡ ok s') × (pde s'.words v ≡ 0 + 7)
    page_table_add-full all aligned word absent =
        let (s', run, _, new) =
          page_table_add-MappedNew null s.bytes
            (palloc-full s.bytes pools.kernel_pool bytes pool all) aligned word absent in
        (s', run, new.directory)
