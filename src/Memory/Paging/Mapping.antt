-- ===== src/Memory/Paging/Mapping.antt =====
-- `pageTableAdd`, `pageTablePteRemove` and `v2p` of kernel/memory.c: what a page is mapped to.
use holo_os.Base.{ℕ, ◌+◌, ◌-◌, ◌*◌, ◌/◌, ◌%◌, ◌^◌, ◌<◌, ◌≡◌, ◌≢◌, refl, ◌∙◌, arith}
use holo_os.Base.Memory.{Mem, update, update_self, update_ne}
use holo_os.Base.Run.{ok, panic}
use holo_os.Memory.Pool.{Pools}
use holo_os.Memory.Paging.{
  Store, pde_ptr, pte_ptr, v2p, entry, page_table_pte_remove, page_table_add,
}
use holo_os.Memory.Paging.Entries.{
  entry_lem, pte_ptr_lem, and_frame, and_offset, and_present, and_absent,
}

-- the entry of the page of an address
abbrev pub pte : Mem → ℕ → ℕ
pte words v = words (pte_ptr v)

abbrev pub pde : Mem → ℕ → ℕ
pde words v = words (pde_ptr v)

-- The address lies below the window in which the page tables appear.
abbrev pub Below : ℕ → Type 0
Below v = v < 0xffc00000

pub v2p_lem :
    (words : Mem) (v : ℕ)
    → v2p words v ≡ (words (pte_ptr v) / 4096 % 2 ^ 20 * 4096 + v % 4096) % 2 ^ 32
unfolding v2p
v2p_lem words v = rw (and_frame (words (pte_ptr v)), and_offset v)

-- What mapping a page to a frame leaves behind: the page translates to the frame, at every offset;
-- every other page below the window keeps its entry.
pub record Mapped (words words' : Mem) (v frame : ℕ) : Type 0 where
  pub translates : (u : ℕ) → Below u → u / 4096 ≡ v / 4096 → v2p words' u ≡ frame + u % 4096
  pub present : pte words' v % 2 ≡ 1
  pub others : (u : ℕ) → Below u → u / 4096 ≢ v / 4096 → pte words' u ≡ pte words u

Mapped-update :
    (words : Mem) (v frame : ℕ)
    → Below v
    → frame % 4096 ≡ 0
    → frame < 2 ^ 32
    → Mapped words (update words (pte_ptr v) (entry frame)) v frame
Mapped-update words v frame low aligned word = record {
  translates = λ u lu same.
      let ptr : pte_ptr u ≡ pte_ptr v =
        omega (arith, pte_ptr_lem u (omega arith), pte_ptr_lem v (omega arith)) in
      v2p_lem _ u
      ∙ rw (ptr, update_self words (pte_ptr v) (entry frame), entry_lem frame aligned)
          (omega arith);
  present = rw (update_self words (pte_ptr v) (entry frame), entry_lem frame aligned) (omega arith);
  others = λ u lu apart.
      update_ne words (pte_ptr v) (entry frame) (pte_ptr u)
        (λ e. apart (omega (arith, pte_ptr_lem u (omega arith), pte_ptr_lem v (omega arith))));
}

module _ (s : Store) (pools : Pools) (v frame : ℕ) where
  -- If the directory entry is present and the page has no entry, `pageTableAdd` maps the page to
  -- the frame, changes no other page's entry, and allocates nothing.
  pub page_table_add-Mapped :
      Below v
      → frame % 4096 ≡ 0
      → frame < 2 ^ 32
      → pde s.words v % 2 ≡ 1
      → pte s.words v % 2 ≡ 0
      → (s' : Store) × (page_table_add s pools v frame ≡ ok s')
        × (s'.bytes ≡ s.bytes)
        × Mapped s.words s'.words v frame
  unfolding page_table_add
  page_table_add-Mapped low aligned word there absent = (
    record s { words = update s.words (pte_ptr v) (entry frame) },
    rw (and_present (s.words (pde_ptr v)), there, and_present (s.words (pte_ptr v)), absent) refl,
    refl,
    Mapped-update s.words v frame low aligned word,
  )

  -- If the page already has an entry, the assertion of `pageTableAdd` stops the kernel.
  pub page_table_add-panic :
      pde s.words v % 2 ≡ 1 → pte s.words v % 2 ≡ 1 → page_table_add s pools v frame ≡ panic
  unfolding page_table_add
  page_table_add-panic there present =
      rw (and_present (s.words (pde_ptr v)), there, and_present (s.words (pte_ptr v)), present) refl

-- `pageTablePteRemove` clears the present bit of the page's entry and keeps the rest of it; every
-- other page below the window keeps its entry.
pub page_table_pte_remove_lem :
    (words : Mem) (v : ℕ)
    → Below v
    → pte words v < 2 ^ 32
    → (pte (page_table_pte_remove words v) v ≡ pte words v - pte words v % 2)
      × ((u : ℕ)
          → Below u
          → u / 4096 ≢ v / 4096
          → pte (page_table_pte_remove words v) u ≡ pte words u)
unfolding page_table_pte_remove
page_table_pte_remove_lem words v low word = (
  update_self words (pte_ptr v) _ ∙ and_absent (words (pte_ptr v)) ∙ omega arith,
  λ u lu apart.
      update_ne words (pte_ptr v) _ (pte_ptr u)
        (λ e. apart (omega (arith, pte_ptr_lem u (omega arith), pte_ptr_lem v (omega arith)))),
)
