-- ===== src/Memory/Paging.antt =====
-- kernel/memory.c: the page tables of the current address space. The last entry of the page
-- directory maps the directory itself, so every entry has a virtual address; the entries are the
-- words of a memory at those addresses. The bitmaps lie in a memory of bytes. `invlpg` is left out,
-- since the model reads every entry from memory.
pub mod Entries
pub mod Mapping
pub mod Tables
pub mod Window
use Prim.Native.Nat.{bit_and, bit_or}
use holo_os.Base.{ℕ, ◌+◌, ◌*◌, ◌/◌, ◌%◌, ◌^◌, Bool, true, false, ◌==◌, if◌then◌else◌}
use holo_os.Base.Bits.{not_32}
use holo_os.Base.Memory.{Mem, update}
use holo_os.Base.Run.{Run, ok, assert, ◌>>=◌, ◌>>◌}
use holo_os.CString.{memset}
use holo_os.Memory.Pool.{Pools, pg_size, palloc}

pub record Store : Type 0 where
  pub bytes : Mem
  pub words : Mem

-- the attributes of an entry, include/kernel/memory.h
abbrev pub pg_p_1 : ℕ
pg_p_1 = 1

abbrev pub pg_rw_w : ℕ
pg_rw_w = 2

abbrev pub pg_us_u : ℕ
pg_us_u = 4

pub pde_idx : ℕ → ℕ
pde_idx addr = bit_and addr 0xffc00000 / 2 ^ 22

pub pte_idx : ℕ → ℕ
pte_idx addr = bit_and addr 0x003ff000 / 2 ^ 12

unfoldable pub pde_ptr : ℕ → ℕ
unfolding pde_idx
pde_ptr vaddr = (0xfffff000 + pde_idx vaddr * 4) % 2 ^ 32

unfoldable pub pte_ptr : ℕ → ℕ
unfolding pte_idx
pte_ptr vaddr = (0xffc00000 + bit_and vaddr 0xffc00000 / 2 ^ 10 + pte_idx vaddr * 4) % 2 ^ 32

unfoldable pub v2p : Mem → ℕ → ℕ
v2p words vaddr = (bit_and (words (pte_ptr vaddr)) 0xfffff000 + bit_and vaddr 0x00000fff) % 2 ^ 32

-- `*pte &= ~PG_P_1`
unfoldable pub page_table_pte_remove : Mem → ℕ → Mem
page_table_pte_remove words vaddr =
    update words (pte_ptr vaddr) (bit_and (words (pte_ptr vaddr)) (not_32 pg_p_1))

-- `addr | PG_US_U | PG_RW_W | PG_P_1`
unfoldable pub entry : ℕ → ℕ
entry addr = bit_or (bit_or (bit_or addr pg_us_u) pg_rw_w) pg_p_1

-- The branch of `pageTableAdd` for a directory entry that is not present. The source does not test
-- what `palloc` returns. `memset` with 0 clears words as it clears bytes.
pub make_table : Store → Pools → ℕ → Run Store
make_table s pools vaddr = do
  (pde_paddr, bytes) ← palloc s.bytes pools.kernel_pool
  let words = update s.words (pde_ptr vaddr) (entry pde_paddr)
  cleared ← memset words (bit_and (pte_ptr vaddr) 0xfffff000) 0 pg_size
  ok (record { bytes = bytes; words = cleared })

unfoldable pub page_table_add : Store → Pools → ℕ → ℕ → Run Store
page_table_add s pools vaddr paddr = do
  s' ← (if bit_and (s.words (pde_ptr vaddr)) 1 == 0 then make_table s pools vaddr else ok s)
  assert (bit_and (s'.words (pte_ptr vaddr)) 1 == 0)
  ok (record s' { words = update s'.words (pte_ptr vaddr) (entry paddr) })
