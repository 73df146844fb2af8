-- ===== src/Memory/Paging/Entries.antt =====
-- Where the entries of the page tables lie (`pdePtr` and `ptePtr` of kernel/memory.c), and what the
-- masks of an entry keep.
use Prim.Native.Nat.{bit_and, bit_or}
use holo_os.Base.{ℕ, ◌+◌, ◌-◌, ◌*◌, ◌/◌, ◌%◌, ◌^◌, ◌<◌, ◌≡◌, ap, arith}
use holo_os.Base.Masks.{and_high, and_low, or_fields}
use holo_os.Memory.Paging.{pde_ptr, pte_ptr, entry}

and_directory : (x : ℕ) → bit_and x 0xffc00000 ≡ x / 2 ^ 22 % 1024 * 2 ^ 22
and_directory x = omega (arith, and_high 22 x 1023, and_low 10 (x / 2 ^ 22))

and_table : (x : ℕ) → bit_and x 0x003ff000 ≡ x / 2 ^ 12 % 1024 * 2 ^ 12
and_table x = omega (arith, and_high 12 x 1023, and_low 10 (x / 2 ^ 12))

pub and_frame : (x : ℕ) → bit_and x 0xfffff000 ≡ x / 2 ^ 12 % 2 ^ 20 * 2 ^ 12
and_frame x = omega (arith, and_high 12 x (2 ^ 20 - 1), and_low 20 (x / 2 ^ 12))

pub and_offset : (x : ℕ) → bit_and x 0x00000fff ≡ x % 4096
and_offset x = and_low 12 x

pub and_present : (x : ℕ) → bit_and x 1 ≡ x % 2
and_present x = and_low 1 x

pub and_absent : (x : ℕ) → bit_and x 0xfffffffe ≡ x / 2 % 2 ^ 31 * 2
and_absent x = omega (arith, and_high 1 x (2 ^ 31 - 1), and_low 31 (x / 2))

or_four : (a : ℕ) → a % 8 ≡ 0 → bit_or a 4 ≡ a + 4
or_four a h =
    let whole : a ≡ a / 8 * 8 = omega arith in
    omega (arith, ap (λ (t : ℕ). bit_or t 4) whole, or_fields 3 (a / 8) 4 (omega arith))

or_two : (a : ℕ) → a % 4 ≡ 0 → bit_or a 2 ≡ a + 2
or_two a h =
    let whole : a ≡ a / 4 * 4 = omega arith in
    omega (arith, ap (λ (t : ℕ). bit_or t 2) whole, or_fields 2 (a / 4) 2 (omega arith))

or_one : (a : ℕ) → a % 2 ≡ 0 → bit_or a 1 ≡ a + 1
or_one a h =
    let whole : a ≡ a / 2 * 2 = omega arith in
    omega (arith, ap (λ (t : ℕ). bit_or t 1) whole, or_fields 1 (a / 2) 1 (omega arith))

-- On a page-aligned address the attributes are added.
pub entry_lem : (a : ℕ) → a % 4096 ≡ 0 → entry a ≡ a + 7
unfolding entry
entry_lem a h =
    rw (or_four a (omega arith), or_two (a + 4) (omega arith), or_one (a + 4 + 2) (omega arith))
      (omega arith)

-- The entry of an address's page is the word of that page's number from 0xffc00000 on, and the
-- directory entry is the word of its 4 MB region's number from 0xfffff000 on.
pub pte_ptr_lem : (v : ℕ) → v < 2 ^ 32 → pte_ptr v ≡ 0xffc00000 + v / 4096 * 4
unfolding pte_ptr
pte_ptr_lem v h = omega (arith, and_directory v, and_table v)

pub pde_ptr_lem : (v : ℕ) → v < 2 ^ 32 → pde_ptr v ≡ 0xfffff000 + v / 2 ^ 22 * 4
unfolding pde_ptr
pde_ptr_lem v h = omega (arith, and_directory v)

-- The directory entry of an address is the page-table entry of its page-table entry: through the
-- entry that maps the directory to itself both formulas of the source agree.
pub pte_ptr-pte_ptr : (v : ℕ) → v < 2 ^ 32 → pte_ptr (pte_ptr v) ≡ pde_ptr v
pte_ptr-pte_ptr v h = omega (
  arith,
  pte_ptr_lem v h,
  pde_ptr_lem v h,
  pte_ptr_lem (pte_ptr v) (omega (arith, pte_ptr_lem v h)),
)
