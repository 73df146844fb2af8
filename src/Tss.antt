-- ===== src/Tss.antt =====
-- kernel/tss.c: descriptors of segments, the task state and its stack pointer. The messages on the
-- screen and the instructions that load the tables are left out.
pub mod Descriptors
use Prim.Native.Nat.{bit_and}
use holo_os.Base.{ℕ, ◌+◌, ◌-◌, ◌*◌, ◌/◌, ◌%◌, ◌^◌, ◌==◌, if◌then◌else◌}

pub record GdtDesc : Type 0 where
  pub limit_low_word : ℕ
  pub base_low_word : ℕ
  pub base_mid_byte : ℕ
  pub attr_low_byte : ℕ
  pub limit_attr_high_byte : ℕ
  pub base_high_byte : ℕ

pub make_gdt_desc : ℕ → ℕ → ℕ → ℕ → GdtDesc
make_gdt_desc desc_base limit attr_low attr_high = record {
  limit_low_word = bit_and limit 0x0000ffff;
  base_low_word = bit_and desc_base 0x0000ffff;
  base_mid_byte = bit_and desc_base 0x00ff0000 / 2 ^ 16;
  attr_low_byte = attr_low;
  limit_attr_high_byte = (bit_and limit 0x000f0000 / 2 ^ 16 % 2 ^ 8 + attr_high) % 2 ^ 8;
  base_high_byte = desc_base / 2 ^ 24;
}

-- include/kernel/global.h: the attributes, with each macro's fields written out
abbrev pub tss_attr_high : ℕ
tss_attr_high = 1 * 2 ^ 7 + 0 * 2 ^ 6 + 0 * 2 ^ 5 + 0 * 2 ^ 4

abbrev pub tss_attr_low : ℕ
tss_attr_low = 1 * 2 ^ 7 + 0 * 2 ^ 5 + 0 * 2 ^ 4 + 9

abbrev pub gdt_attr_high : ℕ
gdt_attr_high = 1 * 2 ^ 7 + 1 * 2 ^ 6 + 0 * 2 ^ 5 + 0 * 2 ^ 4

abbrev pub gdt_code_attr_low_dpl3 : ℕ
gdt_code_attr_low_dpl3 = 1 * 2 ^ 7 + 3 * 2 ^ 5 + 1 * 2 ^ 4 + 8

abbrev pub gdt_data_attr_low_dpl3 : ℕ
gdt_data_attr_low_dpl3 = 1 * 2 ^ 7 + 3 * 2 ^ 5 + 1 * 2 ^ 4 + 2

abbrev pub selector_k_stack : ℕ
selector_k_stack = 2 * 2 ^ 3 + 0 * 2 ^ 2 + 0

-- `struct tss` has 27 words; those that `tssInit` leaves at 0 are not listed.
abbrev pub tss_size : ℕ
tss_size = 108

pub record Tss : Type 0 where
  pub esp0 : ℕ
  pub ss0 : ℕ
  pub io_base : ℕ

pub update_tss_esp : Tss → ℕ → Tss
update_tss_esp tss pthread = record tss { esp0 = (pthread + 4096) % 2 ^ 32 }

abbrev pub set_desc : (ℕ → GdtDesc) → ℕ → GdtDesc → ℕ → GdtDesc
set_desc gdt i d j = if j == i then d else gdt j

-- The descriptor table from 0xc0000900 on, by its index: 0xc0000920, 0xc0000928 and 0xc0000930 are
-- the entries 4, 5 and 6.
pub tss_init : (ℕ → GdtDesc) → ℕ → Tss × (ℕ → GdtDesc)
tss_init gdt tss_addr =
    let tss : Tss = record { esp0 = 0; ss0 = selector_k_stack; io_base = tss_size } in
    let gdt1 = set_desc gdt 4 (make_gdt_desc tss_addr (tss_size - 1) tss_attr_low tss_attr_high) in
    let gdt2 = set_desc gdt1 5 (make_gdt_desc 0 0xfffff gdt_code_attr_low_dpl3 gdt_attr_high) in
    (tss, set_desc gdt2 6 (make_gdt_desc 0 0xfffff gdt_data_attr_low_dpl3 gdt_attr_high))
