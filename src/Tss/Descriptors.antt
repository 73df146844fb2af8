-- ===== src/Tss/Descriptors.antt =====
-- What the processor reads in the descriptors of kernel/tss.c.
use Prim.Native.Nat.{bit_and}
use holo_os.Base.{ℕ, ◌+◌, ◌*◌, ◌/◌, ◌%◌, ◌^◌, ◌<◌, ◌≡◌, refl, ◌==◌, if◌then◌else◌, arith}
use holo_os.Base.Masks.{and_high, and_low}
use holo_os.Tss.{GdtDesc, make_gdt_desc, tss_init, tss_size}

abbrev pub base_of : GdtDesc → ℕ
base_of d = d.base_high_byte * 2 ^ 24 + d.base_mid_byte * 2 ^ 16 + d.base_low_word

abbrev pub limit_of : GdtDesc → ℕ
limit_of d = d.limit_attr_high_byte % 16 * 2 ^ 16 + d.limit_low_word

-- Bits 12 to 15 of the attributes: granularity, default size, long mode, available.
abbrev pub flags_of : GdtDesc → ℕ
flags_of d = d.limit_attr_high_byte / 16

-- The last byte of a segment that the processor lets through, from its start: with the granularity
-- flag the limit counts pages of 4 KB.
abbrev pub last_byte : GdtDesc → ℕ
last_byte d = if flags_of d / 8 == 1 then limit_of d * 4096 + 4095 else limit_of d

limit_high : (x : ℕ) → bit_and x 0x000f0000 ≡ x / 2 ^ 16 % 16 * 2 ^ 16
limit_high x = omega (arith, and_high 16 x 0xf, and_low 4 (x / 2 ^ 16))

base_middle : (x : ℕ) → bit_and x 0x00ff0000 ≡ x / 2 ^ 16 % 256 * 2 ^ 16
base_middle x = omega (arith, and_high 16 x 0xff, and_low 8 (x / 2 ^ 16))

base_fields :
    (x : ℕ)
    → x < 2 ^ 32
    → x / 2 ^ 24 * 2 ^ 24 + bit_and x 0x00ff0000 / 2 ^ 16 * 2 ^ 16 + bit_and x 0x0000ffff ≡ x
base_fields x lt = omega (arith, base_middle x, and_low 16 x)

-- The fields of a descriptor of `makeGdtDesc` read back as what it was made of.
pub make_gdt_desc_lem :
    (base limit attr_low attr_high : ℕ)
    → base < 2 ^ 32
    → limit < 2 ^ 20
    → attr_high < 256
    → attr_high % 16 ≡ 0
    → (base_of (make_gdt_desc base limit attr_low attr_high) ≡ base)
      × (limit_of (make_gdt_desc base limit attr_low attr_high) ≡ limit)
      × (flags_of (make_gdt_desc base limit attr_low attr_high) ≡ attr_high / 16)
      × ((make_gdt_desc base limit attr_low attr_high).attr_low_byte ≡ attr_low)
unfolding make_gdt_desc
make_gdt_desc_lem base limit lo hi lb ll lh low =
    let l16 = and_low 16 limit in
    let l20 = limit_high limit in
    (base_fields base lb, omega (arith, l16, l20), omega (arith, l20), refl)

-- After `tssInit` the descriptor of the task state leads to it, but lets through 442,368 bytes
-- from there on instead of its 108, since the limit in bytes is marked as one in pages; the two
-- segments for processes cover all 4 GB, and the entries 0 to 3 are as they were.
pub tss_init_lem :
    (gdt : ℕ → GdtDesc) (tss_addr : ℕ)
    → tss_addr < 2 ^ 32
    → (base_of ((tss_init gdt tss_addr).1 4) ≡ tss_addr)
      × (last_byte ((tss_init gdt tss_addr).1 4) + 1 ≡ 4096 * tss_size)
      × (base_of ((tss_init gdt tss_addr).1 5) ≡ 0)
      × (last_byte ((tss_init gdt tss_addr).1 5) + 1 ≡ 2 ^ 32)
      × (base_of ((tss_init gdt tss_addr).1 6) ≡ 0)
      × (last_byte ((tss_init gdt tss_addr).1 6) + 1 ≡ 2 ^ 32)
      × ((i : ℕ) → i < 4 → (tss_init gdt tss_addr).1 i ≡ gdt i)
unfolding tss_init make_gdt_desc
tss_init_lem gdt a lt = (base_fields a lt, refl, refl, refl, refl, refl, λ i li. ground arith)
