-- ===== src/Bitmap.antt =====
-- kernel/bitmap.c: bitmaps in memory. A `struct bitmap` holds the address of its bytes and their
-- number. The bytes lie in the memory that every bitmap shares, so an index beyond the end names
-- a byte behind the bitmap, as it does in the source.
pub mod Scan
pub mod Set
mod Tests
use holo_os.Base.{
  ℕ, zero, suc, ◌+◌, ◌-◌, ◌*◌, ◌/◌, ◌%◌, ◌^◌, Bool, true, false, not, ◌||◌, ◌==◌, if◌then◌else◌,
  Option, none, some,
}
use holo_os.Base.Bits.{test_bit, set_bit, clear_bit}
use holo_os.Base.Memory.{Mem, update}
use holo_os.Base.Run.{Run, ok, assert, ◌>>=◌, ◌>>◌}
use holo_os.CString.{memset}

pub record Bitmap : Type 0 where
  pub bits : ℕ
  pub size : ℕ

unfoldable pub bitmap_init : Mem → Bitmap → Run Mem
bitmap_init m bmap = memset m bmap.bits 0 bmap.size

unfoldable pub bitmap_test : Mem → Bitmap → ℕ → Bool
bitmap_test m bmap idx = test_bit (m (bmap.bits + idx / 8)) (idx % 8)

-- `while (idx < sz && bmap->bits[idx] == 0xff) { idx += 1; }`, by the rounds up to `sz`
skip_full : Mem → Bitmap → ℕ → ℕ → ℕ
skip_full m bmap zero idx = idx
skip_full m bmap (suc rounds) idx =
    if m (bmap.bits + idx) == 0xff then skip_full m bmap rounds (idx + 1) else idx

-- The second loop, by the rounds up to `sz * 8`. `cur` and the result are `uint32`.
find_run : Mem → Bitmap → ℕ → ℕ → ℕ → ℕ → Option ℕ
find_run m bmap cnt zero idx cur = none
find_run m bmap cnt (suc rounds) idx cur =
    let cur' = if not (bitmap_test m bmap idx) then (cur + 1) % 2 ^ 32 else 0 in
    let rest = find_run m bmap cnt rounds (idx + 1) cur' in
    if cur' == cnt then some ((idx + 1 + 2 ^ 32 - cnt) % 2 ^ 32) else rest

-- The `int` -1 is `none`.
unfoldable pub bitmap_scan : Mem → Bitmap → ℕ → Option ℕ
unfolding skip_full find_run
bitmap_scan m bmap cnt =
    let idx = skip_full m bmap bmap.size 0 in
    if idx == bmap.size then none else find_run m bmap cnt (bmap.size * 8 - idx * 8) (idx * 8) 0

unfoldable pub bitmap_set : Mem → Bitmap → ℕ → ℕ → Run Mem
bitmap_set m bmap idx val = do
  assert (val == 0 || val == 1)
  let byte_idx = idx / 8
  let bit_pos = idx % 8
  let byte = bmap.bits + byte_idx
  ok (
      update m byte
        (if not (val == 0) then set_bit (m byte) bit_pos else clear_bit (m byte) bit_pos))
