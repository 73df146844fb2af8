-- ===== src/Bitmap/Tests.antt =====
-- The functions of kernel/bitmap.c on a small bitmap, and the theorems there.
use holo_os.Base.{ℕ, ◌<◌, ◌≤◌, ◌≡◌, ◌⊎◌, refl, false, none, some, arith}
use holo_os.Base.Bits.{test_bit}
use holo_os.Base.Memory.{Mem, update}
use holo_os.Base.Run.{ok, panic}
use holo_os.Bitmap.{Bitmap, bitmap_init, bitmap_test, bitmap_scan, bitmap_set}
use holo_os.Bitmap.Scan.{Scanned, bitmap_scan-Scanned}
use holo_os.Bitmap.Set.{IsBytes, bitmap_set-panic, bitmap_init_lem}

-- Sixteen bits at address 100: eight in use, then 1, 0, 1 and free bits.
abbrev memory : Mem
memory = update (update (λ a. 0) 100 0xff) 101 5

abbrev bitmap : Bitmap
bitmap = record { bits = 100; size = 2 }

memory-IsBytes : IsBytes memory
memory-IsBytes a = ground arith

scan_run : bitmap_scan memory bitmap 3 ≡ some 11
unfolding bitmap_scan bitmap_test test_bit
scan_run = refl

scan_none : bitmap_scan memory bitmap 6 ≡ none
unfolding bitmap_scan bitmap_test test_bit
scan_none = refl

-- The first free bit of an empty bitmap is number 0.
scan_zero : bitmap_scan (λ a. 0) bitmap 1 ≡ some 0
unfolding bitmap_scan bitmap_test test_bit
scan_zero = refl

bitmap_scan-Scanned_example : Scanned memory bitmap 3 (some 11)
unfolding bitmap_scan bitmap_test test_bit
bitmap_scan-Scanned_example = bitmap_scan-Scanned memory bitmap 3 (omega arith) (omega arith)

bitmap_set-panic_example : bitmap_set memory bitmap 9 2 ≡ panic
bitmap_set-panic_example = bitmap_set-panic memory bitmap 9 2 (omega arith)

bitmap_init_lem_example :
    (m' : Mem) × (bitmap_init memory bitmap ≡ ok m')
    × ((i : ℕ) → i < 16 → bitmap_test m' bitmap i ≡ false)
    × ((a : ℕ) → (a < 100) ⊎ (102 ≤ a) → m' a ≡ memory a)
bitmap_init_lem_example = bitmap_init_lem memory bitmap (omega arith)
