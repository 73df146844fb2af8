-- ===== src/Stdio/Tests.antt =====
-- lib/stdio.c on a few numbers and a short format, and the theorems there.
use holo_os.Stdio.Hex.{putint, hex_value, IsNumeral, putint_lem}
use holo_os.Base.{
  ℕ, ◌+◌, ◌<◌, ◌≤◌, ◌≡◌, ◌⊎◌, inr, refl, ◌==◌, if◌then◌else◌, List, [], ◌∷◌, length, arith,
}
use holo_os.Base.Memory.{Mem, update}
use holo_os.Base.Run.{ok}
use holo_os.CString.Text.Strings.{IsString}
use holo_os.Stdio.{itoa, print_int, magnitude}
use holo_os.Stdio.Digits.{Printed, value, NoLeadingZero, read_number, itoa_lem}

abbrev blank : Mem
blank a = 0

itoa_lem_example :
    (ds : List ℕ) × (m' : Mem) × (itoa 32 blank 0xb8000 500 16 ≡ ok (500 + length ds, m'))
    × Printed m' 16 500 ds
    × (value 16 ds ≡ 0xb8000)
    × (read_number m' 16 0 500 (length ds) ≡ 0xb8000)
    × NoLeadingZero 0xb8000 ds
    × ((a : ℕ) → (a < 500) ⊎ (500 + length ds ≤ a) → m' a ≡ blank a)
itoa_lem_example = itoa_lem 32 blank 0xb8000 500 16 (inr refl) (omega arith) (omega arith)

print_int_chars :
    print_int blank 500 4294967254 ≡ ok (503, update (update (update blank 500 45) 501 52) 502 50)
unfolding print_int itoa magnitude
print_int_chars = refl

-- "ok" at 100
abbrev text : Mem
text a = if a == 100 then 111 else if a == 101 then 107 else 0

ok-IsString : IsString text 100 (111 ∷ 107 ∷ [])
ok-IsString = (refl, omega arith, (refl, omega arith, refl))

-- 0xbeef
putint_lem_example : (hex_value 0 (putint 48879) ≡ 48879) × IsNumeral (putint 48879)
putint_lem_example = putint_lem 48879 (omega arith)
