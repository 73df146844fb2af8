-- ===== src/CString/Text/Tests.antt =====
-- The routines of lib/string.c on two short strings, and the theorems there.
use holo_os.Base.{
  Bool, true, ltb, ◌&&◌, ◌<◌, ℕ, zero, suc, ◌==◌, if◌then◌else◌, ◌-◌, ◌≡◌, ◌↔◌, refl, List, [], ◌∷◌,
  arith,
}
use holo_os.Base.Memory.{Mem}
use holo_os.Bitmap.Set.{IsBytes}
use holo_os.Base.Run.{ok}
use holo_os.CString.{equal}
use holo_os.CString.Text.{strcmp, strchr, char_eq}
use holo_os.CString.Text.Strings.{IsString, compare_strings, strcmp_lem}

abbrev nth : List ℕ → ℕ → ℕ
nth [] i = 0
nth (c ∷ cs) zero = c
nth (c ∷ cs) (suc i) = nth cs i

abbrev all_bytes : List ℕ → Bool
all_bytes [] = true
all_bytes (c ∷ cs) = ltb c 256 && all_bytes cs

-- "holo" at 100 and "hi" at 110
abbrev text : Mem
text a = nth (104 ∷ 111 ∷ 108 ∷ 111 ∷ 0 ∷ 0 ∷ 0 ∷ 0 ∷ 0 ∷ 0 ∷ 104 ∷ 105 ∷ 0 ∷ []) (a - 100)

abbrev holo : List ℕ
holo = 104 ∷ 111 ∷ 108 ∷ 111 ∷ []

abbrev hi : List ℕ
hi = 104 ∷ 105 ∷ []

holo-IsString : IsString text 100 holo
holo-IsString =
    (refl, omega arith, (refl, omega arith, (refl, omega arith, (refl, omega arith, refl))))

hi-IsString : IsString text 110 hi
hi-IsString = (refl, omega arith, (refl, omega arith, refl))

nth-byte : (l : List ℕ) → all_bytes l ≡ true → (i : ℕ) → nth l i < 256
nth-byte [] h i = omega arith
nth-byte (c ∷ cs) h zero = ground arith
nth-byte (c ∷ cs) h (suc i) = nth-byte cs (ground arith) i

text-IsBytes : IsBytes text
text-IsBytes a =
    nth-byte (104 ∷ 111 ∷ 108 ∷ 111 ∷ 0 ∷ 0 ∷ 0 ∷ 0 ∷ 0 ∷ 0 ∷ 104 ∷ 105 ∷ 0 ∷ []) refl (a - 100)

strcmp_lem_example :
    (strcmp 5 text 110 100 ≡ ok (compare_strings hi holo))
    × ((compare_strings hi holo ≡ equal) ↔ (hi ≡ holo))
strcmp_lem_example =
    strcmp_lem 5 text 110 100 hi holo text-IsBytes (omega arith) (omega arith) (omega arith)
      hi-IsString holo-IsString

-- 0xe4 in a string is a negative `char`, which no `uint8` is equal to.
strchr_high : strchr 5 (λ a. if a == 100 then 0xe4 else 0) 100 0xe4 ≡ ok 0
unfolding strchr char_eq
strchr_high = refl
