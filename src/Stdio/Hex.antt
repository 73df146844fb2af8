-- ===== src/Stdio/Hex.antt =====
-- lib/kernel/printC.c: `putint`, which prints a number in base 16.
use Prim.Native.Nat.{bit_and}
use holo_os.Base.{
  ℕ, zero, suc, ◌+◌, ◌-◌, ◌*◌, ◌/◌, ◌%◌, ◌^◌, ◌<◌, ◌≡◌, ◌≢◌, inl, inr, refl, ◌∙◌, Bool, Bool-cases,
  true, false, ◌&&◌, leb, ltb, ◌==◌, if◌then◌else◌, List, [], ◌∷◌, arith,
}
use holo_os.Base.Masks.{and_low}

-- The first loop from digit `i` on, by the rounds left.
pub digits : ℕ → ℕ → ℕ → List ℕ
digits zero i num = []
digits (suc rounds) i num = bit_and (num / 2 ^ ((7 - i) * 4)) 0xf ∷ digits rounds (i + 1) num

-- `digit + 48`, or `digit + 87`
abbrev pub hex_char : ℕ → ℕ
hex_char d = if leb 10 d then d + 87 else d + 48

-- The characters of the second loop and of the test behind it.
pub shown : Bool → List ℕ → List ℕ
shown leading [] = if leading then 48 ∷ [] else []
shown leading (d ∷ ds) =
    let skipped = shown true ds in
    let printed = shown false ds in if leading && d == 0 then skipped else hex_char d ∷ printed

pub putint : ℕ → List ℕ
putint num = shown true (digits 8 0 num)

-- What a character stands for, and the number that characters stand for behind `acc`.
abbrev pub hex_digit : ℕ → ℕ
hex_digit c = if ltb c 58 then c - 48 else c - 87

abbrev pub hex_value : ℕ → List ℕ → ℕ
hex_value acc [] = acc
hex_value acc (c ∷ cs) = hex_value (acc * 16 + hex_digit c) cs

abbrev value : ℕ → List ℕ → ℕ
value acc [] = acc
value acc (d ∷ ds) = value (acc * 16 + d) ds

abbrev IsDigits : List ℕ → Type 0
IsDigits [] = Unit
IsDigits (d ∷ ds) = (d < 16) × IsDigits ds

-- A numeral without a zero in front, or the numeral 0 by itself.
pub data IsNumeral : List ℕ → Type 0 where
  nought : IsNumeral (48 ∷ [])
  numeral : (c : ℕ) (cs : List ℕ) → c ≢ 48 → IsNumeral (c ∷ cs)

hex_digit-hex_char : (d : ℕ) → d < 16 → hex_digit (hex_char d) ≡ d
hex_digit-hex_char d lt = ground arith

shown-rest : (ds : List ℕ) (acc : ℕ) → IsDigits ds → hex_value acc (shown false ds) ≡ value acc ds
unfolding shown
shown-rest [] acc h = refl
shown-rest (d ∷ ds) acc (lt, h) = rw (hex_digit-hex_char d lt) (shown-rest ds (acc * 16 + d) h)

shown_lem :
    (ds : List ℕ)
    → IsDigits ds
    → (hex_value 0 (shown true ds) ≡ value 0 ds) × IsNumeral (shown true ds)
unfolding shown
shown_lem [] h = (refl, nought)
shown_lem (d ∷ ds) (lt, h) = elim (Bool-cases (d == 0)) [
  | inl z ↦ let e : d ≡ 0 = ground arith in rw (z, e) (shown_lem ds h)
  | inr some ↦
      rw some (shown-rest (d ∷ ds) 0 (lt, h), numeral (hex_char d) (shown false ds) (ground arith))
]

digit : (num i : ℕ) → bit_and (num / 2 ^ i) 0xf ≡ num / 2 ^ i % 16
digit num i = and_low 4 (num / 2 ^ i)

-- `putint` prints a 32-bit number as a numeral of base 16 with no zero in front, and the numeral
-- stands for it.
pub putint_lem :
    (num : ℕ) → num < 2 ^ 32 → (hex_value 0 (putint num) ≡ num) × IsNumeral (putint num)
unfolding putint digits
putint_lem num lt =
    let (same, form) = shown_lem (digits 8 0 num) (
      omega (
        arith,
        digit num 28,
        digit num 24,
        digit num 20,
        digit num 16,
        digit num 12,
        digit num 8,
        digit num 4,
        digit num 0,
      )) in
    (
      same
          ∙ omega (
            arith,
            digit num 28,
            digit num 24,
            digit num 20,
            digit num 16,
            digit num 12,
            digit num 8,
            digit num 4,
            digit num 0,
          ),
      form,
    )
