-- ===== src/Stdio/Digits.antt =====
-- The digits that `itoa` of lib/stdio.c writes.
use holo_os.Base.{
  ℕ, zero, suc, ◌+◌, ◌*◌, ◌/◌, ◌%◌, ◌^◌, ◌<◌, ◌≤◌, ◌≡◌, ◌≢◌, refl, sym, ap, ◌∙◌, ◌⊎◌, inl, inr,
  Bool-cases, ==→≡, ◌==◌, if◌then◌else◌, ltb, ◌-◌, List, [], ◌∷◌, ◌++◌, length, length-++, arith,
}
use holo_os.Base.Memory.{Mem, update}
use holo_os.Base.Run.{ok}
use holo_os.Stdio.{digit_char, itoa}

-- The number that a list of digits stands for, the first digit the highest.
pub value_from : ℕ → ℕ → List ℕ → ℕ
value_from base acc [] = acc
value_from base acc (d ∷ ds) = value_from base (acc * base + d) ds

abbrev pub value : ℕ → List ℕ → ℕ
value base ds = value_from base 0 ds

value_from-snoc :
    (base acc d : ℕ) (ds : List ℕ)
    → value_from base acc (ds ++ d ∷ []) ≡ value_from base acc ds * base + d
unfolding value_from
value_from-snoc base acc d [] = refl
value_from-snoc base acc d (e ∷ ds) = value_from-snoc base (acc * base + e) d ds

-- The character for a digit, of 0 to 9 and A to Z.
abbrev pub numeral_char : ℕ → ℕ
numeral_char d = if ltb d 10 then 48 + d else 55 + d

digit_char_lem : (d : ℕ) → d < 16 → digit_char d ≡ numeral_char d
digit_char_lem d lt = ground arith

-- What a character stands for, and the number that the `n` characters from `p` on stand for.
abbrev pub char_digit : ℕ → ℕ
char_digit c = if ltb c 65 then c - 48 else c - 65 + 10

abbrev pub read_number : Mem → ℕ → ℕ → ℕ → ℕ → ℕ
read_number m base acc p zero = acc
read_number m base acc p (suc n) = read_number m base (acc * base + char_digit (m p)) (p + 1) n

-- The characters of digits below the base stand from `p` on.
abbrev pub Printed : Mem → ℕ → ℕ → List ℕ → Type 0
Printed m base p [] = Unit {0}
Printed m base p (d ∷ ds) = (m p ≡ numeral_char d) × (d < base) × Printed m base (p + 1) ds

Printed-snoc :
    (m : Mem) (base p d : ℕ) (ds : List ℕ)
    → base ≤ 16
    → d < base
    → Printed m base p ds
    → Printed (update m (p + length ds) (digit_char d)) base p (ds ++ d ∷ [])
Printed-snoc m base p d [] few lt h =
    let z : p + 0 ≡ p = omega arith in
    let c = digit_char_lem d (omega arith) in (rw z (ground arith), lt, tt)
Printed-snoc m base p d (e ∷ ds) few lt (here, small, h) =
    let next : p + 1 + length ds ≡ p + (1 + length ds) = omega arith in
    (ground arith, small, rw next at (Printed-snoc m base (p + 1) d ds few lt h))

char_digit-numeral_char : (d : ℕ) → d < 16 → char_digit (numeral_char d) ≡ d
char_digit-numeral_char d lt = ground arith

-- Printed digits are read as the number that they stand for.
read_number-Printed :
    (m : Mem) (base acc p : ℕ) (ds : List ℕ)
    → base ≤ 16
    → Printed m base p ds
    → read_number m base acc p (length ds) ≡ value_from base acc ds
unfolding value_from
read_number-Printed m base acc p [] few h = refl
read_number-Printed m base acc p (d ∷ ds) few (here, small, h) =
    let e : char_digit (m p) ≡ d = ap char_digit here ∙ char_digit-numeral_char d (omega arith) in
    let one : 1 + length ds ≡ suc (length ds) = omega arith in
    ap (read_number m base acc p) one
    ∙ ap (λ x. read_number m base (acc * base + x) (p + 1) (length ds)) e
    ∙ read_number-Printed m base (acc * base + d) (p + 1) ds few h

split :
    (base v : ℕ)
    → (base ≡ 10) ⊎ (base ≡ 16)
    → (v / base * base + v % base ≡ v) × (v % base < base) × (2 * (v / base) ≤ v)
split base v (inl e) = rw e (omega arith, omega arith, omega arith)
split base v (inr e) = rw e (omega arith, omega arith, omega arith)

-- The first digit is not 0, except for the number 0.
abbrev pub NoLeadingZero : ℕ → List ℕ → Type 0
NoLeadingZero v [] = 1 ≤ 0
NoLeadingZero v (d ∷ ds) = (v ≢ 0) → d ≢ 0

NoLeadingZero-snoc :
    (v w d : ℕ) (ds : List ℕ) → w ≢ 0 → NoLeadingZero w ds → NoLeadingZero v (ds ++ d ∷ [])
NoLeadingZero-snoc v w d [] ne h = absurd (omega arith)
NoLeadingZero-snoc v w d (e ∷ ds) ne h = λ _. h ne

deep : (fuel v : ℕ) → v < 2 ^ suc fuel → 2 ≤ v → 0 < fuel
deep zero v lt le = absurd (omega arith)
deep (suc fuel) v lt le = omega arith

-- The digits of a number in a base, the highest first.
unfoldable pub numeral_digits : ℕ → ℕ → ℕ → List ℕ
numeral_digits zero base v = []
numeral_digits (suc fuel) base v =
    let rest = numeral_digits fuel base (v / base) in
    if v / base == 0 then v % base ∷ [] else rest ++ v % base ∷ []

pub itoa-digits :
    (fuel : ℕ) (m : Mem) (v buf base : ℕ)
    → (base ≡ 10) ⊎ (base ≡ 16)
    → v < 2 ^ fuel
    → 0 < fuel
    → (m' : Mem) × (itoa fuel m v buf base ≡ ok (buf + length (numeral_digits fuel base v), m'))
      × Printed m' base buf (numeral_digits fuel base v)
      × (value base (numeral_digits fuel base v) ≡ v)
      × NoLeadingZero v (numeral_digits fuel base v)
      × ((a : ℕ) → (a < buf) ⊎ (buf + length (numeral_digits fuel base v) ≤ a) → m' a ≡ m a)
unfolding itoa value_from numeral_digits
itoa-digits zero m v buf base b lt pos = absurd (omega arith)
itoa-digits (suc fuel) m v buf base b lt pos =
    let (parts, small, half) = split base v b in
    let few : base ≤ 16 = omega arith in
    let pow : 2 ^ suc fuel ≡ 2 * 2 ^ fuel = omega arith in
    elim (Bool-cases (v / base == 0)) [
      | inl single ↦
          let z : v / base ≡ 0 = ==→≡ (v / base) 0 single in
          let same : 0 * base + v % base ≡ v = rw z at parts in
          rw single (
            update m buf (digit_char (v % base)),
            refl,
            (let c = digit_char_lem (v % base) (omega arith) in ground arith, small, tt),
            same,
            (λ ne. omega arith),
            λ a out. ground arith,
          )
      | inr more ↦
          let ne : v / base ≢ 0 = ground arith in
          let ds = numeral_digits fuel base (v / base) in
          let (m1, run, printed, val, nz, same) =
            itoa-digits fuel m (v / base) buf base b (omega arith) (deep fuel v lt (omega arith)) in
          let len = length-++ ds (v % base ∷ []) in
          let stop : buf + length ds + 1 ≡ buf + length (ds ++ v % base ∷ []) =
            omega (arith, len) in
          rw more (
            update m1 (buf + length ds) (digit_char (v % base)),
            rw (run, sym stop) refl,
            Printed-snoc m1 base buf (v % base) ds few small printed,
            value_from-snoc base 0 (v % base) ds ∙ ap (λ x. x * base + v % base) val ∙ parts,
            NoLeadingZero-snoc v (v / base) (v % base) ds ne nz,
            λ a out. ground (arith, same a, len),
          )
    ]

-- `itoa` in base 10 or 16, with a recursion deeper than the number has binary digits, ends: it
-- writes digits of the base from `buf` on, as the characters 0 to 9 and A to F, at least one and
-- with no leading zero; the characters written are read as the number; it returns the next free byte; no other byte changes.
pub itoa_lem :
    (fuel : ℕ) (m : Mem) (v buf base : ℕ)
    → (base ≡ 10) ⊎ (base ≡ 16)
    → v < 2 ^ fuel
    → 0 < fuel
    → (ds : List ℕ) × (m' : Mem) × (itoa fuel m v buf base ≡ ok (buf + length ds, m'))
      × Printed m' base buf ds
      × (value base ds ≡ v)
      × (read_number m' base 0 buf (length ds) ≡ v)
      × NoLeadingZero v ds
      × ((a : ℕ) → (a < buf) ⊎ (buf + length ds ≤ a) → m' a ≡ m a)
itoa_lem fuel m v buf base b lt pos =
    let (m', run, printed, val, nz, same) = itoa-digits fuel m v buf base b lt pos in
    let few : base ≤ 16 = omega arith in
    let ds = numeral_digits fuel base v in
    (ds, m', run, printed, val, read_number-Printed m' base 0 buf ds few printed ∙ val, nz, same)
