-- ===== src/Stdio/Format.antt =====
-- `%d` and plain text in `vsprintf` of lib/stdio.c.
use mathlib.Core.Path.{fun_ext}
use holo_os.Base.{
  ℕ, zero, suc, ◌+◌, ◌-◌, ◌%◌, ◌^◌, ◌<◌, ◌≤◌, ◌≡◌, ◌≢◌, refl, ◌∙◌, ◌⊎◌, inl, inr, Bool-cases, true,
  false, not, ltb, ◌==◌, List, [], ◌∷◌, length, arith,
}
use holo_os.Base.Memory.{Mem, update}
use holo_os.Base.Run.{ok}
use holo_os.CString.{memcpy_loop}
use holo_os.CString.Block.{copied, memcpy_loop_lem}
use holo_os.CString.Text.Strings.{IsString}
use holo_os.CString.Text.Copy.{IsString-moved}
use holo_os.Stdio.{magnitude, print_int, format_loop, vsprintf}
use holo_os.Stdio.Digits.{Printed, value, itoa_lem}

-- A sign for a negative number, and then the digits of its magnitude.
abbrev pub PrintedInt : Mem → ℕ → ℕ → List ℕ → Type 0
PrintedInt m buf arg ds =
    ((ltb arg (2 ^ 31) ≡ true) × Printed m 10 buf ds × (value 10 ds ≡ arg))
    ⊎ ((ltb arg (2 ^ 31) ≡ false)
        × (m buf ≡ 45)
        × Printed m 10 (buf + 1) ds
        × (value 10 ds + arg ≡ 2 ^ 32))

-- `%d` of a 32-bit argument ends and writes the number that the argument is in two's complement: a
-- negative one as a `-` and its magnitude, every digit in decimal. It changes no byte before the
-- buffer.
pub print_int_lem :
    (m : Mem) (buf arg : ℕ)
    → arg < 2 ^ 32
    → (ds : List ℕ) × (buf' : ℕ) × (m' : Mem) × (print_int m buf arg ≡ ok (buf', m'))
      × PrintedInt m' buf arg ds
      × ((a : ℕ) → a < buf → m' a ≡ m a)
unfolding print_int magnitude
print_int_lem m buf arg lt = elim (Bool-cases (ltb arg (2 ^ 31))) [
  | inl positive ↦
      let (ds, m', run, printed, val, number, nz, same) =
        itoa_lem 32 m arg buf 10 (inl refl) (omega arith) (omega arith) in
      (
        ds,
        buf + length ds,
        m',
        rw positive run,
        inl (positive, printed, val),
        λ a lt. same a (inl lt),
      )
  | inr negative ↦
      let n : (2 ^ 32 - arg) % 2 ^ 32 ≡ 2 ^ 32 - arg = ground arith in
      let (ds, m', run, printed, val, number, nz, same) =
        itoa_lem 32 (update m buf 45) ((2 ^ 32 - arg) % 2 ^ 32) (buf + 1) 10 (inl refl)
          (omega arith) (omega arith) in
      let total : value 10 ds + arg ≡ 2 ^ 32 = omega arith in
      let sign = same buf (inl (omega arith)) in
      (
        ds,
        buf + 1 + length ds,
        m',
        rw negative run,
        inr (negative, ground arith, printed, total),
        λ a lt'. same a (inl (omega arith)) ∙ ground arith,
      )
]

-- No byte of the list is `%`.
abbrev pub NoPercent : List ℕ → Type 0
NoPercent [] = Unit {0}
NoPercent (c ∷ cs) = (c ≢ 37) × NoPercent cs

format_loop-plain :
    (fuel : ℕ) (m : Mem) (buf format : ℕ) (args : ℕ → ℕ) (k : ℕ) (cs : List ℕ)
    → length cs < fuel
    → IsString m format cs
    → NoPercent cs
    → (buf ≤ format) ⊎ (format + length cs < buf)
    → format_loop fuel m buf format args k
      ≡ ok (buf + length cs, memcpy_loop m buf format (length cs))
unfolding format_loop memcpy_loop
format_loop-plain zero m buf format args k cs lt s np out = absurd (omega arith)
format_loop-plain (suc fuel) m buf format args k [] lt s np out =
    let z : buf + 0 ≡ buf = omega arith in rw (z, s) refl
format_loop-plain (suc fuel) m buf format args k (c ∷ cs) lt (e, ne, s) (nc, np) out =
    let one : 1 + length cs ≡ suc (length cs) = omega arith in
    let step : buf + 1 + length cs ≡ buf + suc (length cs) = omega arith in
    let rest =
      format_loop-plain fuel (update m buf (m format)) (buf + 1) (format + 1) args k cs
        (omega arith) (IsString-moved m _ (format + 1) (format + 1) cs (λ i le. ground arith) s) np
        (omega arith) in
    let more : (m format == 0) ≡ false = ground arith in
    let text : not (m format == 37) ≡ true = ground arith in rw (one, more, text) (rw step at rest)

-- `vsprintf` of a format without `%`, to a buffer below the format or behind its end, with more
-- rounds than the format has bytes, ends: it copies the format with its zero, changes nothing
-- else, and returns the number of characters as a 32-bit number.
pub vsprintf-plain :
    (fuel : ℕ) (m : Mem) (str format : ℕ) (args : ℕ → ℕ) (cs : List ℕ)
    → length cs < fuel
    → IsString m format cs
    → NoPercent cs
    → (str ≤ format) ⊎ (format + length cs < str)
    → vsprintf fuel m str format args
      ≡ ok (length cs % 2 ^ 32, update (copied m str format (length cs)) (str + length cs) 0)
unfolding vsprintf copied
vsprintf-plain fuel m str format args cs lt s np out =
    let apart : (str ≤ format) ⊎ (format + length cs ≤ str) = omega arith in
    let run = format_loop-plain fuel m str format args 0 cs lt s np out in
    let same = fun_ext (λ a. memcpy_loop_lem m str format (length cs) a apart) in
    let len : str + length cs - str ≡ length cs = omega arith in rw (run, same, len) refl
