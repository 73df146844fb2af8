-- ===== src/Stdio/Render/Vsprintf.antt =====
-- `vsprintf`, `sprintf` and `printf` of lib/stdio.c on a whole format.
use holo_os.Base.{
  ℕ, ◌+◌, ◌-◌, ◌%◌, ◌^◌, ◌<◌, ◌≤◌, ◌≡◌, ◌≢◌, refl, ap, ◌∙◌, ◌⊎◌, false, List, [], ◌∷◌, ◌++◌, length,
  length-++, arith,
}
use holo_os.Base.Memory.{Mem, update}
use holo_os.Base.Run.{Run, ok}
use holo_os.CString.Block.{fill}
use holo_os.CString.Text.Strings.{IsString}
use holo_os.Stdio.{vsprintf, va_arg, printf}
use holo_os.Stdio.Render.{pieces, render, written}
use holo_os.Stdio.Render.Conversions.{written-++, written-outside}
use holo_os.Stdio.Render.Loop.{Texts, format_loop-stored}

-- The text of the format `cs` with the arguments.
abbrev pub rendered : List ℕ → (ℕ → ℕ) → (ℕ → List ℕ) → List ℕ
rendered cs args text = render args text 0 (pieces false cs)

-- The text has room between `str` and the end of the address space, the format and the string
-- arguments stand apart from it, and no string argument is longer than `n`.
abbrev pub Fits : ℕ → Mem → ℕ → ℕ → List ℕ → (ℕ → ℕ) → (ℕ → List ℕ) → Type 0
Fits n m str format cs args text =
    (0 < str)
    × (str + length (rendered cs args text) < 2 ^ 32)
    × ((str + length (rendered cs args text) ≤ format) ⊎ (format + length cs < str))
    × ((j : ℕ) → args j < 2 ^ 32)
    × IsString m format cs
    × Texts args text str (str + length (rendered cs args text)) n m 0 (pieces false cs)

-- `vsprintf`, with more rounds than the format and the longest string argument together have
-- bytes, ends. It stores the text that the pieces of the format stand for, one behind the other,
-- and a zero behind it, and returns the length of the text; no other byte changes. The format and
-- the string arguments must stand apart from the text.
pub vsprintf_lem :
    (fuel n : ℕ) (m : Mem) (str format : ℕ) (args : ℕ → ℕ) (text : ℕ → List ℕ) (cs : List ℕ)
    → length cs + n < fuel
    → Fits n m str format cs args text
    → vsprintf fuel m str format args
      ≡ ok (length (rendered cs args text), written m str (rendered cs args text ++ 0 ∷ []))
unfolding vsprintf written
vsprintf_lem fuel n m str format args text cs lt (pos, top, apart, small, s, texts) =
    let out = rendered cs args text in
    let run =
      format_loop-stored args text str (str + length out) n fuel m str format 0 cs pos top small lt
        (s, omega arith, omega arith, apart, texts) in
    let len : (str + length out - str) % 2 ^ 32 ≡ length out = omega arith in
    rw (run, len, written-++ m str out (0 ∷ [])) refl

abbrev pub NoZero : List ℕ → Type 0
NoZero [] = Unit {0}
NoZero (c ∷ cs) = (c ≢ 0) × NoZero cs

written-IsString :
    (m : Mem) (p : ℕ) (cs : List ℕ) → NoZero cs → IsString (written m p (cs ++ 0 ∷ [])) p cs
unfolding written
written-IsString m p [] h = ground arith
written-IsString m p (c ∷ cs) (ne, h) = (
  written-outside (update m p c) (p + 1) (cs ++ 0 ∷ []) p (omega arith) ∙ ground arith,
  ne,
  written-IsString (update m p c) (p + 1) cs h,
)

-- `printf` of a text of less than 1024 bytes, none of them 0, calls `write` once, with the address
-- of its array, at which a string then stands: the text of the format with the words of the stack
-- behind it. No byte outside the array changes. The format and the string arguments must stand
-- apart from the array.
pub printf_lem {ℓ} :
    {A : Type ℓ} (write : Mem → ℕ → Run A) (fuel n : ℕ) (m : Mem) (stack : ℕ → ℕ) (ap buf : ℕ)
    (text : ℕ → List ℕ) (cs : List ℕ)
    → length cs + n < fuel
    → Fits n (fill m buf 1024 0) buf (stack ap) cs (va_arg stack ap) text
    → length (rendered cs (va_arg stack ap) text) < 1024
    → NoZero (rendered cs (va_arg stack ap) text)
    → (m' : Mem) × (printf write fuel m stack ap buf ≡ write m' buf)
      × IsString m' buf (rendered cs (va_arg stack ap) text)
      × ((a : ℕ) → (a < buf) ⊎ (buf + 1024 ≤ a) → m' a ≡ m a)
unfolding printf fill
printf_lem write fuel n m stack ap buf text cs lt fits short nz =
    let out = rendered cs (va_arg stack ap) text in
    let run =
      vsprintf_lem fuel n (fill m buf 1024 0) buf (stack ap) (va_arg stack ap) text cs lt fits in
    let len = length-++ out (0 ∷ []) in
    (
      written (fill m buf 1024 0) buf (out ++ 0 ∷ []),
      rw run refl,
      written-IsString (fill m buf 1024 0) buf out nz,
      λ a out'.
          written-outside (fill m buf 1024 0) buf (out ++ 0 ∷ []) a (omega (arith, len))
          ∙ ground arith,
    )
