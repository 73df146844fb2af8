-- ===== src/Stdio/Render/Tests.antt =====
-- `vsprintf` and `printf` of lib/stdio.c on a format with a number and a string.
use holo_os.Base.{
  ℕ, ◌^◌, ◌<◌, ◌≤◌, ◌≡◌, inr, refl, false, ◌==◌, if◌then◌else◌, List, [], ◌∷◌, ◌++◌, length, arith,
}
use holo_os.Base.Memory.{Mem}
use holo_os.Base.Run.{ok}
use holo_os.CString.Block.{fill}
use holo_os.CString.Text.Strings.{IsString}
use holo_os.Stdio.{vsprintf, va_arg}
use holo_os.Stdio.Digits.{numeral_digits}
use holo_os.Stdio.Render.{pieces, signed_numeral, render, written, plain, int, string}
use holo_os.Stdio.Render.Vsprintf.{rendered, Fits, vsprintf_lem}

-- "%d=%s%" and "ok"
abbrev format : List ℕ
format = 37 ∷ 100 ∷ 61 ∷ 37 ∷ 115 ∷ 37 ∷ []

abbrev word : List ℕ
word = 111 ∷ 107 ∷ []

abbrev page : Mem
page a =
    if a == 100
    then 37
    else if a == 101
    then 100
    else if a == 102
    then 61
    else if a == 103
    then 37
    else if a == 104
    then 115
    else if a == 105
    then 37
    else if a == 200
    then 111
    else if a == 201
    then 107
    else 0

-- The words of the stack: the format's address at 1000, then -42 and the string's address.
abbrev stack : ℕ → ℕ
stack a = if a == 1000 then 100 else if a == 1004 then 4294967254 else 200

abbrev text : ℕ → List ℕ
text k = word

abbrev arguments : ℕ → ℕ
arguments = va_arg stack 1000

-- "-42=ok"
rendered-format : rendered format arguments text ≡ 45 ∷ 52 ∷ 50 ∷ 61 ∷ 111 ∷ 107 ∷ []
unfolding pieces render signed_numeral numeral_digits
rendered-format = refl

pieces-format : pieces false format ≡ int ∷ plain 61 ∷ string ∷ []
unfolding pieces
pieces-format = refl

small : (j : ℕ) → arguments j < 2 ^ 32
small j = ground arith

format-Fits :
    (m : Mem) (str : ℕ)
    → IsString m 100 format
    → IsString m 200 word
    → 300 ≤ str
    → str < 2 ^ 31
    → Fits 2 m str 100 format arguments text
format-Fits m str f w low high =
    rw (rendered-format, pieces-format)
      (
        omega arith,
        omega arith,
        inr (omega arith),
        small,
        f,
        ((w, omega arith, inr (omega arith), omega arith), tt),
      )

vsprintf_lem_example :
    vsprintf 9 page 500 100 arguments
    ≡ ok (
      length (rendered format arguments text),
      written page 500 (rendered format arguments text ++ 0 ∷ []),
    )
vsprintf_lem_example =
    vsprintf_lem 9 2 page 500 100 arguments text format (omega arith)
      (format-Fits page 500 (ground arith) (ground arith) (omega arith) (omega arith))

blank-strings :
    IsString (fill page 2000 1024 0) 100 format × IsString (fill page 2000 1024 0) 200 word
unfolding fill
blank-strings = (ground arith, ground arith)
