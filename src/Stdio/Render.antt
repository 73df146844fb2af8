-- ===== src/Stdio/Render.antt =====
-- The text that `vsprintf` of lib/stdio.c is to write: a format is read as a list of pieces, and a
-- piece stands for characters, apart from any buffer.
mod Conversions
mod Loop
pub mod Vsprintf
mod Tests
use holo_os.Base.{
  ℕ, zero, suc, ◌+◌, ◌-◌, ◌%◌, ◌^◌, ◌≡◌, ◌≢◌, Bool, true, false, ltb, ◌&&◌, ◌==◌, if◌then◌else◌,
  List, [], ◌∷◌, ◌++◌,
}
use holo_os.Base.Memory.{Mem, update}
use holo_os.Stdio.Digits.{numeral_char, numeral_digits}

pub data Piece : Type 0 where
  plain : ℕ → Piece
  hex int char string : Piece

-- The pieces of a format; the flag says that a `%` stands before it. A character behind `%` that
-- names no conversion is an ordinary one, and a `%` is nothing else.
unfoldable pub pieces : Bool → List ℕ → List Piece
pieces percent [] = []
pieces percent (c ∷ cs) =
    let rest = pieces false cs in
    let behind = pieces true cs in
    if percent && c == 120
    then hex ∷ rest
    else if percent && c == 100
    then int ∷ rest
    else if percent && c == 99
    then char ∷ rest
    else if percent && c == 115
    then string ∷ rest
    else if c == 37
    then behind
    else plain c ∷ rest

abbrev pub chars : List ℕ → List ℕ
chars [] = []
chars (d ∷ ds) = numeral_char d ∷ chars ds

-- A number in a base, and a 32-bit number in two's complement.
abbrev pub numeral : ℕ → ℕ → List ℕ
numeral base v = chars (numeral_digits 32 base v)

unfoldable pub signed_numeral : ℕ → List ℕ
signed_numeral arg =
    if ltb arg (2 ^ 31) then numeral 10 arg else 45 ∷ numeral 10 ((2 ^ 32 - arg) % 2 ^ 32)

-- The characters of the pieces with the arguments from the `k`-th on; `text k` is the string that
-- the `k`-th argument points to.
unfoldable pub render : (ℕ → ℕ) → (ℕ → List ℕ) → ℕ → List Piece → List ℕ
render args text k [] = []
render args text k (plain c ∷ ps) = c ∷ render args text k ps
render args text k (hex ∷ ps) = numeral 16 (args k) ++ render args text (k + 1) ps
render args text k (int ∷ ps) = signed_numeral (args k) ++ render args text (k + 1) ps
render args text k (char ∷ ps) = args k % 2 ^ 8 ∷ render args text (k + 1) ps
render args text k (string ∷ ps) = text k ++ render args text (k + 1) ps

-- The memory with the bytes stored from `p` on.
pub written : Mem → ℕ → List ℕ → Mem
written m p [] = m
written m p (c ∷ cs) = written (update m p c) (p + 1) cs
