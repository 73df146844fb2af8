-- ===== src/Stdio/Render/Conversions.antt =====
-- The bytes that one conversion of `vsprintf` in lib/stdio.c stores.
use mathlib.Core.Path.{fun_ext}
use holo_os.Base.{
  ℕ, suc, ◌+◌, ◌-◌, ◌%◌, ◌^◌, ◌<◌, ◌≤◌, ◌≡◌, ◌≢◌, refl, sym, ap, ◌∙◌, ◌⊎◌, inl, inr, Bool-cases,
  ltb, List, [], ◌∷◌, ◌++◌, length, arith,
}
use holo_os.Base.Memory.{Mem, update}
use holo_os.Base.Run.{ok}
use holo_os.CString.{memcpy_loop}
use holo_os.CString.Block.{copied, memcpy_loop_lem}
use holo_os.CString.Text.Strings.{IsString, strlen_lem}
use holo_os.CString.Text.Copy.{IsString-moved, strcpy_lem}
use holo_os.Stdio.{itoa, magnitude, print_int, print_string}
use holo_os.Stdio.Digits.{Printed, numeral_digits, itoa-digits}
use holo_os.Stdio.Render.{chars, numeral, signed_numeral, written}

pub written-++ :
    (m : Mem) (p : ℕ) (cs ds : List ℕ)
    → written m p (cs ++ ds) ≡ written (written m p cs) (p + length cs) ds
unfolding written
written-++ m p [] ds = let z : p + 0 ≡ p = omega arith in rw z refl
written-++ m p (c ∷ cs) ds =
    let a : p + (1 + length cs) ≡ p + 1 + length cs = omega arith in
    rw a (written-++ (update m p c) (p + 1) cs ds)

pub written-outside :
    (m : Mem) (p : ℕ) (cs : List ℕ) (a : ℕ) → (a < p) ⊎ (p + length cs ≤ a) → written m p cs a ≡ m a
unfolding written
written-outside m p [] a out = refl
written-outside m p (c ∷ cs) a out =
    written-outside (update m p c) (p + 1) cs a (omega arith) ∙ ground arith

length-chars : (ds : List ℕ) → length (chars ds) ≡ length ds
length-chars [] = refl
length-chars (d ∷ ds) = ap (λ n. 1 + n) (length-chars ds)

-- A memory that holds the numeral_digits, and what another holds elsewhere.
Printed-written :
    (m m' : Mem) (base p : ℕ) (ds : List ℕ)
    → Printed m' base p ds
    → ((a : ℕ) → (a < p) ⊎ (p + length ds ≤ a) → m' a ≡ m a)
    → m' ≡ written m p (chars ds)
unfolding written
Printed-written m m' base p [] h same = fun_ext λ a. same a (omega arith)
Printed-written m m' base p (d ∷ ds) (e, lt, h) same =
    Printed-written (update m p _) m' base (p + 1) ds h (λ a out. ground (arith, same a, e))

itoa-written :
    (m : Mem) (v buf base : ℕ)
    → (base ≡ 10) ⊎ (base ≡ 16)
    → v < 2 ^ 32
    → itoa 32 m v buf base ≡ ok (buf + length (numeral base v), written m buf (numeral base v))
itoa-written m v buf base b lt =
    let (m', run, printed, val, nz, same) = itoa-digits 32 m v buf base b lt (omega arith) in
    let ds = numeral_digits 32 base v in
    rw (run, length-chars ds, Printed-written m m' base buf ds printed same) refl

pub itoa-hex :
    (m : Mem) (v buf : ℕ)
    → v < 2 ^ 32
    → itoa 32 m v buf 16 ≡ ok (buf + length (numeral 16 v), written m buf (numeral 16 v))
itoa-hex m v buf lt = itoa-written m v buf 16 (inr refl) lt

pub print_int-written :
    (m : Mem) (buf arg : ℕ)
    → arg < 2 ^ 32
    → print_int m buf arg
      ≡ ok (buf + length (signed_numeral arg), written m buf (signed_numeral arg))
unfolding print_int magnitude signed_numeral written
print_int-written m buf arg lt = elim (Bool-cases (ltb arg (2 ^ 31))) [
  | inl positive ↦ rw positive (itoa-written m arg buf 10 (inl refl) lt)
  | inr negative ↦
      let n = (2 ^ 32 - arg) % 2 ^ 32 in
      let next : buf + 1 + length (numeral 10 n) ≡ buf + (1 + length (numeral 10 n)) =
        omega arith in
      rw negative (
        itoa-written (update m buf 45) n (buf + 1) 10 (inl refl) (omega arith)
        ∙ ap (λ b. ok (b, written (update m buf 45) (buf + 1) (numeral 10 n))) next)
]

memcpy_loop-written :
    (m : Mem) (d s : ℕ) (cs : List ℕ)
    → IsString m s cs
    → (d ≤ s) ⊎ (s + length cs < d)
    → memcpy_loop m d s (length cs) ≡ written m d cs
unfolding memcpy_loop written
memcpy_loop-written m d s [] h out = refl
memcpy_loop-written m d s (c ∷ cs) (e, ne, h) out =
    let one : 1 + length cs ≡ suc (length cs) = omega arith in
    rw (one, e, memcpy_loop)
      (memcpy_loop-written (update m d c) (d + 1) (s + 1) cs
        (IsString-moved m _ (s + 1) (s + 1) cs (λ i le. ground arith) h) (omega arith))

pub print_string-written :
    (fuel : ℕ) (m : Mem) (buf arg : ℕ) (cs : List ℕ)
    → length cs < fuel
    → length cs < 2 ^ 32
    → buf ≢ 0
    → arg ≢ 0
    → IsString m arg cs
    → (buf + length cs ≤ arg) ⊎ (arg + length cs < buf)
    → print_string fuel m buf arg ≡ ok (buf + length cs, written m buf cs)
unfolding print_string copied
print_string-written fuel m buf arg cs lt small nb na s out =
    let copy = strcpy_lem fuel m buf arg cs lt nb na s (omega arith) in
    let same =
      sym (fun_ext (λ a. memcpy_loop_lem m buf arg (length cs) a (omega arith)))
      ∙ memcpy_loop-written m buf arg cs s (omega arith) in
    let kept =
      IsString-moved m (written m buf cs) arg arg cs
        (λ i le. written-outside m buf cs (arg + i) (omega arith)) s in
    let len = strlen_lem fuel (written m buf cs) arg cs lt na kept in
    let n : length cs % 2 ^ 32 ≡ length cs = omega arith in rw (copy, same, len, n) refl
