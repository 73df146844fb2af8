-- ===== src/Stdio.antt =====
-- lib/stdio.c: `itoa` and `vsprintf` over a memory of bytes. The variable arguments are the words of
-- the stack, one behind the other; a number is written with a wrap-around where C has one.
pub mod Digits
pub mod Format
pub mod Hex
pub mod Render
mod Tests
use holo_os.Base.{
  ℕ, zero, suc, ◌+◌, ◌-◌, ◌*◌, ◌/◌, ◌%◌, ◌^◌, Bool, true, false, not, ltb, leb, ◌==◌, if◌then◌else◌,
}
use holo_os.Base.Memory.{Mem, update}
use holo_os.Base.Run.{Run, ok, out_of_fuel, ◌>>=◌}
use holo_os.CString.Block.{fill}
use holo_os.CString.Text.{strcpy, strlen}

-- The character that `itoa` writes for a digit.
abbrev pub digit_char : ℕ → ℕ
digit_char digit = (if ltb digit 10 then digit + 48 else digit - 10 + 65) % 2 ^ 8

-- The buffer's next free byte, and the memory; the fuel is the depth of the recursion.
pub itoa : ℕ → Mem → ℕ → ℕ → ℕ → Run (ℕ × Mem)
itoa zero m v buf base = out_of_fuel
itoa (suc fuel) m v buf base =
    let digit = v % base in
    let rest = itoa fuel m (v / base) buf base in
    do
      (buf', m') ← (if v / base == 0 then ok (buf, m) else rest)
      ok (buf' + 1, update m' buf' (digit_char digit))

-- The argument of `%d`: the sign and the magnitude of a 32-bit number.
unfoldable pub magnitude : ℕ → Bool × ℕ
magnitude arg = if ltb arg (2 ^ 31) then (false, arg) else (true, (2 ^ 32 - arg) % 2 ^ 32)

-- `case 'd'`
pub print_int : Mem → ℕ → ℕ → Run (ℕ × Mem)
unfolding magnitude
print_int m buf arg =
    let (negative, n) = magnitude arg in
    if negative then itoa 32 (update m buf 45) n (buf + 1) 10 else itoa 32 m n buf 10

-- `case 's'`
pub print_string : ℕ → Mem → ℕ → ℕ → Run (ℕ × Mem)
print_string fuel m buf arg = do
  (dst, m') ← strcpy fuel m buf arg
  len ← strlen fuel m' arg
  ok (buf + len, m')

-- The loop of `vsprintf`, from `format`, `buf` and the next argument on, one character or
-- conversion a round. A character behind `%` that names no conversion is left for the next round.
pub format_loop : ℕ → Mem → ℕ → ℕ → (ℕ → ℕ) → ℕ → Run (ℕ × Mem)
format_loop zero m buf format args k = out_of_fuel
format_loop (suc fuel) m buf format args k =
    let ch = m (format + 1) in
    let plain = format_loop fuel (update m buf (m format)) (buf + 1) (format + 1) args k in
    let hex = (do
      (b, m') ← itoa 32 m (args k) buf 16
      format_loop fuel m' b (format + 2) args (k + 1)) in
    let int = (do
      (b, m') ← print_int m buf (args k)
      format_loop fuel m' b (format + 2) args (k + 1)) in
    let char =
      format_loop fuel (update m buf (args k % 2 ^ 8)) (buf + 1) (format + 2) args (k + 1) in
    let string = (do
      (b, m') ← print_string (suc fuel) m buf (args k)
      format_loop fuel m' b (format + 2) args (k + 1)) in
    let unknown = format_loop fuel m buf (format + 1) args k in
    if m format == 0
    then ok (buf, m)
    else if not (m format == 37)
    then plain
    else if ch == 120
    then hex
    else if ch == 100
    then int
    else if ch == 99
    then char
    else if ch == 115
    then string
    else unknown

pub vsprintf : ℕ → Mem → ℕ → ℕ → (ℕ → ℕ) → Run (ℕ × Mem)
unfolding format_loop
vsprintf fuel m str format args = do
  (buf, m') ← format_loop fuel m str format args 0
  ok ((buf - str) % 2 ^ 32, update m' buf 0)

-- `va_start` and `va_arg`: the `k`-th argument behind the parameter at `ap`, a word of the stack.
abbrev pub va_arg : (ℕ → ℕ) → ℕ → ℕ → ℕ
va_arg stack ap k = stack (ap + 4 * (k + 1))

-- `format` stands on the stack at `ap`, and the arguments behind it.
unfoldable pub sprintf : ℕ → Mem → (ℕ → ℕ) → ℕ → ℕ → Run (ℕ × Mem)
sprintf fuel m stack ap buf = vsprintf fuel m buf (stack ap) (va_arg stack ap)

-- `buf` is the address that the array of 1024 bytes has on the stack, and `write` the system call.
unfoldable pub printf {ℓ} : {A : Type ℓ} → (Mem → ℕ → Run A) → ℕ → Mem → (ℕ → ℕ) → ℕ → ℕ → Run A
printf write fuel m stack ap buf = do
  (len, m') ← vsprintf fuel (fill m buf 1024 0) buf (stack ap) (va_arg stack ap)
  write m' buf
