-- ===== src/CString/Text.antt =====
-- lib/string.c: the routines on strings that end in a zero byte. A `char` is a signed byte, as the
-- compiler has it on x86. Each loop takes fuel, one round for each byte and one for the zero.
pub mod Strings
pub mod Search
pub mod Copy
mod Tests
use holo_os.Base.{
  ℕ, zero, suc, ◌+◌, ◌-◌, ◌%◌, ◌^◌, Bool, true, false, not, ◌&&◌, ◌||◌, leb, ltb, ◌==◌,
  if◌then◌else◌,
}
use holo_os.Base.Memory.{Mem, update}
use holo_os.Base.Run.{Run, ok, out_of_fuel, assert, ◌>>=◌, ◌>>◌}
use holo_os.CString.{Order, greater, less, equal}

abbrev pub null : ℕ
null = 0

-- `a > b` on two values of type `char`, by their bytes: 128 to 255 are the negative ones.
unfoldable pub char_gt : ℕ → ℕ → Bool
char_gt a b = if ltb a 128 then ltb b a || leb 128 b else leb 128 b && ltb b a

-- `*str == ch` for a `char` and a `uint8`, which are compared as `int`s
unfoldable pub char_eq : ℕ → ℕ → Bool
char_eq c ch = ltb c 128 && c == ch

-- `for (; *str; ++str) {}`
pub end_loop : ℕ → Mem → ℕ → Run ℕ
end_loop zero m str = out_of_fuel
end_loop (suc fuel) m str =
    let rest = end_loop fuel m (str + 1) in if m str == 0 then ok str else rest

-- `for (; *src; ++src, ++dst) { *dst = *src; }`, with the last `dst`
pub copy_loop : ℕ → Mem → ℕ → ℕ → Run (ℕ × Mem)
copy_loop zero m dst src = out_of_fuel
copy_loop (suc fuel) m dst src =
    let rest = copy_loop fuel (update m dst (m src)) (dst + 1) (src + 1) in
    if m src == 0 then ok (dst, m) else rest

pub strcpy : ℕ → Mem → ℕ → ℕ → Run (ℕ × Mem)
unfolding copy_loop
strcpy fuel m dst src = do
  assert (not (dst == null) && not (src == null))
  (stop, m') ← copy_loop fuel m dst src
  ok (dst, m')

pub strlen : ℕ → Mem → ℕ → Run ℕ
unfolding end_loop
strlen fuel m str = do
  assert (not (str == null))
  stop ← end_loop fuel m str
  ok ((stop - str) % 2 ^ 32)

compare_loop : ℕ → Mem → ℕ → ℕ → Run (ℕ × ℕ)
compare_loop zero m str1 str2 = out_of_fuel
compare_loop (suc fuel) m str1 str2 =
    let rest = compare_loop fuel m (str1 + 1) (str2 + 1) in
    if not (m str1 == 0) && m str1 == m str2 then rest else ok (str1, str2)

pub strcmp : ℕ → Mem → ℕ → ℕ → Run Order
unfolding compare_loop
strcmp fuel m str1 str2 = do
  assert (not (str1 == null) && not (str2 == null))
  (p, q) ← compare_loop fuel m str1 str2
  ok (if m p == 0 && m q == 0 then equal else if char_gt (m p) (m q) then greater else less)

find_loop : ℕ → Mem → ℕ → ℕ → Run ℕ
find_loop zero m str ch = out_of_fuel
find_loop (suc fuel) m str ch =
    let rest = find_loop fuel m (str + 1) ch in
    if m str == 0 then ok null else if char_eq (m str) ch then ok str else rest

pub strchr : ℕ → Mem → ℕ → ℕ → Run ℕ
unfolding find_loop
strchr fuel m str ch = do assert (not (str == null)); find_loop fuel m str ch

find_last_loop : ℕ → Mem → ℕ → ℕ → ℕ → Run ℕ
find_last_loop zero m str ch last_char = out_of_fuel
find_last_loop (suc fuel) m str ch last_char =
    let rest = find_last_loop fuel m (str + 1) ch (if char_eq (m str) ch then str else last_char) in
    if m str == 0 then ok last_char else rest

pub strrchr : ℕ → Mem → ℕ → ℕ → Run ℕ
unfolding find_last_loop
strrchr fuel m str ch = do assert (not (str == null)); find_last_loop fuel m str ch null

pub strcat : ℕ → Mem → ℕ → ℕ → Run (ℕ × Mem)
unfolding end_loop copy_loop
strcat fuel m dst src = do
  assert (not (dst == null) && not (src == null))
  stop ← end_loop fuel m dst
  (stop', m') ← copy_loop fuel m stop src
  ok (dst, update m' stop' 0)

count_loop : ℕ → Mem → ℕ → ℕ → ℕ → Run ℕ
count_loop zero m str ch cnt = out_of_fuel
count_loop (suc fuel) m str ch cnt =
    let rest =
      count_loop fuel m (str + 1) ch ((cnt + (if char_eq (m str) ch then 1 else 0)) % 2 ^ 32) in
    if m str == 0 then ok cnt else rest

pub strchrs : ℕ → Mem → ℕ → ℕ → Run ℕ
unfolding count_loop
strchrs fuel m str ch = do assert (not (str == null)); count_loop fuel m str ch 0
