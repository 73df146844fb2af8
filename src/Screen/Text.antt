-- ===== src/Screen/Text.antt =====
-- What `putchar` and `puts` of lib/kernel/print.S show.
use holo_os.Base.{
  ℕ, zero, suc, ◌+◌, ◌-◌, ◌*◌, ◌/◌, ◌%◌, ◌^◌, ◌<◌, ◌≡◌, ◌≢◌, inl, inr, refl, ap, ◌∙◌, Bool-cases,
  false, ◌==◌, List, [], ◌∷◌, length, arith,
}
use holo_os.Base.Memory.{Mem}
use holo_os.Base.Run.{ok}
use holo_os.CString.Text.Strings.{IsString}
use holo_os.Screen.{Screen, show_at, on_screen, scroll_up, line_feed, put_it, putchar, puts}
use holo_os.Screen.Cursor.{InBounds, scroll_up-moved, scroll_up-cursor, putchar_lem}

-- A character that moves the cursor in its own way.
abbrev pub IsPlain : ℕ → Type 0
IsPlain ch = (ch ≢ 0xa) × (ch ≢ 0xd) × (ch ≢ 0x8)

-- `putchar` of a character other than a line feed, a carriage return and a backspace, with the
-- cursor on the screen, leaves the character at the place before the cursor, also when it has
-- scrolled the screen.
pub putchar-shown :
    (s : Screen) (ch : ℕ)
    → s.cursor < 2000
    → IsPlain ch
    → ((putchar s ch).cells (((putchar s ch).cursor - 1) * 2) ≡ ch) × (0 < (putchar s ch).cursor)
unfolding putchar put_it line_feed
putchar-shown s ch lt (n1, n2, n3) =
    let e1 : (ch == 0xa) ≡ false = ground arith in
    let e2 : (ch == 0xd) ≡ false = ground arith in
    let e3 : (ch == 0x8) ≡ false = ground arith in
    let same : s.cursor * 2 % 2 ^ 16 / 2 ≡ s.cursor = omega arith in
    elim (Bool-cases (on_screen (s.cursor + 1))) [
      | inl on ↦
          let one : s.cursor + 1 - 1 ≡ s.cursor = omega arith in
          rw (e1, e2, e3, same, on, one) (ground arith, omega arith)
      | inr off ↦
          let last : s.cursor ≡ 1999 = ground arith in
          let m = show_at s.cells 1999 ch in
          let stop = scroll_up-cursor m in
          rw (e1, e2, e3, same, off, last)
            (
              ap (λ n. (scroll_up m).cells ((n - 1) * 2)) stop
                  ∙ scroll_up-moved m 3838 (omega arith)
                  ∙ ground arith,
              ground (arith, stop),
            )
    ]

abbrev pub put_all : Screen → List ℕ → Screen
put_all s [] = s
put_all s (c ∷ cs) = put_all (putchar s c) cs

abbrev pub NoBackspace : List ℕ → Type 0
NoBackspace [] = Unit {0}
NoBackspace (c ∷ cs) = (c ≢ 0x8) × NoBackspace cs

puts-put_all :
    (fuel : ℕ) (m : Mem) (s : Screen) (str : ℕ) (cs : List ℕ)
    → length cs < fuel
    → IsString m str cs
    → puts fuel m s str ≡ ok (put_all s cs)
unfolding puts
puts-put_all zero m s str cs lt h = absurd (omega arith)
puts-put_all (suc fuel) m s str [] lt h = rw h refl
puts-put_all (suc fuel) m s str (c ∷ cs) lt (e, ne, h) =
    let more : (c == 0) ≡ false = ground arith in
    rw (e, more) (puts-put_all fuel m (putchar s c) (str + 1) cs (omega arith) h)

put_all-InBounds :
    (s : Screen) (cs : List ℕ) → s.cursor < 2000 → NoBackspace cs → InBounds s.cells (put_all s cs)
put_all-InBounds s [] lt h = record { cursor = lt; others = λ a le. refl }
put_all-InBounds s (c ∷ cs) lt (ne, h) =
    let v = putchar_lem s c lt (inl ne) in
    let v' = put_all-InBounds (putchar s c) cs v.cursor h in
    record { cursor = v'.cursor; others = λ a le. v'.others a le ∙ v.others a le }

-- `puts` of a string without a backspace, with more rounds than it has characters and the cursor on
-- the screen, ends: it is `putchar` of each character in its order. The cursor stays on the screen,
-- and no byte behind the screen changes.
pub puts_lem :
    (fuel : ℕ) (m : Mem) (s : Screen) (str : ℕ) (cs : List ℕ)
    → length cs < fuel
    → IsString m str cs
    → s.cursor < 2000
    → NoBackspace cs
    → (puts fuel m s str ≡ ok (put_all s cs)) × InBounds s.cells (put_all s cs)
puts_lem fuel m s str cs lt h on nb =
    (puts-put_all fuel m s str cs lt h, put_all-InBounds s cs on nb)
