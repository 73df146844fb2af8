-- ===== src/Screen/Cursor.antt =====
-- Where `putchar` of lib/kernel/print.S leaves the cursor and what it stores.
use holo_os.Base.{
  ℕ, zero, suc, ◌+◌, ◌-◌, ◌*◌, ◌/◌, ◌%◌, ◌^◌, ◌<◌, ◌≤◌, ◌≡◌, ◌≢◌, ◌⊎◌, inl, inr, refl, ◌∙◌,
  Bool-cases, ◌==◌, arith,
}
use holo_os.Base.Memory.{Mem, update}
use holo_os.CString.{memcpy_loop}
use holo_os.CString.Block.{memcpy_loop_lem}
use holo_os.Screen.{
  Screen, show_at, on_screen, clear_line, scroll_up, line_feed, backspace, put_it, putchar,
}

-- The cursor is on the screen, and the bytes behind the screen are those of `m`.
pub record InBounds (m : Mem) (s : Screen) : Type 0 where
  pub cursor : s.cursor < 2000
  pub others : (a : ℕ) → 4000 ≤ a → s.cells a ≡ m a

clear_line-others :
    (rounds : ℕ) (m : Mem) (eax a : ℕ) → eax + 2 * rounds ≤ a → clear_line rounds m eax a ≡ m a
unfolding clear_line
clear_line-others zero m eax a le = refl
clear_line-others (suc rounds) m eax a le =
    clear_line-others rounds (update m eax 0) (eax + 2) a (omega arith) ∙ ground arith

clear_line-below : (rounds : ℕ) (m : Mem) (eax a : ℕ) → a < eax → clear_line rounds m eax a ≡ m a
unfolding clear_line
clear_line-below zero m eax a lt = refl
clear_line-below (suc rounds) m eax a lt =
    clear_line-below rounds (update m eax 0) (eax + 2) a (omega arith) ∙ ground arith

pub scroll_up-moved : (m : Mem) (a : ℕ) → a < 3840 → (scroll_up m).cells a ≡ m (a + 160)
unfolding scroll_up
scroll_up-moved m a lt =
    let back : 160 + (a - 0) ≡ a + 160 = omega arith in
    clear_line-below 80 (memcpy_loop m 0 160 3840) 3840 a lt
    ∙ memcpy_loop_lem m 0 160 3840 a (inl (omega arith))
    ∙ ground (arith, back)

pub scroll_up-cursor : (m : Mem) → (scroll_up m).cursor ≡ 1920
unfolding scroll_up
scroll_up-cursor m = refl

scroll_up-InBounds : (m : Mem) → InBounds m (scroll_up m)
unfolding scroll_up
scroll_up-InBounds m = record {
  cursor = omega arith;
  others = λ a le.
      clear_line-others 80 (memcpy_loop m 0 160 3840) 3840 a (omega arith)
      ∙ memcpy_loop_lem m 0 160 3840 a (inl (omega arith))
      ∙ ground arith;
}

line_feed-InBounds : (m : Mem) (bx : ℕ) → bx ≤ 2000 → InBounds m (line_feed m bx)
unfolding line_feed
line_feed-InBounds m bx le = elim (Bool-cases (on_screen ((bx - bx % 80 + 80) % 2 ^ 16))) [
  | inl yes_on ↦ rw yes_on (record { cursor = ground arith; others = λ a le'. refl })
  | inr off ↦ rw off (scroll_up-InBounds m)
]

show_at-others : (m : Mem) (bx ch a : ℕ) → bx < 2000 → 4000 ≤ a → show_at m bx ch a ≡ m a
show_at-others m bx ch a lt le = ground arith

put_it-InBounds : (s : Screen) (ch : ℕ) → s.cursor < 2000 → InBounds s.cells (put_it s ch)
unfolding put_it
put_it-InBounds s ch lt = elim (Bool-cases (on_screen (s.cursor * 2 % 2 ^ 16 / 2 + 1))) [
  | inl on ↦ rw on (record {
    cursor = ground arith;
    others = λ a le. show_at-others s.cells s.cursor ch a lt le;
  })
  | inr off ↦
      let v =
        line_feed-InBounds (show_at s.cells s.cursor ch) (s.cursor * 2 % 2 ^ 16 / 2 + 1)
          (omega arith) in
      rw off (record {
        cursor = v.cursor;
        others = λ a le. v.others a le ∙ show_at-others s.cells s.cursor ch a lt le;
      })
]

backspace-InBounds : (s : Screen) → s.cursor < 2000 → 0 < s.cursor → InBounds s.cells (backspace s)
unfolding backspace
backspace-InBounds s lt pos = record {
  cursor = omega arith;
  others = λ a le. show_at-others s.cells ((s.cursor + 2 ^ 16 - 1) % 2 ^ 16) 0 a (omega arith) le;
}

-- `putchar` with the cursor on the screen leaves it there and stores only to the screen, whatever
-- the character is, except for a backspace at the screen's first place.
pub putchar_lem :
    (s : Screen) (ch : ℕ)
    → s.cursor < 2000
    → (ch ≢ 0x8) ⊎ (0 < s.cursor)
    → InBounds s.cells (putchar s ch)
unfolding putchar
putchar_lem s ch lt safe =
    let feed = line_feed-InBounds s.cells s.cursor (omega arith) in
    elim (Bool-cases (ch == 0xa)) [
      | inl e ↦ rw e feed
      | inr n ↦ elim (Bool-cases (ch == 0xd)) [
        | inl e ↦ rw (n, e) feed
        | inr n' ↦ elim (Bool-cases (ch == 0x8)) [
          | inl e ↦
              rw (n, n', e)
                (backspace-InBounds s lt
                  (elim safe [ inl ne ↦ absurd (ground arith) | inr pos ↦ pos ]))
          | inr n'' ↦ rw (n, n', n'') (put_it-InBounds s ch lt)
        ]
      ]
    ]

-- A backspace at the first place leaves the cursor behind the screen.
backspace-first : (s : Screen) → s.cursor ≡ 0 → (putchar s 0x8).cursor ≡ 32767
unfolding putchar backspace
backspace-first s e = rw e refl
