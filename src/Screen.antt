-- ===== src/Screen.antt =====
-- lib/kernel/print.S: `putchar` and `puts` on the screen of 25 lines of 80 characters. `cells` are the
-- bytes of the video memory by their 16-bit offset, a character and its attribute for every place;
-- `cursor` is the position that the graphic processor keeps. Assembly is modelled by what it leaves.
pub mod Cursor
pub mod Text
mod Tests
use holo_os.Base.{
  ℕ, zero, suc, ◌+◌, ◌-◌, ◌*◌, ◌/◌, ◌%◌, ◌^◌, Bool, ◌||◌, ltb, leb, ◌==◌, if◌then◌else◌, List, [],
  ◌∷◌,
}
use holo_os.Base.Memory.{Mem, update}
use holo_os.Base.Run.{Run, ok, out_of_fuel}
use holo_os.CString.{memcpy_loop}

pub record Screen : Type 0 where
  pub cells : Mem
  pub cursor : ℕ

abbrev pub char_attr_default : ℕ
char_attr_default = 0x0f

-- The store of a character with its attribute, `bx` being doubled as 16 bits.
abbrev pub show_at : Mem → ℕ → ℕ → Mem
show_at m bx ch = update (update m (bx * 2 % 2 ^ 16) ch) (bx * 2 % 2 ^ 16 + 1) char_attr_default

-- `cmp bx, 2000` and `jl`, a signed comparison.
abbrev pub on_screen : ℕ → Bool
on_screen bx = ltb bx 2000 || leb (2 ^ 15) bx

-- `.clearBottomLine`, by the rounds left.
pub clear_line : ℕ → Mem → ℕ → Mem
clear_line zero m eax = m
clear_line (suc rounds) m eax = clear_line rounds (update m eax 0) (eax + 2)

-- `.scrollUp`
pub scroll_up : Mem → Screen
scroll_up m = record { cells = clear_line 80 (memcpy_loop m 0 160 3840) 3840; cursor = 1920 }

-- `.isLineFeed`
pub line_feed : Mem → ℕ → Screen
line_feed m bx =
    let below = (bx - bx % 80 + 80) % 2 ^ 16 in
    if on_screen below then record { cells = m; cursor = below } else scroll_up m

-- `.isBackspace`
pub backspace : Screen → Screen
backspace s =
    let bx = (s.cursor + 2 ^ 16 - 1) % 2 ^ 16 in
    record { cells = show_at s.cells bx 0; cursor = bx * 2 % 2 ^ 16 / 2 }

-- `.putIt`
pub put_it : Screen → ℕ → Screen
put_it s ch =
    let cells = show_at s.cells s.cursor ch in
    let bx = s.cursor * 2 % 2 ^ 16 / 2 + 1 in
    if on_screen bx then record { cells = cells; cursor = bx } else line_feed cells bx

pub putchar : Screen → ℕ → Screen
putchar s ch =
    if ch == 0xa
    then line_feed s.cells s.cursor
    else if ch == 0xd
    then line_feed s.cells s.cursor
    else if ch == 0x8
    then backspace s
    else put_it s ch

-- `puts`: the loop over the characters up to the zero.
pub puts : ℕ → Mem → Screen → ℕ → Run Screen
puts zero m s str = out_of_fuel
puts (suc fuel) m s str =
    let rest = puts fuel m (putchar s (m str)) (str + 1) in if m str == 0 then ok s else rest
