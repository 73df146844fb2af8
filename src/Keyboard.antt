-- ===== src/Keyboard.antt =====
-- device/keyboard.c: the handler of the keyboard interrupt. The byte that `inb` reads is an
-- argument, and what the handler passes on is a value: a character for `ioqueuePutchar`, the message
-- of an unknown key, or nothing.
pub mod Keymap
pub mod Letters
pub mod Modifiers
pub mod Table
pub mod Typing
mod Tests
use Prim.Native.Nat.{bit_and, bit_or}
use holo_os.Base.{ℕ, Bool, true, false, not, ◌&&◌, ◌||◌, leb, ◌==◌, if◌then◌else◌, List, [], ◌∷◌}
use Keymap.{keymap, lookup}

pub record Keyboard : Type 0 where
  pub ctrl_status : Bool
  pub shift_status : Bool
  pub alt_status : Bool
  pub capslock_status : Bool
  pub ext_scancode : Bool

pub data Effect : Type 0 where
  nothing : Effect
  put_char : ℕ → Effect
  unknown_key : Effect

abbrev pub shift_l_make : ℕ
shift_l_make = 0x2a

abbrev pub shift_r_make : ℕ
shift_r_make = 0x36

abbrev pub alt_l_make : ℕ
alt_l_make = 0x38

abbrev pub alt_r_make : ℕ
alt_r_make = 0xe038

abbrev pub ctrl_l_make : ℕ
ctrl_l_make = 0x1d

abbrev pub ctrl_r_make : ℕ
ctrl_r_make = 0xe01d

abbrev pub caps_lock_make : ℕ
caps_lock_make = 0x3a

-- The `switch` on the make code of a key that is released.
release : Keyboard → ℕ → Keyboard
release k makecode =
    if makecode == ctrl_l_make || makecode == ctrl_r_make
    then record k { ctrl_status = false }
    else if makecode == shift_l_make || makecode == shift_r_make
    then record k { shift_status = false }
    else if makecode == alt_l_make || makecode == alt_r_make
    then record k { alt_status = false }
    else k

-- The `switch` on a key that is pressed and has no character.
press : Keyboard → ℕ → Keyboard
press k scancode =
    if scancode == ctrl_l_make || scancode == ctrl_r_make
    then record k { ctrl_status = true }
    else if scancode == shift_l_make || scancode == shift_r_make
    then record k { shift_status = true }
    else if scancode == alt_l_make || scancode == alt_r_make
    then record k { alt_status = true }
    else if scancode == caps_lock_make
    then record k { capslock_status = not k.capslock_status }
    else k

-- The column of the keymap.
shifted : Keyboard → ℕ → Bool
shifted k scancode =
    if leb scancode 0x0d
      || scancode == 0x29
      || scancode == 0x1a
      || scancode == 0x1b
      || scancode == 0x2b
      || scancode == 0x27
      || scancode == 0x28
      || scancode == 0x33
      || scancode == 0x34
      || scancode == 0x35
    then k.shift_status
    else if k.shift_status && k.capslock_status
    then false
    else if k.shift_status || k.capslock_status
    then true
    else false

-- The branch for 0x01 to 0x3a.
make : Keyboard → ℕ → Keyboard × Effect
unfolding press shifted lookup
make k scancode =
    let shift = shifted k scancode in
    let idx = bit_and scancode 0x00ff in
    let ch = lookup idx shift in if not (ch == 0) then (k, put_char ch) else (press k idx, nothing)

unfoldable pub intr_keyboard_handler : Keyboard → ℕ → Keyboard × Effect
unfolding release make
intr_keyboard_handler k byte =
    if byte == 0xe0
    then (record k { ext_scancode = true }, nothing)
    else (let scancode = if k.ext_scancode then bit_or byte 0xe000 else byte in
        let k' = record k { ext_scancode = false } in
        if not (bit_and scancode 0x0080 == 0)
        then (release k' (bit_and scancode 0xff7f), nothing)
        else if leb 0x01 scancode && leb scancode 0x3a
        then make k' scancode
        else (k', unknown_key))
