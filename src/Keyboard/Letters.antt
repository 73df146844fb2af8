-- ===== src/Keyboard/Letters.antt =====
-- Which characters the handler of device/keyboard.c passes on.
use Prim.Native.Char.{code}
use Prim.Native.String.{String}
use holo_os.Base.{
  ℕ, zero, suc, ◌-◌, ◌<◌, ◌≡◌, ◌≢◌, refl, Bool, true, false, not, ◌&&◌, ◌||◌, ◌==◌, leb,
  if◌then◌else◌, List, [], ◌∷◌, arith,
}
use holo_os.Keyboard.{Keyboard, put_char, intr_keyboard_handler}
use holo_os.Keyboard.Table.{
  check_all, check_all_sound, same_effect, same_effect→≡, same_bool, same_keyboard, same_keyboard→≡,
}

abbrev codes : String → List ℕ
codes String.[] = []
codes (String.◌∷◌ c s) = code c ∷ codes s

abbrev code_at : List ℕ → ℕ → ℕ
code_at [] i = 0
code_at (x ∷ xs) zero = x
code_at (x ∷ xs) (suc i) = code_at xs i

-- The letter on a key of a PC keyboard by its make code, row by row; 0 for any other key.
unfoldable pub letter : ℕ → ℕ
letter b =
    if leb 0x10 b && leb b 0x19
    then code_at (codes "qwertyuiop") (b - 0x10)
    else if leb 0x1e b && leb b 0x26
    then code_at (codes "asdfghjkl") (b - 0x1e)
    else if leb 0x2c b && leb b 0x32
    then code_at (codes "zxcvbnm") (b - 0x2c)
    else 0

-- A letter in upper case if exactly one of shift and caps lock is on.
abbrev pub cased : Keyboard → ℕ → ℕ
cased k c = if same_bool k.shift_status k.capslock_status then c else c - 32

letters_check : Keyboard → ℕ → Bool
letters_check k b =
    let (k', e) = intr_keyboard_handler k b in
    k.ext_scancode
    || letter b == 0
    || (same_effect e (put_char (cased k (letter b))) && same_keyboard k' k)

letters_table : check_all letters_check ≡ true
unfolding check_all letters_check intr_keyboard_handler letter
letters_table = refl

-- Pressed with no prefix pending, a letter key passes on its letter, in upper case exactly if one
-- of shift and caps lock is on and the other is off, and leaves the state as it was.
pub letters_lem :
    (k : Keyboard) (b : ℕ)
    → b < 256
    → k.ext_scancode ≡ false
    → letter b ≢ 0
    → intr_keyboard_handler k b ≡ (k, put_char (cased k (letter b)))
unfolding letters_check
letters_lem k b lt ext ne =
    let (k', e) = intr_keyboard_handler k b in
    let found = check_all_sound letters_check k b letters_table lt in
    let effect : same_effect e (put_char (cased k (letter b))) ≡ true = ground (arith, found) in
    let state : same_keyboard k' k ≡ true = ground (arith, found) in
    λ i. (same_keyboard→≡ k' k state i, same_effect→≡ e (put_char (cased k (letter b))) effect i)

-- The same state but for caps lock.
abbrev pub without_caps : Keyboard → Keyboard
without_caps k = record k { capslock_status = false }

symbols_check : Keyboard → ℕ → Bool
symbols_check k b =
    not (letter b == 0)
    || same_effect (intr_keyboard_handler k b).1 (intr_keyboard_handler (without_caps k) b).1

symbols_table : check_all symbols_check ≡ true
unfolding check_all symbols_check intr_keyboard_handler letter
symbols_table = refl

-- Caps lock changes what a key passes on for the letters only.
pub symbols_lem :
    (k : Keyboard) (b : ℕ)
    → b < 256
    → letter b ≡ 0
    → (intr_keyboard_handler k b).1 ≡ (intr_keyboard_handler (without_caps k) b).1
unfolding symbols_check
symbols_lem k b lt none =
    same_effect→≡ (intr_keyboard_handler k b).1 (intr_keyboard_handler (without_caps k) b).1
      (ground (arith, check_all_sound symbols_check k b symbols_table lt))
