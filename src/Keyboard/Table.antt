-- ===== src/Keyboard/Table.antt =====
-- Facts about the handler of device/keyboard.c that hold in every state and for every byte, checked
-- by running it on all of them.
use holo_os.Base.{ℕ, ◌<◌, ◌≡◌, Bool, true, false, ◌&&◌, ◌==◌, arith}
use holo_os.Base.{all_below, all_below_sound}
use holo_os.Keyboard.{Keyboard, Effect, nothing, put_char, unknown_key}

all_bool : (Bool → Bool) → Bool
all_bool p = p true && p false

all_bool_sound : (p : Bool → Bool) (b : Bool) → all_bool p ≡ true → p b ≡ true
unfolding all_bool
all_bool_sound p true h = ground arith
all_bool_sound p false h = ground arith

abbrev keyboard : Bool → Bool → Bool → Bool → Bool → Keyboard
keyboard ctrl shift alt capslock ext = record {
  ctrl_status = ctrl;
  shift_status = shift;
  alt_status = alt;
  capslock_status = capslock;
  ext_scancode = ext;
}

-- Every state and every byte, one field after the other.
module _ (f : Keyboard → ℕ → Bool) where
  bytes : Keyboard → Bool
  bytes k = all_below 256 (f k)

  exts : Bool → Bool → Bool → Bool → Bool
  exts c s a l = all_bool (λ e. bytes (keyboard c s a l e))

  locks : Bool → Bool → Bool → Bool
  locks c s a = all_bool (exts c s a)

  alts : Bool → Bool → Bool
  alts c s = all_bool (locks c s)

  shifts : Bool → Bool
  shifts c = all_bool (alts c)

  unfoldable pub check_all : Bool
  unfolding all_bool bytes exts locks alts shifts
  check_all = all_bool shifts

  pub check_all_sound : (k : Keyboard) (b : ℕ) → check_all ≡ true → b < 256 → f k b ≡ true
  check_all_sound k b h lt = all_below_sound 256 (f k) b (unfold bytes in in_bytes) lt
    where
      open k use {ctrl_status, shift_status, alt_status, capslock_status, ext_scancode}

      in_shifts : shifts ctrl_status ≡ true
      in_shifts = all_bool_sound shifts ctrl_status (unfold check_all in h)

      in_alts : alts ctrl_status shift_status ≡ true
      in_alts = all_bool_sound (alts ctrl_status) shift_status (unfold shifts in in_shifts)

      in_locks : locks ctrl_status shift_status alt_status ≡ true
      in_locks = all_bool_sound (locks ctrl_status shift_status) alt_status (unfold alts in in_alts)

      in_exts : exts ctrl_status shift_status alt_status capslock_status ≡ true
      in_exts =
          all_bool_sound (exts ctrl_status shift_status alt_status) capslock_status
            (unfold locks in in_locks)

      in_bytes : bytes k ≡ true
      in_bytes =
          all_bool_sound
            (λ e. bytes (keyboard ctrl_status shift_status alt_status capslock_status e))
            ext_scancode (unfold exts in in_exts)

-- Boolean tests of equality, and what they prove.
abbrev pub same_bool : Bool → Bool → Bool
same_bool true b = b
same_bool false true = false
same_bool false false = true

abbrev pub same_effect : Effect → Effect → Bool
same_effect nothing nothing = true
same_effect (put_char a) (put_char b) = a == b
same_effect unknown_key unknown_key = true
same_effect _ _ = false

abbrev pub same_keyboard : Keyboard → Keyboard → Bool
same_keyboard k k' =
    same_bool k.ctrl_status k'.ctrl_status
    && same_bool k.shift_status k'.shift_status
    && same_bool k.alt_status k'.alt_status
    && same_bool k.capslock_status k'.capslock_status
    && same_bool k.ext_scancode k'.ext_scancode

pub same_effect→≡ : (e e' : Effect) → same_effect e e' ≡ true → e ≡ e'
same_effect→≡ e e' h = ground arith

pub same_bool→≡ : (a b : Bool) → same_bool a b ≡ true → a ≡ b
same_bool→≡ a b h = ground arith

pub same_keyboard→≡ : (k k' : Keyboard) → same_keyboard k k' ≡ true → k ≡ k'
same_keyboard→≡ k k' h = ground arith
