-- ===== src/Keyboard/Tests.antt =====
-- The handler of device/keyboard.c on some keys, and the theorems there.
use holo_os.Base.{ℕ, ◌≡◌, ◌⊎◌, refl, true, false, List, [], ◌∷◌, ◌++◌, length, arith}
use holo_os.Ioqueue.{Ioqueue}
use holo_os.Ioqueue.Ring.{IsQueue}
use holo_os.Ioqueue.Waiting.Wakeups.{fresh}
use holo_os.Screen.{Screen}
use holo_os.Keyboard.Typing.{keyboard_interrupts, typed, chars, typing_lem}
use holo_os.Keyboard.{Keyboard, intr_keyboard_handler}
use holo_os.Keyboard.Modifiers.{type_bytes, tracked, track, type_bytes-tracked}

abbrev idle : Keyboard
idle = record {
  ctrl_status = false;
  shift_status = false;
  alt_status = false;
  capslock_status = false;
  ext_scancode = false;
}

abbrev caps : Keyboard
caps = record idle { capslock_status = true }

-- Shift pressed, h, shift released, i, left Ctrl pressed.
abbrev keys : List ℕ
keys = 0x2a ∷ 0x23 ∷ 0xa3 ∷ 0xaa ∷ 0x17 ∷ 0x1d ∷ []

type_hi : type_bytes idle keys ≡ (record idle { ctrl_status = true }, b'H' ∷ b'i' ∷ [])
unfolding type_bytes intr_keyboard_handler
type_hi = refl

type_bytes-tracked_example : (type_bytes idle keys).0 ≡ record idle { ctrl_status = true }
unfolding tracked track
type_bytes-tracked_example = type_bytes-tracked idle keys (omega arith)

-- The keyboard's interrupts meet thread 7 and thread 8.
abbrev ring : Ioqueue
ring = record { buf = λ a. 0; head = 5; tail = 9 }

abbrev shown : Screen
shown = record { cells = λ a. 32; cursor = 0 }

abbrev hits : List (ℕ × ℕ)
hits = (7, 0x23) ∷ (8, 0xa3) ∷ (8, 0x17) ∷ []

typing_lem_example :
    (kept : List (ℕ × ℕ)) × (asleep : List (ℕ × ℕ)) × (typed idle hits ≡ kept ++ asleep)
    × IsQueue
        (keyboard_interrupts
          (record { keyboard = idle; history = fresh ring; screen = shown })
          hits).history.queue.ring
        (chars kept)
    × ((keyboard_interrupts
          (record { keyboard = idle; history = fresh ring; screen = shown })
          hits).history.queue.not_full
        ≡ asleep)
    × ((asleep ≡ []) ⊎ (length kept ≡ 63))
typing_lem_example = typing_lem idle ring shown hits

typed_hi : typed idle hits ≡ (7, b'h') ∷ (8, b'i') ∷ []
unfolding typed intr_keyboard_handler
typed_hi = refl
