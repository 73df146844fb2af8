-- ===== src/Timer.antt =====
-- device/timer.c: how the counter behind the timer interrupt is set. The bytes are written with their
-- ports; the interrupt's handler is in Thread.
use Prim.Native.Nat.{bit_or}
use holo_os.Base.{ℕ, ◌+◌, ◌*◌, ◌/◌, ◌%◌, ◌^◌, ◌<◌, ◌≡◌, List, [], ◌∷◌, arith}
use holo_os.Interrupt.{Handlers, register_handler}

abbrev counter0_value : ℕ
counter0_value = 1193180 / 100

unfoldable pub frequency_set : ℕ → ℕ → ℕ → ℕ → ℕ → List (ℕ × ℕ)
frequency_set counter_port counter_no rwl counter_mode counter_val =
    (0x43, bit_or (bit_or (counter_no * 2 ^ 6) (rwl * 2 ^ 4)) (counter_mode * 2 ^ 1) % 2 ^ 8)
    ∷ (counter_port, counter_val % 2 ^ 8)
    ∷ (counter_port, counter_val / 2 ^ 8 % 2 ^ 8)
    ∷ []

unfoldable pub timer_init : ℕ → Handlers → List (ℕ × ℕ) × Handlers
timer_init intr_timer_handler h =
    (frequency_set 0x40 0 3 2 counter0_value, register_handler 0x20 intr_timer_handler h)

-- The count that the two bytes behind the mode make, the low one first.
abbrev count_of : List (ℕ × ℕ) → ℕ
count_of (mode ∷ low ∷ high ∷ []) = high.1 * 2 ^ 8 + low.1
count_of _ = 0

-- A 16-bit count is the one that the counter gets.
pub frequency_set_lem :
    (port number rwl mode count : ℕ)
    → count < 2 ^ 16
    → count_of (frequency_set port number rwl mode count) ≡ count
unfolding frequency_set
frequency_set_lem port number rwl mode count lt = omega arith
