-- ===== src/Base/Bits.antt =====
-- Bytes and their bits: what C computes with `1 << p`, `&`, `|` and `~`, and the laws that the
-- bitmaps rest on, checked on every byte and every pair of positions.
use Prim.Native.Nat.{ℕ, ◌-◌, ◌%◌, ◌^◌, ◌<◌, bit_and, bit_or}
use mathlib.Core.Path.{◌≡◌, refl}
use mathlib.Core.Bool.{Bool, true, false, not}
use native.Mathlib.Omega.{arith}
use holo_os.Base.Tests.{◌==◌, if◌then◌else◌, all_below, all_below_sound}

-- `~x` on a 32-bit word
abbrev pub not_32 : ℕ → ℕ
not_32 x = 2 ^ 32 - 1 - x

-- `(bool) (byte & (1 << pos))`
unfoldable pub test_bit : ℕ → ℕ → Bool
test_bit byte pos = not (bit_and byte (2 ^ pos) == 0)

-- `byte |= (1 << pos)` and `byte &= ~(1 << pos)`, stored in a `uint8`
unfoldable pub set_bit : ℕ → ℕ → ℕ
set_bit byte pos = bit_or byte (2 ^ pos) % 256

unfoldable pub clear_bit : ℕ → ℕ → ℕ
clear_bit byte pos = bit_and byte (not_32 (2 ^ pos)) % 256

abbrev same : Bool → Bool → Bool
same true b = b
same false b = not b

same-eq : (a b : Bool) → same a b ≡ true → a ≡ b
same-eq a b h = ground arith

-- A property of all bytes and all pairs of positions, by evaluation.
abbrev checked : (ℕ → ℕ → ℕ → Bool) → Bool
checked f = all_below 256 (λ b. all_below 8 (λ p. all_below 8 (λ q. f b p q)))

checked_sound :
    (f : ℕ → ℕ → ℕ → Bool) (b p q : ℕ) → checked f ≡ true → b < 256 → p < 8 → q < 8 → f b p q ≡ true
checked_sound f b p q c hb hp hq = all_below_sound 8 (f b p) q row hq
  where
    page : all_below 8 (λ p. all_below 8 (f b p)) ≡ true
    page = all_below_sound 256 (λ b. all_below 8 (λ p. all_below 8 (f b p))) b c hb

    row : all_below 8 (f b p) ≡ true
    row = all_below_sound 8 (λ p. all_below 8 (f b p)) p page hp

set_check : ℕ → ℕ → ℕ → Bool
set_check b p q = same (test_bit (set_bit b p) q) (if p == q then true else test_bit b q)

clear_check : ℕ → ℕ → ℕ → Bool
clear_check b p q = same (test_bit (clear_bit b p) q) (if p == q then false else test_bit b q)

set_table : checked set_check ≡ true
unfolding set_check test_bit set_bit
set_table = refl

clear_table : checked clear_check ≡ true
unfolding clear_check test_bit clear_bit
clear_table = refl

pub test_bit-set_bit :
    (b p q : ℕ)
    → b < 256
    → p < 8
    → q < 8
    → test_bit (set_bit b p) q ≡ (if p == q then true else test_bit b q)
unfolding set_check
test_bit-set_bit b p q hb hp hq = same-eq _ _ (checked_sound set_check b p q set_table hb hp hq)

pub test_bit-clear_bit :
    (b p q : ℕ)
    → b < 256
    → p < 8
    → q < 8
    → test_bit (clear_bit b p) q ≡ (if p == q then false else test_bit b q)
unfolding clear_check
test_bit-clear_bit b p q hb hp hq =
    same-eq _ _ (checked_sound clear_check b p q clear_table hb hp hq)

pub set_bit-lt : (b p : ℕ) → set_bit b p < 256
unfolding set_bit
set_bit-lt b p = omega arith

pub clear_bit-lt : (b p : ℕ) → clear_bit b p < 256
unfolding clear_bit
clear_bit-lt b p = omega arith

full_table : all_below 8 (test_bit 255) ≡ true
unfolding test_bit
full_table = refl

zero_table : all_below 8 (λ p. not (test_bit 0 p)) ≡ true
unfolding test_bit
zero_table = refl

-- Every bit of 0xff is set, and none of 0.
pub test_bit_full : (p : ℕ) → p < 8 → test_bit 255 p ≡ true
test_bit_full p h = all_below_sound 8 (test_bit 255) p full_table h

pub test_bit_zero : (p : ℕ) → p < 8 → test_bit 0 p ≡ false
test_bit_zero p h = ground (arith, all_below_sound 8 (λ p. not (test_bit 0 p)) p zero_table h)
