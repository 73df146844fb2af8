-- ===== src/Bitmap/Set.antt =====
-- `bitmapInit`, `bitmapTest` and `bitmapSet` of kernel/bitmap.c as an array of bits.
use holo_os.Base.{
  ℕ, ◌+◌, ◌*◌, ◌/◌, ◌%◌, ◌<◌, ◌≤◌, ◌≡◌, ◌≢◌, Bool, true, false, ◌==◌, ◌⊎◌, if◌then◌else◌, arith,
}
use holo_os.Base.Bits.{
  set_bit, clear_bit, test_bit-set_bit, test_bit-clear_bit, set_bit-lt, clear_bit-lt, test_bit_zero,
}
use holo_os.Base.Memory.{Mem, update}
use holo_os.Base.Run.{ok, panic}
use holo_os.CString.Block.{fill, memset_lem}
use holo_os.Bitmap.{Bitmap, bitmap_init, bitmap_test, bitmap_set}

-- Every cell holds a `uint8`.
abbrev pub IsBytes : Mem → Type 0
IsBytes m = (a : ℕ) → m a < 256

-- What an index selects does not depend on which bytes stand elsewhere.
pub bitmap_test_frame :
    (m m' : Mem) (b : Bitmap) (i : ℕ)
    → m' (b.bits + i / 8) ≡ m (b.bits + i / 8)
    → bitmap_test m' b i ≡ bitmap_test m b i
unfolding bitmap_test
bitmap_test_frame m m' b i e = ground arith

-- the memory after a store of the bit at `i`
unfoldable pub put_bit : Mem → Bitmap → ℕ → Bool → Mem
put_bit m b i v =
    let a = b.bits + i / 8 in
    update m a (if v then set_bit (m a) (i % 8) else clear_bit (m a) (i % 8))

pub put_bit-IsBytes :
    (m : Mem) (b : Bitmap) (i : ℕ) (v : Bool) → IsBytes m → IsBytes (put_bit m b i v)
unfolding put_bit
put_bit-IsBytes m b i true h a = ground (arith, h a, set_bit-lt (m (b.bits + i / 8)) (i % 8))
put_bit-IsBytes m b i false h a = ground (arith, h a, clear_bit-lt (m (b.bits + i / 8)) (i % 8))

pub bitmap_test-put_bit :
    (m : Mem) (b : Bitmap) (i : ℕ) (v : Bool) (j : ℕ)
    → IsBytes m
    → bitmap_test (put_bit m b i v) b j ≡ (if i == j then v else bitmap_test m b j)
unfolding put_bit bitmap_test
bitmap_test-put_bit m b i true j h = ground (
  arith,
  h (b.bits + i / 8),
  test_bit-set_bit (m (b.bits + i / 8)) (i % 8) (j % 8) (h (b.bits + i / 8)) (omega arith)
      (omega arith),
)
bitmap_test-put_bit m b i false j h = ground (
  arith,
  h (b.bits + i / 8),
  test_bit-clear_bit (m (b.bits + i / 8)) (i % 8) (j % 8) (h (b.bits + i / 8)) (omega arith)
      (omega arith),
)

-- What a store of the bit at `i` leaves: that bit holds the value and every other bit of the
-- bitmap its own; one byte is written, and every cell is still a byte.
pub record Stored (m : Mem) (b : Bitmap) (i : ℕ) (v : Bool) (m' : Mem) : Type 0 where
  pub bits : (j : ℕ) → bitmap_test m' b j ≡ (if i == j then v else bitmap_test m b j)
  pub others : (a : ℕ) → a ≢ b.bits + i / 8 → m' a ≡ m a
  pub bytes : IsBytes m'

put_bit-Stored :
    (m : Mem) (b : Bitmap) (i : ℕ) (v : Bool) → IsBytes m → Stored m b i v (put_bit m b i v)
unfolding put_bit
put_bit-Stored m b i v h = record {
  bits = λ j. unfold put_bit in bitmap_test-put_bit m b i v j h;
  others = λ a out. ground arith;
  bytes = unfold put_bit in put_bit-IsBytes m b i v h;
}

-- `bitmapSet` with 0 or 1 changes the bit at the index to that value and no other bit of the
-- bitmap, however many bits follow; it writes one byte, which it keeps a byte, and no other
-- address.
pub bitmap_set_lem :
    (m : Mem) (b : Bitmap) (i v : ℕ)
    → IsBytes m
    → v < 2
    → (m' : Mem) × (bitmap_set m b i v ≡ ok m') × Stored m b i (v == 1) m'
unfolding bitmap_set put_bit
bitmap_set_lem m b i v h small =
    (put_bit m b i (v == 1), ground arith, put_bit-Stored m b i (v == 1) h)

-- Any other value is refused by the assertion of `bitmapSet`.
pub bitmap_set-panic : (m : Mem) (b : Bitmap) (i v : ℕ) → 2 ≤ v → bitmap_set m b i v ≡ panic
unfolding bitmap_set
bitmap_set-panic m b i v h = ground arith

-- `bitmapInit` of a bitmap whose bytes are not at NULL clears every bit of it, and leaves every
-- byte outside of it as it was.
pub bitmap_init_lem :
    (m : Mem) (b : Bitmap)
    → b.bits ≢ 0
    → (m' : Mem) × (bitmap_init m b ≡ ok m')
      × ((i : ℕ) → i < b.size * 8 → bitmap_test m' b i ≡ false)
      × ((a : ℕ) → (a < b.bits) ⊎ (b.bits + b.size ≤ a) → m' a ≡ m a)
unfolding bitmap_init fill bitmap_test
bitmap_init_lem m b h = (
  fill m b.bits 0 b.size,
  ground (arith, memset_lem m b.bits 0 b.size),
  λ i lt. ground (arith, test_bit_zero (i % 8) (omega arith)),
  λ a out. ground arith,
)
