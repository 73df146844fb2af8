-- ===== src/Memory/Alloc/Range.antt =====
-- The loops of kernel/memory.c that store one value in a range of bits.
use holo_os.Base.{
  ℕ, zero, suc, ◌+◌, ◌/◌, ◌<◌, ◌≤◌, ◌≡◌, refl, ◌∙◌, ◌⊎◌, Bool, ◌&&◌, leb, ltb, ◌==◌, if◌then◌else◌,
  arith,
}
use holo_os.Base.Memory.{Mem}
use holo_os.Base.Run.{ok}
use holo_os.Bitmap.{Bitmap, bitmap_test}
use holo_os.Bitmap.Set.{IsBytes, bitmap_set_lem}
use holo_os.Memory.Alloc.{set_bits}

-- One of the `n` bits from `s` on.
abbrev pub in_range : ℕ → ℕ → ℕ → Bool
in_range s n j = leb s j && ltb j (s + n)

-- What the loop leaves: the bits of the range hold the value and every other bit of the bitmap its
-- own; no byte outside of the bytes of the range is written.
pub record StoredRange (m : Mem) (b : Bitmap) (s n : ℕ) (v : Bool) (m' : Mem) : Type 0 where
  pub bits : (j : ℕ) → bitmap_test m' b j ≡ (if in_range s n j then v else bitmap_test m b j)
  pub others : (a : ℕ) → (a < b.bits) ⊎ (b.bits + (s + n + 7) / 8 ≤ a) → m' a ≡ m a
  pub bytes : IsBytes m'

pub set_bits_lem :
    (m : Mem) (b : Bitmap) (s n v : ℕ)
    → IsBytes m
    → v < 2
    → (m' : Mem) × (set_bits m b s n v ≡ ok m') × StoredRange m b s n (v == 1) m'
unfolding set_bits
set_bits_lem m b s zero v h small =
    (m, refl, record { bits = λ j. ground arith; others = λ a out. refl; bytes = h })
set_bits_lem m b s (suc n) v h small =
    let (m1, run1, st1) = bitmap_set_lem m b s v h small in
    let (m2, run2, st2) = set_bits_lem m1 b (s + 1) n v st1.bytes small in
    (
      m2,
      rw run1 run2,
      record {
        bits = λ j. ground (arith, st1.bits j, st2.bits j);
        others = λ a out. st2.others a (omega arith) ∙ st1.others a (omega arith);
        bytes = st2.bytes;
      },
    )
