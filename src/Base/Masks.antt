-- ===== src/Base/Masks.antt =====
-- `&` and `|` of whole words at the masks that the kernel uses, as arithmetic. The native operations
-- go digit by digit; one law of a digit serves both.
use Prim.Native.Nat.{
  ℕ, zero, suc, ◌+◌, ◌-◌, ◌*◌, ◌/◌, ◌%◌, ◌^◌, ◌≤◌, ◌<◌, min, max, bit_and, bit_or, digits,
  bit_and-bitwise, bit_or-bitwise,
}
use native.Mathlib.Nat.{pow-suc, div-div-eq-div-mul, one-le-pow, div-add-mod}
use native.Mathlib.Omega.{arith}
use mathlib.Core.Path.{◌≡◌, refl, ap, ◌∙◌}

-- `k` more rounds than `n`.
rounds : ℕ → ℕ → ℕ
rounds zero n = n
rounds (suc k) n = suc (rounds k n)

rounds_sum : (k n : ℕ) → rounds k n ≡ k + n
unfolding rounds
rounds_sum zero n = omega arith
rounds_sum (suc k) n = omega (arith, rounds_sum k n)

module _ (z : ℕ → ℕ) (f : ℕ → ℕ → ℕ) (blank : (b : ℕ) → z b ≡ z (b / 2) * 2 + f 0 (b % 2)) where
  -- The digits of `a` end after `a` rounds, and so one round more finds nothing.
  one_more : (n a b : ℕ) → a ≤ n → digits z f (suc n) a b ≡ digits z f n a b
  one_more zero zero b h = refl
  one_more zero (suc a) b h = elim h [ ]
  one_more (suc n) zero b h = refl
  one_more (suc n) (suc a) b h =
      let tail = one_more n (suc a / 2) (b / 2) (omega arith) in
      λ i. tail i * 2 + f (suc a % 2) (b % 2)

  more : (k a b : ℕ) → digits z f (rounds k a) a b ≡ digits z f a a b
  unfolding rounds
  more zero a b = refl
  more (suc k) a b = one_more (rounds k a) a b (omega (arith, rounds_sum k a)) ∙ more k a b

  enough : (n a b : ℕ) → a ≤ n → digits z f n a b ≡ digits z f a a b
  enough n a b h =
      let all : rounds (n - a) a ≡ n = omega (arith, rounds_sum (n - a) a) in
      rw all at (more (n - a) a b)

  digits_step :
      (a b : ℕ) → digits z f a a b ≡ digits z f (a / 2) (a / 2) (b / 2) * 2 + f (a % 2) (b % 2)
  digits_step zero b = blank b
  digits_step (suc n) b =
      let tail = enough n (suc n / 2) (b / 2) (omega arith) in
      λ i. tail i * 2 + f (suc n % 2) (b % 2)

and_step : (a b : ℕ) → bit_and a b ≡ bit_and (a / 2) (b / 2) * 2 + min (a % 2) (b % 2)
and_step a b = omega (
  arith,
  bit_and-bitwise a b,
  bit_and-bitwise (a / 2) (b / 2),
  digits_step (λ b. 0) min (λ b. omega arith) a b,
)

or_step : (a b : ℕ) → bit_or a b ≡ bit_or (a / 2) (b / 2) * 2 + max (a % 2) (b % 2)
or_step a b = omega (
  arith,
  bit_or-bitwise a b,
  bit_or-bitwise (a / 2) (b / 2),
  digits_step (λ b. b) max (λ b. omega arith) a b,
)

and-zero_fuel : (n a : ℕ) → a ≤ n → bit_and a 0 ≡ 0
and-zero_fuel n zero h = refl
and-zero_fuel zero (suc a) h = absurd (omega arith)
and-zero_fuel (suc n) (suc a) h =
    omega (arith, and_step (suc a) 0, and-zero_fuel n (suc a / 2) (omega arith))

or-zero_fuel : (n a : ℕ) → a ≤ n → bit_or a 0 ≡ a
or-zero_fuel n zero h = refl
or-zero_fuel zero (suc a) h = absurd (omega arith)
or-zero_fuel (suc n) (suc a) h =
    omega (arith, or_step (suc a) 0, or-zero_fuel n (suc a / 2) (omega arith))

double : (q k : ℕ) → q * 2 ^ suc k ≡ 2 * (q * 2 ^ k)
double q k = omega (arith, ap (λ (t : ℕ). q * t) (pow-suc 2 k))

-- A mask with `k` low zeros keeps what lies above them.
pub and_high : (k x m : ℕ) → bit_and x (m * 2 ^ k) ≡ bit_and (x / 2 ^ k) m * 2 ^ k
and_high zero x m = ground arith
and_high (suc k) x m = ground (
  arith,
  and_step x (m * 2 ^ suc k),
  double m k,
  and_high k (x / 2) m,
  div-div-eq-div-mul x 2 (2 ^ k),
  pow-suc 2 k,
  double (bit_and (x / 2 ^ suc k) m) k,
)

-- A mask of `k` ones keeps the remainder.
pub and_low : (k x : ℕ) → bit_and x (2 ^ k - 1) ≡ x % 2 ^ k
and_low zero x = ground (arith, and-zero_fuel x x)
and_low (suc k) x = omega (
  arith,
  and_step x (2 ^ suc k - 1),
  pow-suc 2 k,
  one-le-pow k 2,
  ap (λ (t : ℕ). bit_and (x / 2) t) half,
  and_low k (x / 2),
  div-add-mod x (2 ^ suc k),
  div-add-mod (x / 2) (2 ^ k),
  ap (λ (t : ℕ). t * (x / 2 / 2 ^ k)) (pow-suc 2 k),
  ap (λ (t : ℕ). 2 ^ suc k * t) quotient,
)
  where
    half : (2 ^ suc k - 1) / 2 ≡ 2 ^ k - 1
    half = omega (arith, pow-suc 2 k, one-le-pow k 2)

    quotient : x / 2 ^ suc k ≡ x / 2 / 2 ^ k
    quotient = ground (arith, div-div-eq-div-mul x 2 (2 ^ k), pow-suc 2 k)

-- `|` joins fields that do not overlap.
pub or_fields : (k q r : ℕ) → r < 2 ^ k → bit_or (q * 2 ^ k) r ≡ q * 2 ^ k + r
or_fields zero q r h = ground (arith, or-zero_fuel q q)
or_fields (suc k) q r h = ground (
  arith,
  or_step (q * 2 ^ suc k) r,
  double q k,
  pow-suc 2 k,
  or_fields k q (r / 2) (omega (arith, pow-suc 2 k)),
)
