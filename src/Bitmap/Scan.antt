-- ===== src/Bitmap/Scan.antt =====
-- `bitmapScan` of kernel/bitmap.c finds the first run of free bits that is long enough.
use holo_os.Base.{
  ℕ, zero, suc, ◌+◌, ◌-◌, ◌*◌, ◌/◌, ◌%◌, ◌^◌, ◌<◌, ◌≤◌, ◌≡◌, true, false, ◌==◌, inl, inr, arith,
  Option, none, some, Bool-cases,
}
use native.Mathlib.Decide.{dec_le, dec_lt}
use holo_os.Base.Bits.{test_bit_full}
use holo_os.Base.Memory.{Mem}
use holo_os.Bitmap.{Bitmap, bitmap_test, skip_full, find_run, bitmap_scan}

module _ (m : Mem) (b : Bitmap) where
  -- The `n` bits from `i` on are 0.
  abbrev pub IsFree : ℕ → ℕ → Type 0
  IsFree i n = (j : ℕ) → j < n → bitmap_test m b (i + j) ≡ false

  IsFree-snoc : (i n : ℕ) → IsFree i n → bitmap_test m b (i + n) ≡ false → IsFree i (suc n)
  IsFree-snoc i n h e j lt = elim (Bool-cases (j == n)) [
    | inl p ↦ let q : j ≡ n = ground arith in rw q e
    | inr p ↦ h j (ground arith)
  ]

  IsFree-init : (i n : ℕ) → IsFree i (suc n) → IsFree i n
  IsFree-init i n h j lt = h j (omega arith)

  module _ (cnt : ℕ) where
    -- What an answer of `bitmapScan` says of the bits.
    abbrev pub Scanned : Option ℕ → Type 0
    Scanned none = (i : ℕ) → i + cnt ≤ b.size * 8 → ¬ IsFree i cnt
    Scanned (some i) = (i + cnt ≤ b.size * 8) × IsFree i cnt × ((k : ℕ) → k < i → ¬ IsFree k cnt)

    -- Before the bit at `idx` is read, `cur` counts the free bits that end there.
    record Counted (idx cur : ℕ) : Type 0 where
      le : cur ≤ idx
      short : cur < cnt
      run : IsFree (idx - cur) cur
      longest : (i n : ℕ) → i + n ≡ idx → IsFree i n → n ≤ cur
      nowhere : (i : ℕ) → i + cnt ≤ idx → ¬ IsFree i cnt

    module _ {idx cur : ℕ} (c : Counted idx cur) where
      Counted-used : bitmap_test m b idx ≡ true → Counted (idx + 1) 0
      Counted-used used = record {
        le = omega arith;
        short = omega (arith, c.short);
        run = λ j lt. absurd (omega arith);
        longest = longest;
        nowhere = nowhere;
      }
        where
          longest : (i n : ℕ) → i + n ≡ idx + 1 → IsFree i n → n ≤ 0
          longest i zero e h = omega arith
          longest i (suc n) e h =
              let at : i + n ≡ idx = omega arith in
              let free : bitmap_test m b idx ≡ false = rw (← at) (h n (omega arith)) in cc

          nowhere : (i : ℕ) → i + cnt ≤ idx + 1 → ¬ IsFree i cnt
          nowhere i le h = elim (dec_le (i + cnt) idx) [
            | yes p ↦ c.nowhere i p h
            | no p ↦ omega (arith, c.short, longest i cnt (omega arith) h)
          ]

      Counted-free : bitmap_test m b idx ≡ false → suc cur < cnt → Counted (idx + 1) (suc cur)
      Counted-free unused more = record {
        le = omega (arith, c.le);
        short = more;
        run = let start : idx + 1 - suc cur ≡ idx - cur = omega arith in rw start run_here;
        longest = longest;
        nowhere = nowhere;
      }
        where
          here : idx - cur + cur ≡ idx
          here = omega (arith, c.le)

          run_here : IsFree (idx - cur) (suc cur)
          run_here = IsFree-snoc (idx - cur) cur c.run (rw here unused)

          longest : (i n : ℕ) → i + n ≡ idx + 1 → IsFree i n → n ≤ suc cur
          longest i zero e h = omega arith
          longest i (suc n) e h = omega (arith, c.longest i n (omega arith) (IsFree-init i n h))

          nowhere : (i : ℕ) → i + cnt ≤ idx + 1 → ¬ IsFree i cnt
          nowhere i le h = elim (dec_le (i + cnt) idx) [
            | yes p ↦ c.nowhere i p h
            | no p ↦ omega (arith, more, longest i cnt (omega arith) h)
          ]

      Scanned-found :
          bitmap_test m b idx ≡ false
          → suc cur ≡ cnt
          → idx < b.size * 8
          → b.size * 8 < 2 ^ 31
          → Scanned (some ((idx + 1 + 2 ^ 32 - cnt) % 2 ^ 32))
      Scanned-found unused enough inside small =
          let at : (idx + 1 + 2 ^ 32 - cnt) % 2 ^ 32 ≡ idx - cur = omega (arith, c.le) in
          rw at (omega (arith, c.le), run_cnt, λ k lt. c.nowhere k (omega arith))
        where
          here : idx - cur + cur ≡ idx
          here = omega (arith, c.le)

          run_cnt : IsFree (idx - cur) cnt
          run_cnt = rw (← enough) (IsFree-snoc (idx - cur) cur c.run (rw here unused))

    find_run-Scanned :
        (rounds idx cur : ℕ)
        → b.size * 8 < 2 ^ 31
        → idx + rounds ≡ b.size * 8
        → Counted idx cur
        → Scanned (find_run m b cnt rounds idx cur)
    unfolding find_run
    find_run-Scanned zero idx cur small e c = λ i le. c.nowhere i (omega arith)
    find_run-Scanned (suc rounds) idx cur small e c = elim (Bool-cases (bitmap_test m b idx)) [
      | inl used ↦
          let more : (0 == cnt) ≡ false = ground (arith, c.short) in
          rw (used, more)
            (find_run-Scanned rounds (idx + 1) 0 small (omega arith) (Counted-used c used))
      | inr unused ↦
          let next : (cur + 1) % 2 ^ 32 ≡ suc cur = omega (arith, c.le) in
          elim (Bool-cases (suc cur == cnt)) [
            | inl enough ↦
                rw (unused, next, enough)
                  (Scanned-found c unused (ground arith) (omega arith) small)
            | inr more ↦
                rw (unused, next, more)
                  (find_run-Scanned rounds (idx + 1) (suc cur) small (omega arith)
                    (Counted-free c unused (ground (arith, c.short))))
          ]
    ]

  skip_full-used :
      (rounds idx : ℕ)
      → ((i : ℕ) → i < idx * 8 → bitmap_test m b i ≡ true)
      → let end = skip_full m b rounds idx in
        (end ≤ idx + rounds) × ((i : ℕ) → i < end * 8 → bitmap_test m b i ≡ true)
  unfolding skip_full
  skip_full-used zero idx h = (omega arith, h)
  skip_full-used (suc rounds) idx h = elim (Bool-cases (m (b.bits + idx) == 0xff)) [
    | inl full ↦
        let (le, used) = skip_full-used rounds (idx + 1) (next full) in rw full (omega arith, used)
    | inr part ↦ rw part (omega arith, h)
  ]
    where
      next :
          (m (b.bits + idx) == 0xff) ≡ true → (i : ℕ) → i < (idx + 1) * 8 → bitmap_test m b i ≡ true
      next full i lt = elim (dec_lt i (idx * 8)) [
        | yes p ↦ h i p
        | no p ↦
            let at : i / 8 ≡ idx = omega arith in
            unfold bitmap_test in (rw at (ground (arith, test_bit_full (i % 8) (omega arith))))
      ]

  module _ (cnt : ℕ) (pos : 0 < cnt) {end : ℕ} where
    module _ (used : (i : ℕ) → i < end → bitmap_test m b i ≡ true) where
      used_nowhere : (i n : ℕ) → 0 < n → i + n ≤ end → ¬ IsFree i n
      used_nowhere i n some_bit le h =
          let free : bitmap_test m b (i + 0) ≡ false = h 0 some_bit in
          cc (used (i + 0) (omega arith))

      Counted-start : Counted cnt end 0
      Counted-start = record {
        le = omega arith;
        short = pos;
        run = λ j lt. absurd (omega arith);
        longest = longest;
        nowhere = λ i le. used_nowhere i cnt pos le;
      }
        where
          longest : (i n : ℕ) → i + n ≡ end → IsFree i n → n ≤ 0
          longest i zero e h = omega arith
          longest i (suc n) e h = absurd (used_nowhere i (suc n) (omega arith) (omega arith) h)

  -- For a run of at least one bit, in a bitmap of fewer than 2^31 bits, `bitmapScan` returns the
  -- start of a run of that many free bits inside the bitmap, and there is none that starts
  -- earlier; it returns -1 only if the bitmap has no such run.
  pub bitmap_scan-Scanned :
      (cnt : ℕ) → 0 < cnt → b.size * 8 < 2 ^ 31 → Scanned cnt (bitmap_scan m b cnt)
  unfolding bitmap_scan
  bitmap_scan-Scanned cnt pos small = elim (Bool-cases (skip_full m b b.size 0 == b.size)) [
    | inl all ↦ rw all (λ i le.
        used_nowhere cnt pos {end = b.size * 8}
          (let e : skip_full m b b.size 0 ≡ b.size = ground arith in rw e at skipped.1) i cnt pos
          le)
    | inr part ↦ rw part (
        find_run-Scanned cnt (b.size * 8 - skip_full m b b.size 0 * 8) (skip_full m b b.size 0 * 8)
          0 small (omega (arith, skipped.0)) (Counted-start cnt pos skipped.1))
  ]
    where
      skipped :
          (skip_full m b b.size 0 ≤ 0 + b.size)
          × ((i : ℕ) → i < skip_full m b b.size 0 * 8 → bitmap_test m b i ≡ true)
      skipped = skip_full-used b.size 0 (λ i lt. absurd (omega arith))
