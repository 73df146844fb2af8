-- ===== src/CString/Block.antt =====
-- What `memset`, `memcpy` and `memcmp` of lib/string.c do to a block of bytes.
use mathlib.Core.Path.{fun_ext}
use holo_os.Base.{
  ℕ, zero, suc, ◌+◌, ◌-◌, ◌≤◌, ◌<◌, ◌≡◌, ◌≢◌, ◌⊎◌, inl, inr, Bool, Bool-cases, ◌&&◌, ◌||◌, leb, ltb,
  ◌==◌, if◌then◌else◌, arith,
}
use holo_os.Base.Memory.{Mem, update}
use holo_os.Base.Run.{ok, panic}
use holo_os.CString.{
  memset_loop, memset, memcpy_loop, memcpy, Order, greater, less, equal, memcmp_loop, memcmp,
}

-- `a` is one of the `n` addresses from `p` on.
abbrev pub within : ℕ → ℕ → ℕ → Bool
within p n a = leb p a && ltb a (p + n)

-- the memory with `v` in the `n` bytes from `p` on
unfoldable pub fill : Mem → ℕ → ℕ → ℕ → Mem
fill m p v n a = if within p n a then v else m a

-- the memory with the `n` bytes from `s` on at `d`
unfoldable pub copied : Mem → ℕ → ℕ → ℕ → Mem
copied m d s n a = if within d n a then m (s + (a - d)) else m a

memset_loop_lem :
    (m : Mem) (p v n a : ℕ) → memset_loop m p v n a ≡ (if within p n a then v else m a)
unfolding memset_loop
memset_loop_lem m p v zero a = ground arith
memset_loop_lem m p v (suc n) a = ground (arith, memset_loop_lem (update m p v) (p + 1) v n a)

-- `memset` panics at NULL; at any other address it sets the `n` bytes from there on to the value
-- and leaves every other byte as it was.
pub memset_lem :
    (m : Mem) (p v n : ℕ) → memset m p v n ≡ (if p == 0 then panic else ok (fill m p v n))
unfolding memset fill
memset_lem m p v n = rw (fun_ext (memset_loop_lem m p v n)) (ground arith)

pub memcpy_loop_lem :
    (m : Mem) (d s n a : ℕ)
    → (d ≤ s) ⊎ (s + n ≤ d)
    → memcpy_loop m d s n a ≡ (if within d n a then m (s + (a - d)) else m a)
unfolding memcpy_loop
memcpy_loop_lem m d s zero a apart = ground arith
memcpy_loop_lem m d s (suc n) a apart =
    ground (arith, memcpy_loop_lem (update m d (m s)) (d + 1) (s + 1) n a)

-- If the target lies below the source, or behind its end, `memcpy` puts the `n` bytes that the
-- source held before the call at the target, and leaves every other byte as it was; it panics if
-- one of the pointers is NULL.
pub memcpy_lem :
    (m : Mem) (d s n : ℕ)
    → (d ≤ s) ⊎ (s + n ≤ d)
    → memcpy m d s n ≡ (if d == 0 || s == 0 then panic else ok (copied m d s n))
unfolding memcpy copied
memcpy_lem m d s n apart = rw (fun_ext (λ a. memcpy_loop_lem m d s n a apart)) (ground arith)

-- What each answer of `memcmp` says of the two blocks: with `less` and `greater`, at which offset
-- they first differ.
abbrev pub Compared : Mem → ℕ → ℕ → ℕ → Order → Type 0
Compared m a b n equal = (i : ℕ) → i < n → m (a + i) ≡ m (b + i)
Compared m a b n greater =
    (k : ℕ) × (k < n) × (m (b + k) < m (a + k)) × ((i : ℕ) → i < k → m (a + i) ≡ m (b + i))
Compared m a b n less =
    (k : ℕ) × (k < n) × (m (a + k) < m (b + k)) × ((i : ℕ) → i < k → m (a + i) ≡ m (b + i))

module _ (m : Mem) (a b : ℕ) (e : m a ≡ m b) where
  SameBelow-suc :
      (k : ℕ)
      → ((i : ℕ) → i < k → m (a + 1 + i) ≡ m (b + 1 + i))
      → (i : ℕ) → i < suc k
      → m (a + i) ≡ m (b + i)
  SameBelow-suc k h zero lt = ground arith
  SameBelow-suc k h (suc i) lt = ground (arith, h i)

  Compared-suc : (n : ℕ) (o : Order) → Compared m (a + 1) (b + 1) n o → Compared m a b (suc n) o
  Compared-suc n equal h = SameBelow-suc n h
  Compared-suc n greater (k, lt, gt, h) = (suc k, omega arith, ground arith, SameBelow-suc k h)
  Compared-suc n less (k, lt, gt, h) = (suc k, omega arith, ground arith, SameBelow-suc k h)

memcmp_loop_lem : (m : Mem) (a b n : ℕ) → Compared m a b n (memcmp_loop m a b n)
unfolding memcmp_loop
memcmp_loop_lem m a b zero = λ i h. absurd (omega arith)
memcmp_loop_lem m a b (suc n) = elim (Bool-cases (ltb (m b) (m a))) [
  | inl gt ↦ rw gt (0, omega arith, ground arith, λ i h. absurd (omega arith))
  | inr ge ↦ elim (Bool-cases (ltb (m a) (m b))) [
    | inl lt ↦ rw (ge, lt) (0, omega arith, ground arith, λ i h. absurd (omega arith))
    | inr le ↦
        rw (ge, le)
          (Compared-suc m a b (ground arith) n (memcmp_loop m (a + 1) (b + 1) n)
            (memcmp_loop_lem m (a + 1) (b + 1) n))
  ]
]

-- `memcmp` of pointers that are not NULL returns 0 where the blocks are equal byte for byte;
-- otherwise it returns 1 or -1, as the first block holds the greater or the smaller byte at the
-- first offset where they differ.
pub memcmp_lem :
    (m : Mem) (a b n : ℕ)
    → a ≢ 0
    → b ≢ 0
    → (o : Order) × (memcmp m a b n ≡ ok o) × Compared m a b n o
unfolding memcmp
memcmp_lem m a b n ha hb = (memcmp_loop m a b n, ground arith, memcmp_loop_lem m a b n)
