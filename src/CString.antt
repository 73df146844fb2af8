-- ===== src/CString.antt =====
-- lib/string.c: the routines on blocks of bytes and on strings that end in a zero byte. A pointer
-- is an address, NULL is 0, and a routine that writes returns the memory that it leaves.
pub mod Block
pub mod Text
mod Tests
use holo_os.Base.{ℕ, zero, suc, ◌+◌, Bool, true, false, not, ◌||◌, ◌&&◌, ltb, ◌==◌, if◌then◌else◌}
use holo_os.Base.Memory.{Mem, update}
use holo_os.Base.Run.{Run, ok, assert, ◌>>=◌, ◌>>◌}

-- `for (; size; --size) { *dstC = val; ++dstC; }`
memset_loop : Mem → ℕ → ℕ → ℕ → Mem
memset_loop m dst val zero = m
memset_loop m dst val (suc size) = memset_loop (update m dst val) (dst + 1) val size

pub memset : Mem → ℕ → ℕ → ℕ → Run Mem
unfolding memset_loop
memset m dst val size = do assert (not (dst == 0)); ok (memset_loop m dst val size)

unfoldable pub memcpy_loop : Mem → ℕ → ℕ → ℕ → Mem
memcpy_loop m dst src zero = m
memcpy_loop m dst src (suc size) = memcpy_loop (update m dst (m src)) (dst + 1) (src + 1) size

pub memcpy : Mem → ℕ → ℕ → ℕ → Run Mem
unfolding memcpy_loop
memcpy m dst src size = do
  assert (not (dst == 0) && not (src == 0))
  ok (memcpy_loop m dst src size)

-- The `int` that `memcmp` returns: 1, -1 or 0.
pub data Order : Type 0 where
  greater less equal : Order

memcmp_loop : Mem → ℕ → ℕ → ℕ → Order
memcmp_loop m a b zero = equal
memcmp_loop m a b (suc size) =
    let rest = memcmp_loop m (a + 1) (b + 1) size in
    if ltb (m b) (m a) then greater else if ltb (m a) (m b) then less else rest

pub memcmp : Mem → ℕ → ℕ → ℕ → Run Order
unfolding memcmp_loop
memcmp m a b size = do assert (not (a == 0) && not (b == 0)); ok (memcmp_loop m a b size)
