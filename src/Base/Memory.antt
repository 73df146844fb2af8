-- ===== src/Base/Memory.antt =====
-- Memory as a function from addresses to cells. A store changes one cell.
use holo_os.Base.Tests.{◌==◌, if◌then◌else◌}
use Prim.Native.Nat.{ℕ}
use mathlib.Core.Path.{◌≡◌}
use mathlib.Core.Logic.{◌≢◌}
use native.Mathlib.Omega.{arith}

-- the cells at their addresses: bytes, or the words of one field of a struct
abbrev pub Mem : Type 0
Mem = ℕ → ℕ

abbrev pub update : Mem → ℕ → ℕ → Mem
update m a v x = if a == x then v else m x

pub update_self : (m : Mem) (a v : ℕ) → update m a v a ≡ v
update_self m a v = ground arith

pub update_ne : (m : Mem) (a v x : ℕ) → a ≢ x → update m a v x ≡ m x
update_ne m a v x h = ground arith
