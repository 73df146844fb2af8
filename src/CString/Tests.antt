-- ===== src/CString/Tests.antt =====
-- The routines of lib/string.c on a few bytes, and the theorems there.
use holo_os.Base.{◌≡◌, refl}
use holo_os.Base.Memory.{Mem}
use holo_os.Base.Run.{ok}
use holo_os.CString.{memcmp, less}

-- Every byte holds its address.
abbrev memory : Mem
memory a = a

memcmp_less : memcmp memory 10 12 4 ≡ ok less
unfolding memcmp
memcmp_less = refl
