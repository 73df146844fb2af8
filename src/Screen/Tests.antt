-- ===== src/Screen/Tests.antt =====
-- lib/kernel/print.S at the last place of the screen, and the theorems there.
use holo_os.Base.{◌≡◌, refl, ◌==◌, if◌then◌else◌, [], ◌∷◌, arith}
use holo_os.Base.Memory.{Mem}
use holo_os.Base.Run.{ok}
use holo_os.Screen.{Screen, puts}
use holo_os.Screen.Cursor.{InBounds}
use holo_os.Screen.Text.{put_all, puts_lem}

abbrev full : Screen
full = record { cells = λ a. 32; cursor = 1999 }

-- "ok" at 100
abbrev text : Mem
text a = if a == 100 then 111 else if a == 101 then 107 else 0

puts_lem_example :
    (puts 3 text full 100 ≡ ok (put_all full (111 ∷ 107 ∷ [])))
    × InBounds full.cells (put_all full (111 ∷ 107 ∷ []))
puts_lem_example =
    puts_lem 3 text full 100 (111 ∷ 107 ∷ []) (omega arith)
      (refl, omega arith, (refl, omega arith, refl)) (omega arith) (omega arith, (omega arith, tt))
