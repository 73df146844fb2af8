-- ===== src/Console/Tests.antt =====
-- Two threads at device/console.c, and the theorem there.
use holo_os.Base.{◌≡◌, ◌⊎◌, refl, some, [], ◌∷◌, ◌++◌, arith}
use holo_os.Sync.{Lock, lock_init, inside, step_at, swap_holder}
use holo_os.Console.{Console, console_init, calls, prints, call, print, go, Runs, begin, continue}
use holo_os.Console.Whole.{concat, no_mixing}

-- Thread 1 calls with "hi" and takes the lock, thread 2 calls with "x", and thread 1 prints.
called : (l : Lock) × (step_at lock_init 1 (lock_init.place 1) ≡ some l)
unfolding step_at lock_init
called = (_, refl)

taken : (l : Lock) × (step_at called.0 1 (called.0.place 1) ≡ some l)
unfolding step_at lock_init called swap_holder
taken = (_, refl)

second : (l : Lock) × (step_at taken.0 2 (taken.0.place 2) ≡ some l)
unfolding step_at lock_init called taken swap_holder
second = (_, refl)

abbrev first_call : Console
first_call = calls console_init 1 (104 ∷ 105 ∷ []) called.0

abbrev second_call : Console
second_call = calls (record first_call { lock = taken.0 }) 2 (120 ∷ []) second.0

abbrev printed : Console
printed = prints second_call 1 104 (105 ∷ [])

printed-Runs : Runs printed
unfolding console_init lock_init step_at called taken second swap_holder
printed-Runs =
    continue
      (continue
        (continue (continue begin (call 1 (104 ∷ 105 ∷ []) (omega arith) refl refl))
          (go 1 (omega arith) (cc) (cc) refl))
        (call 2 (120 ∷ []) (omega arith) refl refl))
      (print 1 104 (105 ∷ []) (omega arith) refl refl)

no_mixing_example :
    (printed.screen ≡ concat printed.messages)
    ⊎ ((printed.lock.place printed.lock.holder ≡ inside)
        × (printed.screen ++ printed.left printed.lock.holder
            ≡ concat printed.messages ++ printed.text printed.lock.holder))
no_mixing_example = no_mixing printed-Runs
