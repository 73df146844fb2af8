-- ===== src/Thread/Spin.antt =====
-- The spin lock of the ready list in kernel/thread.c, where its holder is taken off the processor.
use holo_os.Base.{
  ℕ, zero, suc, ◌+◌, ◌-◌, ◌%◌, ◌^◌, ◌≡◌, refl, Bool, Bool-cases, true, inl, inr, ◌==◌, arith,
}
use holo_os.Base.Run.{out_of_fuel}
use holo_os.Interrupt.{intr_off, intr_get_status}
use holo_os.Thread.Turns.{ticked}
use holo_os.Thread.{
  is_off, is_status, task_running, stack_magic_value, Kernel, spin_wait, ready_append, requeue,
  dispatch, schedule, intr_timer_handler,
}

pub spin_wait-taken : (fuel : ℕ) {b : Bool} → b ≡ true → spin_wait fuel b ≡ out_of_fuel
unfolding spin_wait
spin_wait-taken zero e = refl
spin_wait-taken (suc fuel) e = rw e (rw (spin_wait-taken fuel {b = true} refl) refl)

module _ (k : Kernel) (fuel : ℕ) (taken : k.ready_lock ≡ true) where
  -- With the ready list locked `schedule` spins for ever, in whatever state the current thread is:
  -- no number of rounds is enough.
  pub schedule-stuck : intr_get_status k.eflags ≡ intr_off → schedule fuel k ≡ out_of_fuel
  unfolding schedule is_off requeue dispatch ready_append
  schedule-stuck off =
      let spin = spin_wait-taken fuel {b = k.ready_lock} taken in
      elim (Bool-cases (is_status (k.tasks.status k.current) task_running)) [
        | inl run ↦ rw (off, run, spin) refl
        | inr out ↦ rw (off, out, spin) refl
      ]

module _ (k : Kernel) (fuel : ℕ) (taken : k.ready_lock ≡ true) where
  -- The timer interrupt that takes the last tick of a thread while that thread holds the lock of the
  -- ready list, as `threadStart` does with interrupts on, never returns; and it runs with
  -- interrupts off, so the thread never gives the lock back.
  pub intr_timer_handler-stuck :
      intr_get_status k.eflags ≡ intr_off
      → k.tasks.stack_magic k.current ≡ stack_magic_value
      → k.tasks.ticks k.current ≡ 1
      → intr_timer_handler fuel k ≡ out_of_fuel
  unfolding intr_timer_handler
  intr_timer_handler-stuck off magic one =
      let left : ((k.tasks.ticks k.current + 2 ^ 8 - 1) % 2 ^ 8 == 0) ≡ true = ground arith in
      rw (magic, left) (schedule-stuck (ticked k) fuel taken off)
