-- ===== src/Syscall/User.antt =====
-- lib/kernel/syscall.c: the calls of a user program. `r` are its registers before the call; the
-- compiler loads the number and the argument, and takes the value from `eax`.
use holo_os.Base.{ℕ, ◌≡◌, ap, Option, some}
use holo_os.Base.Memory.{Mem}
use holo_os.Base.Run.{Run, ◌>>=◌}
use holo_os.Process.{Regs}
use holo_os.Syscall.{
  SyscallFunc, nr_getpid, nr_write, nr_malloc, nr_free, number, System, Entry, syscall_init,
  sys_getpid, sys_write, malloc_call, free_call, call_entry,
}
use holo_os.Syscall.Saved.{answer, handled, syscall_handler_lem}

module _ (eax fuel : ℕ) (table : ℕ → Option Entry) (esp0 : ℕ) (stack : Mem) where
  -- `_syscall0` and `_syscall1`: the value is `eax` of the registers behind the call.
  pub syscall0 : SyscallFunc → Regs → System → Run (Regs × System)
  syscall0 nr r s = handled eax fuel table esp0 stack (record r { eax = number nr }) s

  pub syscall1 : SyscallFunc → ℕ → Regs → System → Run (Regs × System)
  syscall1 nr arg r s =
      handled eax fuel table esp0 stack (record r { eax = number nr; ebx = arg }) s

  pub getpid : Regs → System → Run (Regs × System)
  unfolding syscall0
  getpid r s = syscall0 nr_getpid r s

  pub write : ℕ → Regs → System → Run (Regs × System)
  unfolding syscall1
  write str r s = syscall1 nr_write str r s

  pub malloc : ℕ → Regs → System → Run (Regs × System)
  unfolding syscall1
  malloc size r s = syscall1 nr_malloc size r s

  pub free : ℕ → Regs → System → Run (Regs × System)
  unfolding syscall1
  free ptr r s = syscall1 nr_free ptr r s

  -- Behind `syscallInit` each call of a user program comes to the kernel's function of its name:
  -- `getpid` to `sysGetpid`, `write` to `sysWrite`, `malloc` to `sysMalloc` and `free` to `sysFree`,
  -- with its argument and on the caller's thread. Of the caller's registers only `eax`, which holds
  -- the value, and `ebx`, which held the argument, change.
  pub user_calls :
      (old : ℕ → Option Entry)
      → table ≡ syscall_init old
      → (r : Regs) (s : System) (arg : ℕ)
      → (getpid r s ≡ (sys_getpid s >>= answer r))
        × (write arg r s ≡ (sys_write fuel s arg >>= answer (record r { ebx = arg })))
        × (malloc arg r s ≡ (malloc_call fuel s arg >>= answer (record r { ebx = arg })))
        × (free arg r s ≡ (free_call eax fuel s arg >>= answer (record r { ebx = arg })))
  unfolding getpid write malloc free syscall_init call_entry
  user_calls old e r s arg =
      let go = λ (r : Regs) (x : Entry) (is : table r.eax ≡ some x).
        syscall_handler_lem eax fuel table esp0 stack r s x is in
      (
        go _ _ (ap (λ (t : ℕ → Option Entry). t 0) e),
        go _ _ (ap (λ (t : ℕ → Option Entry). t 1) e),
        go _ _ (ap (λ (t : ℕ → Option Entry). t 2) e),
        go _ _ (ap (λ (t : ℕ → Option Entry). t 3) e),
      )
