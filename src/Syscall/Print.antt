-- ===== src/Syscall/Print.antt =====
-- `printf` of lib/stdio.c in a user program, through the system call `write` to the screen.
use holo_os.Base.{
  ℕ, ◌+◌, ◌%◌, ◌^◌, ◌<◌, ◌≤◌, ◌≡◌, ◌≢◌, ◌⊎◌, refl, ◌∙◌, ap, ==_refl, Option, List, length, arith,
}
use holo_os.Base.Memory.{Mem}
use holo_os.Base.Run.{Run, ok, ◌>>=◌}
use holo_os.CString.Block.{fill}
use holo_os.CString.Text.Strings.{IsString, strlen_lem}
use holo_os.Process.{Regs}
use holo_os.Memory.Pool.{null}
use holo_os.Screen.{Screen}
use holo_os.Screen.Text.{put_all, NoBackspace, puts_lem}
use holo_os.Stdio.{va_arg, printf}
use holo_os.Stdio.Render.Vsprintf.{rendered, Fits, NoZero, printf_lem}
use holo_os.Syscall.{System, Entry, syscall_init, console_puts, sys_write}
use holo_os.Syscall.Saved.{answer}
use holo_os.Syscall.User.{write, user_calls}

-- The system with the bytes `m` of the memory, and with a screen.
abbrev pub with_bytes : System → Mem → System
with_bytes s m = record s {
  kernel = record s.kernel { store = record s.kernel.store { bytes = m } };
}

abbrev pub with_screen : System → Screen → System
with_screen s screen = record s { screen = screen }

sys_write_lem :
    (fuel : ℕ) (s : System) (str : ℕ) (cs : List ℕ)
    → length cs < fuel
    → length cs < 2 ^ 32
    → str ≢ 0
    → IsString s.kernel.store.bytes str cs
    → s.screen.cursor < 2000
    → NoBackspace cs
    → s.console_holder ≡ null
    → sys_write fuel s str ≡ ok (length cs, with_screen s (put_all s.screen cs))
unfolding sys_write console_puts
sys_write_lem fuel s str cs lt small ne h on nb free =
    let (shown, bounds) = puts_lem fuel s.kernel.store.bytes s.screen str cs lt h on nb in
    let len = strlen_lem fuel s.kernel.store.bytes str cs lt ne h in
    let n : length cs % 2 ^ 32 ≡ length cs = omega arith in
    rw (free, shown, ==_refl s.kernel.current, len, n) refl

module _ (eax fuel : ℕ) (table : ℕ → Option Entry) (esp0 : ℕ) (kstack : Mem) where
  -- `printf` of a user program, its stack `stack` with the format's address at `ap` and the array
  -- at `buf`.
  pub user_printf : Regs → System → (ℕ → ℕ) → ℕ → ℕ → Run (Regs × System)
  user_printf r s stack at_format buf =
      printf (λ m str. write eax fuel table esp0 kstack str r (with_bytes s m)) fuel
        s.kernel.store.bytes stack at_format buf

  -- Behind `syscallInit`, `printf` of a user program ends: it shows the text of its format on the
  -- screen, character by character, and returns its length; no byte of the memory outside the array
  -- changes. The text has less than 1024 characters, none of them a zero or a backspace, the format
  -- and the strings stand apart from the array, the cursor is on the screen, and no thread has
  -- the console's lock.
  pub user_printf_lem :
      (old : ℕ → Option Entry)
      → table ≡ syscall_init old
      → (r : Regs) (s : System) (stack : ℕ → ℕ) (at_format buf : ℕ) (text : ℕ → List ℕ)
        (cs : List ℕ) (n : ℕ)
      → length cs + n < fuel
      → 1024 ≤ fuel
      → Fits n
          (fill s.kernel.store.bytes buf 1024 0)
          buf
          (stack at_format)
          cs
          (va_arg stack at_format)
          text
      → length (rendered cs (va_arg stack at_format) text) < 1024
      → NoZero (rendered cs (va_arg stack at_format) text)
      → NoBackspace (rendered cs (va_arg stack at_format) text)
      → s.screen.cursor < 2000
      → s.console_holder ≡ null
      → (m' : Mem) × (user_printf r s stack at_format buf
          ≡ ok (
            record r { eax = length (rendered cs (va_arg stack at_format) text); ebx = buf },
            with_screen
                (with_bytes s m')
                (put_all s.screen (rendered cs (va_arg stack at_format) text)),
          ))
        × ((a : ℕ) → (a < buf) ⊎ (buf + 1024 ≤ a) → m' a ≡ s.kernel.store.bytes a)
  unfolding user_printf
  user_printf_lem old e r s stack at_format buf text cs n lt enough fits short nz nb on free =
      let out = rendered cs (va_arg stack at_format) text in
      let (m', run, str, same) =
        printf_lem (λ m str. write eax fuel table esp0 kstack str r (with_bytes s m)) fuel n
          s.kernel.store.bytes stack at_format buf text cs lt fits short nz in
      let pos = fits.0 in
      let call = (user_calls eax fuel table esp0 kstack old e r (with_bytes s m') buf).1 in
      let shown =
        sys_write_lem fuel (with_bytes s m') buf out (omega arith) (omega arith) (omega arith) str
          on nb free in
      (m', run ∙ call ∙ ap (λ m. m >>= answer (record r { ebx = buf })) shown, same)
