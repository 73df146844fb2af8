-- ===== src/Syscall/Tests.antt =====
-- System calls of a user program with the text "v-42" to print, and the theorems there.
use holo_os.Base.{
  ℕ, ◌+◌, ◌*◌, ◌^◌, ◌<◌, ◌≤◌, ◌≡◌, ◌⊎◌, inr, refl, false, ◌==◌, if◌then◌else◌, Option, none, some,
  List, [], ◌∷◌, length, arith,
}
use holo_os.Base.Memory.{Mem}
use holo_os.Base.Run.{ok, ◌>>=◌}
use holo_os.CString.Block.{fill}
use holo_os.Memory.Paging.{Store}
use holo_os.Memory.Pool.{pools_of}
use holo_os.Process.{Regs}
use holo_os.Screen.Text.{put_all}
use holo_os.Stdio.{va_arg}
use holo_os.Stdio.Digits.{numeral_digits}
use holo_os.Stdio.Render.{pieces, render, signed_numeral}
use holo_os.Stdio.Render.Vsprintf.{rendered, Fits}
use holo_os.Syscall.{
  System, Entry, write_entry, syscall_init, sys_getpid, sys_write, malloc_call, free_call,
  call_entry,
}
use holo_os.Syscall.Saved.{answer, handled, syscall_handler_lem}
use holo_os.Syscall.User.{getpid, write, malloc, free, user_calls}
use holo_os.Syscall.Print.{with_bytes, with_screen, user_printf, user_printf_lem}
use holo_os.Thread.{Tasks, Kernel, task_running}

abbrev store : Store
store = record {
  bytes = λ a. if a == 100 then 118 else if a == 101 then 37 else if a == 102 then 100 else 0;
  words = λ a. 0;
}

abbrev tasks : Tasks
tasks = record {
  self_kstack = λ t. 0xc0201000;
  pid = λ t. 7;
  status = λ t. task_running;
  priority = λ t. 16;
  ticks = λ t. 16;
  elapsed_ticks = λ t. 0;
  page_dir = λ t. 0xc0300000;
  user_vaddr = λ t. record {
    vaddr_start = 0x8048000;
    vaddr_bitmap = record { bits = 0xc0301000; size = 0x5c00 };
  };
  u_block_desc = λ t. [];
  stack_magic = λ t. 0;
}

abbrev kernel : Kernel
kernel = record {
  store = store;
  links = record { prev = λ a. 0; next = λ a. 0 };
  tasks = tasks;
  ready_list = 1000;
  all_list = 2000;
  ready_lock = false;
  all_lock = false;
  tag_lock = false;
  pid_lock = false;
  thread_tag = 0;
  next_pid = 8;
  main_thread = 0;
  current = 0xc0200000;
  eflags = 2;
  cr3 = 0x100000;
  esp0 = 0xc0201000;
  ticks = 0;
}

abbrev system : System
system = record {
  kernel = kernel;
  desc = λ a. none;
  cnt = λ a. 0;
  large = λ a. false;
  k_block_descs = [];
  pools = pools_of (32 * 2 ^ 20);
  screen = record { cells = λ a. 32; cursor = 1998 };
  console_holder = 0;
}

abbrev regs : Regs
regs = record {
  edi = 1;
  esi = 2;
  ebp = 3;
  ebx = 4;
  edx = 5;
  ecx = 6;
  eax = 1;
  gs = 0;
  fs = 51;
  es = 51;
  ds = 51;
  eip = 0x8048010;
  cs = 43;
  eflags = 514;
  esp = 0xbffffff0;
  ss = 51;
}

abbrev empty : ℕ → Option Entry
empty i = none

abbrev words : Mem
words a = 0

stored_write : syscall_init empty 1 ≡ some write_entry
unfolding syscall_init
stored_write = refl

syscall_handler_lem_example :
    handled 0 1030 (syscall_init empty) 0xc0201000 words regs system
    ≡ (call_entry 0 1030 system write_entry 4 >>= answer regs)
syscall_handler_lem_example =
    syscall_handler_lem 0 1030 (syscall_init empty) 0xc0201000 words regs system write_entry
      stored_write

user_calls_example :
    (getpid 0 1030 (syscall_init empty) 0xc0201000 words regs system
      ≡ (sys_getpid system >>= answer regs))
    × (write 0 1030 (syscall_init empty) 0xc0201000 words 100 regs system
        ≡ (sys_write 1030 system 100 >>= answer (record regs { ebx = 100 })))
    × (malloc 0 1030 (syscall_init empty) 0xc0201000 words 100 regs system
        ≡ (malloc_call 1030 system 100 >>= answer (record regs { ebx = 100 })))
    × (free 0 1030 (syscall_init empty) 0xc0201000 words 100 regs system
        ≡ (free_call 0 1030 system 100 >>= answer (record regs { ebx = 100 })))
user_calls_example =
    user_calls 0 1030 (syscall_init empty) 0xc0201000 words empty refl regs system 100

getpid_value : sys_getpid system ≡ ok (7, system)
unfolding sys_getpid
getpid_value = refl

-- "v%d", and -42 behind its address on the stack at 1000.
abbrev format : List ℕ
format = 118 ∷ 37 ∷ 100 ∷ []

abbrev stack : Mem
stack a = if a == 1000 then 100 else 4294967254

abbrev text : ℕ → List ℕ
text k = []

rendered-format : rendered format (va_arg stack 1000) text ≡ 118 ∷ 45 ∷ 52 ∷ 50 ∷ []
unfolding pieces render signed_numeral numeral_digits
rendered-format = refl

format-Fits : Fits 0 (fill store.bytes 2000 1024 0) 2000 100 format (va_arg stack 1000) text
unfolding pieces fill
format-Fits =
    rw rendered-format
      (omega arith, omega arith, inr (omega arith), (λ j. ground arith), ground arith, tt)

user_printf_lem_example :
    (m' : Mem) × (user_printf 0 1030
        (syscall_init empty)
        0xc0201000
        words
        regs
        system
        stack
        1000
        2000
      ≡ ok (
        record regs { eax = length (rendered format (va_arg stack 1000) text); ebx = 2000 },
        with_screen
            (with_bytes system m')
            (put_all system.screen (rendered format (va_arg stack 1000) text)),
      ))
    × ((a : ℕ) → (a < 2000) ⊎ (2000 + 1024 ≤ a) → m' a ≡ store.bytes a)
user_printf_lem_example =
    user_printf_lem 0 1030 (syscall_init empty) 0xc0201000 words empty refl regs system stack 1000
      2000 text format 0 (omega arith) (omega arith) format-Fits (rw rendered-format (omega arith))
      (rw rendered-format (ground arith)) (rw rendered-format (ground arith)) (omega arith) refl
