-- ===== src/Thread/Context/Tests.antt =====
-- kernel/switch.S with two threads of kernel/thread.c, and the theorems there.
use holo_os.Base.{◌-◌, ◌≡◌, refl, ◌==◌, if◌then◌else◌, arith}
use holo_os.Thread.{Kernel, thread_create}
use holo_os.Thread.Context.{Machine, switch_to}
use holo_os.Thread.Context.Resume.{resume_lem, created-self_kstack, below}
use holo_os.Thread.Tests.{kernel, tasks, first, second}

-- The first thread switches to the second, and that one switches back.
abbrev leaves : Machine
leaves = record {
  words = λ a.
      if a == 0x10f04
      then first
      else if a == 0x10f08
      then second
      else if a == 0x10f00
      then 77
      else 0;
  self_kstack = λ t. if t == second then 0x20e00 else 0;
  cpu = record { eip = 5; esp = 0x10f00; ebp = 1; ebx = 2; esi = 3; edi = 4 };
}

abbrev comes_back : Machine
comes_back = record (switch_to leaves) {
  words = λ a.
      if a == 0x20f04 then second else if a == 0x20f08 then first else (switch_to leaves).words a;
  cpu = record { eip = 9; esp = 0x20f00; ebp = 0; ebx = 0; esi = 0; edi = 0 };
}

resume_lem_example :
    (switch_to comes_back).cpu
    ≡ record { eip = 77; esp = 0x10f04; ebp = 1; ebx = 2; esi = 3; edi = 4 }
resume_lem_example =
    resume_lem leaves comes_back first second second
      (record { room = omega arith; first = refl; second = refl })
      (record { room = omega arith; first = refl; second = refl }) (omega arith) refl
      (λ i lt. ground arith) (λ i lt. below (omega arith))

abbrev bare : Kernel
bare = record kernel {
  tasks = record tasks { self_kstack = λ t. if t == second then 0x21000 else 0 };
}

abbrev started : Machine
started = record {
  words = λ a.
      if a == 0x10f04
      then first
      else if a == 0x10f08
      then second
      else (thread_create bare second 100 200 300).store.words a;
  self_kstack = (thread_create bare second 100 200 300).tasks.self_kstack;
  cpu = leaves.cpu;
}

started-stack : started.self_kstack second ≡ 0x21000 - 432
started-stack = created-self_kstack bare second 100 200 300
