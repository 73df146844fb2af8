-- ===== src/Startup.antt =====
-- kernel/init.c and `main` of kernel/main.c: the initialisers of the components one behind the other
-- on the state of the whole machine, and the first processes and threads. The messages on the screen
-- and the instructions that load the task register and the descriptor tables are left out.
pub mod Booted
mod Tests
use Prim.Native.Nat.{bit_or}
use holo_os.Base.{ℕ, ◌+◌, ◌-◌, ◌*◌, ◌^◌, Option, List, [], ◌∷◌, ◌++◌}
use holo_os.Base.Run.{Run, ok, ◌>>=◌}
use holo_os.Console.{Console, console_init}
use holo_os.Interrupt.{
  GateDesc, Handlers, idt_desc_cnt, idt_desc_init, exception_init, pic_init, intr_enable,
}
use holo_os.Ioqueue.Waiting.{Shared}
use holo_os.Keyboard.Typing.{keyboard_init}
use holo_os.Memory.Heap.{MemBlockDesc, mem_init}
use holo_os.Memory.Pool.{Pools}
use holo_os.Process.{process_execute}
use holo_os.Syscall.{Entry, syscall_init}
use holo_os.Thread.{Kernel, thread_support_init, thread_start}
use holo_os.Timer.{timer_init}
use holo_os.Tss.{GdtDesc, Tss, tss_init}

-- The addresses of the functions, strings and variables that the initialisers name.
pub record Addresses : Type 0 where
  pub intr_entry : ℕ → ℕ
  pub syscall_handler : ℕ
  pub general_intr_handler : ℕ
  pub intr_keyboard_handler : ℕ
  pub intr_timer_handler : ℕ
  pub kernel_thread : ℕ
  pub start_process : ℕ
  pub unknown : ℕ
  pub first_names : List ℕ
  pub last_names : List ℕ
  pub main_name : ℕ
  pub k_block_descs : ℕ
  pub idt : ℕ
  pub tss : ℕ

-- `ports` are the bytes that were written to ports, in their order.
pub record Machine : Type 0 where
  pub kernel : Kernel
  pub pools : Pools
  pub k_block_descs : List MemBlockDesc
  pub idt : ℕ → GateDesc
  pub idtr : ℕ
  pub handlers : Handlers
  pub ports : List (ℕ × ℕ)
  pub console : Console
  pub keyboard_buf : Shared
  pub tss : Tss
  pub gdt : ℕ → GdtDesc
  pub syscall_table : ℕ → Option Entry

-- A gate has 8 bytes.
pub idt_init : Addresses → Machine → Machine
idt_init a m = record m {
  idt = idt_desc_init a.intr_entry a.syscall_handler m.idt;
  handlers = exception_init a.general_intr_handler a.unknown a.first_names a.last_names m.handlers;
  ports = m.ports ++ pic_init;
  idtr = bit_or (idt_desc_cnt * 8 - 1) (a.idt * 2 ^ 16);
}

-- `consoleInit`, `keyboardInit`, `tssInit`, `syscallInit` and `timerInit`.
pub init_devices : Addresses → Machine → Machine
init_devices a m =
    let (queue, handlers) = keyboard_init a.intr_keyboard_handler m.keyboard_buf.ring m.handlers in
    let (tss, gdt) = tss_init m.gdt a.tss in
    let (bytes, handlers') = timer_init a.intr_timer_handler handlers in
    record m {
      console = console_init;
      keyboard_buf = queue;
      tss = tss;
      gdt = gdt;
      kernel = record m.kernel { esp0 = tss.esp0 };
      syscall_table = syscall_init m.syscall_table;
      handlers = handlers';
      ports = m.ports ++ bytes;
    }

pub init_all : ℕ → Addresses → Machine → Run Machine
init_all fuel a m = do
  let m1 = idt_init a m
  (pools, descs, store, links) ← mem_init m1.kernel.store m1.kernel.links a.k_block_descs
  kernel ← thread_support_init fuel (record m1.kernel { store = store; links = links }) a.main_name
  ok (init_devices a (record m1 { kernel = kernel; pools = pools; k_block_descs = descs }))

-- The names and functions of the processes and threads that `main` starts.
pub record Programs : Type 0 where
  pub u_work1 : ℕ
  pub u_work2 : ℕ
  pub work1 : ℕ
  pub work2 : ℕ
  pub name_a : ℕ
  pub name_b : ℕ
  pub name_1 : ℕ
  pub name_2 : ℕ
  pub arg_1 : ℕ
  pub arg_2 : ℕ

-- `main` up to its last loop.
pub main : ℕ → Addresses → Programs → Machine → Run Machine
main fuel a p m = do
  m1 ← init_all fuel a m
  k1 ← process_execute fuel m1.kernel m1.pools a.kernel_thread a.start_process p.u_work1 p.name_a
  k2 ← process_execute fuel k1 m1.pools a.kernel_thread a.start_process p.u_work2 p.name_b
  (t1, k3) ← thread_start fuel k2 m1.pools a.kernel_thread p.name_1 31 p.work1 p.arg_1
  (t2, k4) ← thread_start fuel k3 m1.pools a.kernel_thread p.name_2 31 p.work2 p.arg_2
  ok (record m1 { kernel = record k4 { eflags = (intr_enable k4.eflags).1 } })
