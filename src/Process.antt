-- ===== src/Process.antt =====
-- kernel/process.c: user processes. `startProcess` ends in `intrExit` (lib/kernel/kernel.S), which
-- loads the registers of the process from the stack. The switch of address spaces
-- (`pageDirActivate`, `processActivate`) is in Thread. `start_process_addr` and `kernel_thread` are the
-- addresses of `startProcess` and `kernelThread`; messages on the screen are left out.
pub mod Directory
pub mod Enter
pub mod Execute
mod Tests
use holo_os.Base.{ℕ, ◌+◌, ◌-◌, ◌*◌, ◌/◌, ◌%◌, ◌^◌, Bool, true, false, ◌==◌, if◌then◌else◌}
use holo_os.Base.Memory.{Mem, update}
use holo_os.Base.Run.{Run, ok, ◌>>=◌}
use holo_os.Bitmap.{Bitmap, bitmap_init}
use holo_os.CString.{memcpy}
use holo_os.Interrupt.{IntrStatus, intr_disable, intr_set_status}
use holo_os.Memory.Alloc.{get_kernel_pages, get_page}
use holo_os.Memory.Heap.{block_desc_init}
use holo_os.Memory.Paging.{Store, v2p, entry}
use holo_os.Memory.Pool.{Pools, VirtualAddr, pf_user, null, pg_size}
use holo_os.Thread.{
  Tasks, Kernel, set, general_tag, all_list_tag, thread_init, thread_create, ready_append,
  all_append, thread_stack_size,
}

abbrev pub user_vaddr_start : ℕ
user_vaddr_start = 0x8048000

abbrev pub user_stack3_vaddr : ℕ
user_stack3_vaddr = 0xc0000000 - 0x1000

abbrev pub default_prio : ℕ
default_prio = 16

-- include/kernel/global.h
abbrev pub selector_u_code : ℕ
selector_u_code = 5 * 2 ^ 3 + 0 * 2 ^ 2 + 3

abbrev pub selector_u_data : ℕ
selector_u_data = 6 * 2 ^ 3 + 0 * 2 ^ 2 + 3

-- `EFLAGS_IOPL_0 | EFLAGS_MBS | EFLAGS_IF_1`, three flags of different bits
abbrev pub user_eflags : ℕ
user_eflags = 0 * 2 ^ 12 + 1 * 2 ^ 1 + 1 * 2 ^ 9

-- The place of `uBlockDesc` in a `struct taskStruct`.
abbrev pub u_block_desc_offset : ℕ
u_block_desc_offset = 68

pub create_page_dir : Kernel → Pools → Run (ℕ × Kernel)
create_page_dir k pools = do
  (dir, s) ← get_kernel_pages k.store pools (k.tasks.user_vaddr k.current) 1
  if dir == null then ok (null, record k { store = s }) else do
    copied ← memcpy s.words ((dir + 0x300 * 4) % 2 ^ 32) (0xfffff000 + 0x300 * 4) 1020
    let words = update copied ((dir + 1023 * 4) % 2 ^ 32) (entry (v2p copied dir))
    ok (dir, record k { store = record s { words = words } })

pub create_user_vaddr_bitmap : Kernel → Pools → ℕ → Run Kernel
create_user_vaddr_bitmap k pools user_prog = do
  let size = (0xc0000000 - user_vaddr_start) / pg_size / 8
  let bitmap_pg_cnt = (size + pg_size - 1) / pg_size
  (bits, s) ← get_kernel_pages k.store pools (k.tasks.user_vaddr k.current) bitmap_pg_cnt
  let bitmap : Bitmap = record { bits = bits; size = size }
  bytes ← bitmap_init s.bytes bitmap
  let space : VirtualAddr = record { vaddr_start = user_vaddr_start; vaddr_bitmap = bitmap }
  ok (record k {
    store = record s { bytes = bytes };
    tasks = record k.tasks { user_vaddr = set k.tasks.user_vaddr user_prog space };
  })

pub process_execute : ℕ → Kernel → Pools → ℕ → ℕ → ℕ → ℕ → Run Kernel
process_execute fuel k pools kernel_thread start_process_addr filename name = do
  (thread, s) ← get_kernel_pages k.store pools (k.tasks.user_vaddr k.current) 1
  k1 ← thread_init fuel (record k { store = s }) thread name default_prio
  k2 ← create_user_vaddr_bitmap k1 pools thread
  (dir, k3) ←
      create_page_dir (thread_create k2 thread kernel_thread start_process_addr filename) pools
  let (descs, links) = block_desc_init k3.links (thread + u_block_desc_offset)
  let (old, eflags) = intr_disable k3.eflags
  let k4 = record k3 {
    links = links;
    eflags = eflags;
    tasks = record k3.tasks {
      page_dir = update k3.tasks.page_dir thread dir;
      u_block_desc = set k3.tasks.u_block_desc thread descs;
    };
  }
  k5 ← ready_append fuel k4 (general_tag thread)
  k6 ← all_append fuel k5 (all_list_tag thread)
  ok (record k6 { eflags = (intr_set_status old k6.eflags).1 })

-- The registers that `intrExit` loads from the stack.
pub record Regs : Type 0 where
  pub edi : ℕ
  pub esi : ℕ
  pub ebp : ℕ
  pub ebx : ℕ
  pub edx : ℕ
  pub ecx : ℕ
  pub eax : ℕ
  pub gs : ℕ
  pub fs : ℕ
  pub es : ℕ
  pub ds : ℕ
  pub eip : ℕ
  pub cs : ℕ
  pub eflags : ℕ
  pub esp : ℕ
  pub ss : ℕ

-- `popad`, `pop gs`, `pop fs`, `pop es`, `pop ds`, `add esp, 4` and `iretd`, with the stack at `sp`
unfoldable pub intr_exit : Mem → ℕ → Regs
intr_exit w sp = record {
  edi = w sp;
  esi = w (sp + 4);
  ebp = w (sp + 8);
  ebx = w (sp + 16);
  edx = w (sp + 20);
  ecx = w (sp + 24);
  eax = w (sp + 28);
  gs = w (sp + 32);
  fs = w (sp + 36);
  es = w (sp + 40);
  ds = w (sp + 44);
  eip = w (sp + 52);
  cs = w (sp + 56);
  eflags = w (sp + 60);
  esp = w (sp + 64);
  ss = w (sp + 68);
}

-- The stores of `startProcess` to its `struct intrStack` at `p`, up to the call of `getPage`.
pub fill_frame : Mem → ℕ → ℕ → Mem
fill_frame w p func =
    let w1 = update (update (update (update w (p + 4) 0) (p + 8) 0) (p + 12) 0) (p + 16) 0 in
    let w2 = update (update (update (update w1 (p + 20) 0) (p + 24) 0) (p + 28) 0) (p + 32) 0 in
    let w3 = update (update w2 (p + 36) 0) (p + 48) selector_u_data in
    let w4 = update (update w3 (p + 44) selector_u_data) (p + 40) selector_u_data in
    update (update (update w4 (p + 56) func) (p + 60) selector_u_code) (p + 64) user_eflags

-- The state of `startProcess` when it calls `getPage`, with its `struct intrStack` at `p`.
abbrev pub prepared : Kernel → ℕ → ℕ → Kernel
prepared k p filename = record k {
  store = record k.store { words = fill_frame k.store.words p filename };
  tasks = record k.tasks { self_kstack = update k.tasks.self_kstack k.current p };
}

-- The last two stores, with the page that `getPage` returned, and the jump to `intrExit`.
abbrev pub enter_user : Kernel → ℕ → ℕ × Bool × Store → Regs × Bool × Kernel
enter_user k p (page, held, s) =
    let w1 = update s.words (p + 68) ((page + pg_size) % 2 ^ 32) in
    let words = update w1 (p + 72) selector_u_data in
    (intr_exit words (p + 4), held, record k { store = record s { words = words } })

abbrev pub frame_at : Kernel → ℕ
frame_at k = (k.tasks.self_kstack k.current + 4 * thread_stack_size) % 2 ^ 32

-- With the registers, whether the lock of the user's pool is held when the process starts.
pub start_process : Kernel → Pools → ℕ → Run (Regs × Bool × Kernel)
start_process k pools filename = do
  let k1 = prepared k (frame_at k) filename
  stack ←
      get_page k1.store pools (k1.tasks.page_dir k1.current) (k1.tasks.user_vaddr k1.current)
        pf_user user_stack3_vaddr
  ok (enter_user k1 (frame_at k) stack)
