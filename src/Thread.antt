-- ===== src/Thread.antt =====
-- kernel/thread.c with device/timer.c and the switch of address spaces of kernel/process.c: threads,
-- the ready list and the scheduler. A thread is the address of its control block; a field of all
-- control blocks is a function of that address, and the links of all list nodes are those of
-- LinkedList. A spin lock is whether it is occupied; waiting for it takes fuel, as do strings and
-- walks through lists. The stack pointer is known by the thread whose stack it points into.
pub mod Spin
pub mod Ready
pub mod Switch
pub mod Turns
pub mod Unblock
pub mod Boot
pub mod Start
pub mod Preempted
pub mod Context
mod Tests
use holo_os.Base.{
  ℕ, zero, suc, ◌+◌, ◌-◌, ◌*◌, ◌%◌, ◌^◌, Bool, true, false, not, ◌||◌, ◌==◌, if◌then◌else◌, List,
}
use holo_os.Base.Memory.{Mem, update}
use holo_os.Base.Run.{Run, ok, panic, out_of_fuel, assert, ◌>>=◌, ◌>>◌}
use holo_os.CString.Text.{strcpy}
use holo_os.Interrupt.{
  IntrStatus, intr_off, intr_on, intr_get_status, intr_enable, intr_disable, intr_set_status,
}
use holo_os.LinkedList.{Links, list_init, list_push, list_append, list_pop, list_empty, list_exist}
use holo_os.Memory.Heap.{MemBlockDesc}
use holo_os.Memory.Pool.{Pools, VirtualAddr, null, pg_size}
use holo_os.Memory.Paging.{Store, v2p}
use holo_os.Memory.Alloc.{get_kernel_pages}

pub data TaskStatus : Type 0 where
  task_running task_ready task_blocked task_waiting task_hanging task_died : TaskStatus

pub is_status : TaskStatus → TaskStatus → Bool
is_status task_running task_running = true
is_status task_ready task_ready = true
is_status task_blocked task_blocked = true
is_status task_waiting task_waiting = true
is_status task_hanging task_hanging = true
is_status task_died task_died = true
is_status _ _ = false

pub is_off : IntrStatus → Bool
is_off intr_off = true
is_off intr_on = false

-- `STACK_MAGIC`
abbrev pub stack_magic_value : ℕ
stack_magic_value = 0x87359642

-- The places of `name`, `generalTag` and `allListTag` in a `struct taskStruct`.
abbrev pub name_offset : ℕ
name_offset = 12

abbrev pub general_tag : ℕ → ℕ
general_tag task = task + 36

abbrev pub all_list_tag : ℕ → ℕ
all_list_tag task = task + 44

-- `elem2entry(struct taskStruct, generalTag, tag)`
abbrev pub task_of : ℕ → ℕ
task_of tag = tag - 36

pub record Tasks : Type 0 where
  pub self_kstack : Mem
  pub pid : Mem
  pub status : ℕ → TaskStatus
  pub priority : Mem
  pub ticks : Mem
  pub elapsed_ticks : Mem
  pub page_dir : Mem
  pub user_vaddr : ℕ → VirtualAddr
  pub u_block_desc : ℕ → List MemBlockDesc
  pub stack_magic : Mem

abbrev pub set {ℓ} : {A : Type ℓ} → (ℕ → A) → ℕ → A → ℕ → A
set f t x u = if u == t then x else f u

pub record Kernel : Type 0 where
  pub store : Store
  pub links : Links
  pub tasks : Tasks
  -- `&threadReadyList` and `&threadAllList`
  pub ready_list : ℕ
  pub all_list : ℕ
  -- `threadReadyListLock`, `threadAllListLock`, `threadTagLock` and `pidLock`
  pub ready_lock : Bool
  pub all_lock : Bool
  pub tag_lock : Bool
  pub pid_lock : Bool
  pub thread_tag : ℕ
  pub next_pid : ℕ
  pub main_thread : ℕ
  -- `threadCurrent()`
  pub current : ℕ
  pub eflags : ℕ
  pub cr3 : ℕ
  -- `tss.esp0`
  pub esp0 : ℕ
  -- `ticks` of device/timer.c
  pub ticks : ℕ

abbrev pub with_status : Kernel → ℕ → TaskStatus → Kernel
with_status k t s = record k { tasks = record k.tasks { status = set k.tasks.status t s } }

-- `spinlockAcquire` of kernel/sync.c
pub spin_wait : ℕ → Bool → Run (Unit {0})
spin_wait zero occupied = out_of_fuel
spin_wait (suc fuel) occupied =
    let again = spin_wait fuel occupied in if occupied then again else ok tt

unfoldable pub allocate_pid : ℕ → Kernel → Run (ℕ × Kernel)
allocate_pid fuel k = do
  spin_wait fuel k.pid_lock
  let ret = (k.next_pid + 1) % 2 ^ 16
  ok (ret, record k { next_pid = ret; pid_lock = false })

-- `spinlockAcquire(&threadReadyListLock); ASSERT(!listExist(…)); listAppend(…); spinlockRelease(…)`
unfoldable pub ready_append : ℕ → Kernel → ℕ → Run Kernel
ready_append fuel k tag = do
  spin_wait fuel k.ready_lock
  found ← list_exist fuel k.links k.ready_list tag
  assert (not found)
  ok (record k { links = list_append k.links k.ready_list tag; ready_lock = false })

-- The same for `threadAllList`.
unfoldable pub all_append : ℕ → Kernel → ℕ → Run Kernel
all_append fuel k tag = do
  spin_wait fuel k.all_lock
  found ← list_exist fuel k.links k.all_list tag
  assert (not found)
  ok (record k { links = list_append k.links k.all_list tag; all_lock = false })

unfoldable pub thread_init : ℕ → Kernel → ℕ → ℕ → ℕ → Run Kernel
thread_init fuel k task name priority = do
  let status = if task == k.main_thread then task_running else task_ready
  (dst, bytes) ← strcpy fuel k.store.bytes (task + name_offset) name
  (pid, k') ← allocate_pid fuel k
  ok (record k' {
    store = record k.store { bytes = bytes };
    tasks = record k.tasks {
      status = set k.tasks.status task status;
      pid = update k.tasks.pid task pid;
      priority = update k.tasks.priority task (priority % 2 ^ 8);
      self_kstack = update k.tasks.self_kstack task ((task + pg_size) % 2 ^ 32);
      ticks = update k.tasks.ticks task (priority % 2 ^ 8);
      elapsed_ticks = update k.tasks.elapsed_ticks task 0;
      page_dir = update k.tasks.page_dir task null;
      stack_magic = update k.tasks.stack_magic task stack_magic_value;
    };
  })

-- The sizes of `struct intrStack` and `struct threadStack`. `selfKStack` is a pointer to words, so
-- taking a number off it moves it by four times as many bytes.
abbrev pub intr_stack_size : ℕ
intr_stack_size = 76

abbrev pub thread_stack_size : ℕ
thread_stack_size = 32

unfoldable pub thread_create : Kernel → ℕ → ℕ → ℕ → ℕ → Kernel
thread_create k task kernel_thread func arg =
    let top = k.tasks.self_kstack task in
    let sp = (top + 2 * 2 ^ 32 - 4 * intr_stack_size - 4 * thread_stack_size) % 2 ^ 32 in
    let w1 = update k.store.words (sp + 16) kernel_thread in
    let w2 = update w1 (sp + 24) func in
    let w3 = update w2 (sp + 28) arg in
    let w4 = update (update (update (update w3 sp 0) (sp + 4) 0) (sp + 12) 0) (sp + 8) 0 in
    record k {
      store = record k.store { words = w4 };
      tasks = record k.tasks { self_kstack = update k.tasks.self_kstack task sp };
    }

-- `kernel_thread` is the address of `kernelThread`.
pub thread_start : ℕ → Kernel → Pools → ℕ → ℕ → ℕ → ℕ → ℕ → Run (ℕ × Kernel)
thread_start fuel k pools kernel_thread name priority func arg = do
  (task, store) ← get_kernel_pages k.store pools (k.tasks.user_vaddr k.current) 1
  k1 ← thread_init fuel (record k { store = store }) task name priority
  let k2 = thread_create k1 task kernel_thread func arg
  k3 ← ready_append fuel k2 (general_tag task)
  k4 ← all_append fuel k3 (all_list_tag task)
  ok (task, k4)

pub make_main_thread : ℕ → Kernel → ℕ → Run Kernel
make_main_thread fuel k name = do
  let k1 = record k { main_thread = k.current }
  k2 ← thread_init fuel k1 k.current name 31
  all_append fuel k2 (all_list_tag k.current)

pub thread_set_status : Kernel → TaskStatus → Kernel
thread_set_status k stat = with_status k k.current stat

-- `pageDirActivate` of kernel/process.c
pub page_dir_activate : Kernel → ℕ → Kernel
page_dir_activate k pthread =
    let page_dir = k.tasks.page_dir pthread in
    record k { cr3 = if page_dir == null then 0x100000 else v2p k.store.words page_dir }

-- `processActivate` of kernel/process.c and `updateTssEsp` of kernel/tss.c
pub process_activate : Kernel → ℕ → Run Kernel
process_activate k pthread = do
  assert (not (pthread == null))
  ok (record (page_dir_activate k pthread) {
    esp0 = if k.tasks.page_dir pthread == null then k.esp0 else (pthread + pg_size) % 2 ^ 32;
  })

-- The first part of `schedule`, for the thread that runs.
pub requeue : ℕ → Kernel → Run Kernel
requeue fuel k = do
  k' ← ready_append fuel k (general_tag k.current)
  ok (record k' {
    tasks = record k'.tasks {
      ticks = update k'.tasks.ticks k.current (k'.tasks.priority k.current);
      status = set k'.tasks.status k.current task_ready;
    };
  })

-- The rest of `schedule`, up to the end of `switchTo`, where the next thread's stack is in use.
pub dispatch : ℕ → Kernel → Run Kernel
dispatch fuel k = do
  spin_wait fuel k.ready_lock
  assert (not (list_empty k.links k.ready_list))
  let (tag, links) = list_pop k.links k.ready_list
  spin_wait fuel k.tag_lock
  let next = task_of tag
  let k1 = record k { links = links; ready_lock = false; tag_lock = false; thread_tag = tag }
  k2 ← process_activate (with_status k1 next task_running) next
  ok (record k2 { current = next })

pub schedule : ℕ → Kernel → Run Kernel
schedule fuel k = do
  assert (is_off (intr_get_status k.eflags))
  k' ← (if is_status (k.tasks.status k.current) task_running then requeue fuel k else ok k)
  dispatch fuel k'

-- `threadBlock` up to the switch. Behind it, when the thread runs again, it gives the status that
-- the call returns back to `intrSetStatus`.
pub thread_block : ℕ → Kernel → TaskStatus → Run (IntrStatus × Kernel)
thread_block fuel k stat = do
  assert (is_status stat task_blocked || is_status stat task_running || is_status stat task_hanging)
  let (old, eflags) = intr_disable k.eflags
  k' ← schedule fuel (thread_set_status (record k { eflags = eflags }) stat)
  ok (old, k')

pub thread_unblock : ℕ → Kernel → ℕ → Run Kernel
thread_unblock fuel k pthread = do
  let (old, eflags) = intr_disable k.eflags
  let status = k.tasks.status pthread
  assert (
      is_status status task_blocked
      || is_status status task_waiting
      || is_status status task_hanging)
  spin_wait fuel k.ready_lock
  k' ←
      (if is_status status task_ready then ok k else do
        found ← list_exist fuel k.links k.ready_list (general_tag pthread)
        assert (not found)
        if found
            then panic
            else ok (
                with_status
                  (record k { links = list_push k.links k.ready_list (general_tag pthread) })
                  pthread task_ready))
  ok (record k' { ready_lock = false; eflags = (intr_set_status old eflags).1 })

-- `threadSupportInit` without its messages; `name` is the address of "main".
pub thread_support_init : ℕ → Kernel → ℕ → Run Kernel
thread_support_init fuel k name =
    make_main_thread fuel
      (record k {
        links = list_init (list_init k.links k.ready_list) k.all_list;
        ready_lock = false;
        all_lock = false;
        tag_lock = false;
        pid_lock = false;
      })
      name

-- `intrTimerHandler` of device/timer.c; the processor has turned interrupts off.
pub intr_timer_handler : ℕ → Kernel → Run Kernel
intr_timer_handler fuel k = do
  let cur = k.current
  assert (k.tasks.stack_magic cur == stack_magic_value)
  let left = (k.tasks.ticks cur + 2 ^ 8 - 1) % 2 ^ 8
  let k' = record k {
    tasks = record k.tasks {
      elapsed_ticks = update k.tasks.elapsed_ticks cur ((k.tasks.elapsed_ticks cur + 1) % 2 ^ 32);
      ticks = update k.tasks.ticks cur left;
    };
    ticks = (k.ticks + 1) % 2 ^ 32;
  }
  if left == 0 then schedule fuel k' else ok k'
