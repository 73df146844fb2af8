-- ===== src/Syscall.antt =====
-- System calls: the table and the functions of lib/kernel/syscallK.c, `syscallHandler` of
-- lib/kernel/kernel.S and the user's side in lib/kernel/syscall.c. The table holds the functions
-- themselves. The kernel's stack is a memory of words of its own: a function that the handler calls
-- leaves the words above its frame alone. A call through an entry of the table that was not stored
-- has no meaning here, and is a panic of the model.
pub mod Saved
pub mod User
pub mod Print
mod Tests
use holo_os.Base.{ℕ, ◌+◌, ◌-◌, ◌==◌, Bool, not, if◌then◌else◌, Option, none, some, List, [], ◌∷◌}
use holo_os.Base.Memory.{Mem, update}
use holo_os.Base.Run.{Run, ok, panic, out_of_fuel, assert, ◌>>=◌, ◌>>◌}
use holo_os.CString.Text.{strlen}
use holo_os.Memory.Heap.{MemBlockDesc}
use holo_os.Memory.Heap.Calls.{Heap, sys_malloc, sys_free}
use holo_os.Memory.Pool.{Pools, null}
use holo_os.Process.{Regs, intr_exit}
use holo_os.Screen.{Screen, puts}
use holo_os.Thread.{Kernel}

-- `enum SYSCALL_FUNC`, include/kernel/syscall.h
pub data SyscallFunc : Type 0 where
  nr_getpid nr_write nr_malloc nr_free : SyscallFunc

abbrev pub number : SyscallFunc → ℕ
number nr_getpid = 0
number nr_write = 1
number nr_malloc = 2
number nr_free = 3

-- What the calls work on: the kernel, the heap's descriptors, counts and marks, and the screen.
pub record System : Type 0 where
  pub kernel : Kernel
  pub desc : ℕ → Option MemBlockDesc
  pub cnt : Mem
  pub large : ℕ → Bool
  pub k_block_descs : List MemBlockDesc
  pub pools : Pools
  pub screen : Screen
  -- `consoleLock.holder`, a thread or NULL
  pub console_holder : ℕ

abbrev pub heap_of : System → Heap
heap_of s = record {
  store = s.kernel.store;
  links = s.kernel.links;
  desc = s.desc;
  cnt = s.cnt;
  large = s.large;
}

abbrev pub with_heap : System → Heap → System
with_heap s h = record s {
  kernel = record s.kernel { store = h.store; links = h.links };
  desc = h.desc;
  cnt = h.cnt;
  large = h.large;
}

-- The function of an entry, and the argument that it reads.
pub data Entry : Type 0 where
  get_pid_entry write_entry malloc_entry free_entry : Entry

pub sys_getpid : System → Run (ℕ × System)
sys_getpid s = ok (s.kernel.tasks.pid s.kernel.current, s)

-- `consolePuts` of device/console.c. While another thread has the console's lock, `lockAcquire`
-- does not return before that thread goes on, which is no step of this call: the call runs out of
-- fuel. Threads at the lock in any order are those of Sync and Console.
pub console_puts : ℕ → System → ℕ → Run System
console_puts fuel s str = if not (s.console_holder == null) then out_of_fuel else do
  let taken = record s { console_holder = s.kernel.current }
  screen ← puts fuel s.kernel.store.bytes s.screen str
  assert (taken.console_holder == s.kernel.current)
  ok (record taken { screen = screen; console_holder = null })

pub sys_write : ℕ → System → ℕ → Run (ℕ × System)
sys_write fuel s str = do
  s' ← console_puts fuel s str
  len ← strlen fuel s'.kernel.store.bytes str
  ok (len, s')

-- `sysMalloc` and `sysFree` of the current thread.
pub malloc_call : ℕ → System → ℕ → Run (ℕ × System)
malloc_call fuel s size = do
  let k = s.kernel
  let page_dir = k.tasks.page_dir k.current
  let descs = if page_dir == null then s.k_block_descs else k.tasks.u_block_desc k.current
  (ptr, h) ← sys_malloc fuel (heap_of s) s.pools page_dir (k.tasks.user_vaddr k.current) descs size
  ok (ptr, with_heap s h)

-- `sysFree` returns nothing: `eax` is what the function leaves in it.
pub free_call : ℕ → ℕ → System → ℕ → Run (ℕ × System)
free_call eax fuel s ptr = do
  let k = s.kernel
  h ←
      sys_free fuel (heap_of s) s.pools (k.tasks.page_dir k.current) (k.tasks.user_vaddr k.current)
        ptr
  ok (eax, with_heap s h)

pub call_entry : ℕ → ℕ → System → Entry → ℕ → Run (ℕ × System)
call_entry eax fuel s get_pid_entry arg1 = sys_getpid s
call_entry eax fuel s write_entry arg1 = sys_write fuel s arg1
call_entry eax fuel s malloc_entry arg1 = malloc_call fuel s arg1
call_entry eax fuel s free_entry arg1 = free_call eax fuel s arg1

abbrev pub store_entry : (ℕ → Option Entry) → SyscallFunc → Entry → ℕ → Option Entry
store_entry table nr e i = if i == number nr then some e else table i

pub syscall_init : (ℕ → Option Entry) → ℕ → Option Entry
syscall_init table =
    let t1 = store_entry table nr_getpid get_pid_entry in
    let t2 = store_entry t1 nr_write write_entry in
    let t3 = store_entry t2 nr_malloc malloc_entry in store_entry t3 nr_free free_entry

-- The memory with words stored one behind the other from `p` on, the first one pushed last.
pub pushed : Mem → ℕ → List ℕ → Mem
pushed w p [] = w
pushed w p (x ∷ xs) = update (pushed w (p + 4) xs) p x

-- What `int` pushes for a change of level, `push 0`, the segment registers and `pushad`, from the last
-- word at `sp` on.
abbrev pub frame_words : ℕ → Regs → List ℕ
frame_words sp r =
    r.edi
    ∷ r.esi
    ∷ r.ebp
    ∷ (sp + 32)
    ∷ r.ebx
    ∷ r.edx
    ∷ r.ecx
    ∷ r.eax
    ∷ r.gs
    ∷ r.fs
    ∷ r.es
    ∷ r.ds
    ∷ 0
    ∷ r.eip
    ∷ r.cs
    ∷ r.eflags
    ∷ r.esp
    ∷ r.ss
    ∷ []

-- `push edx`, `push ecx` and `push ebx` below the saved registers at `sp`.
abbrev pub call_words : ℕ → Regs → List ℕ
call_words sp r = r.ebx ∷ r.ecx ∷ r.edx ∷ frame_words sp r

-- The words at `args` and behind when the handler calls: the arguments and the saved registers.
abbrev pub call_frame : Mem → ℕ → Regs → Mem
call_frame w args r = pushed w args (call_words (args + 12) r)

-- `add esp, 12`, the store to the saved `eax`, and `intrExit`.
abbrev pub leave : Mem → ℕ → ℕ → Regs × Mem
leave w args value = let w' = update w (args + 12 + 28) value in (intr_exit w' (args + 12), w')

-- `int 0x80` with the kernel's stack at `esp0`, up to the user's next instruction: the registers
-- then, the words of the stack and the system.
pub syscall_handler :
    ℕ → ℕ → (ℕ → Option Entry) → ℕ → Mem → Regs → System → Run (Regs × Mem × System)
syscall_handler eax fuel table esp0 stack r s = do
  let args = esp0 - 84
  let w = call_frame stack args r
  (value, s') ← elim (table r.eax) [ none ↦ panic | some e ↦ call_entry eax fuel s e (w args) ]
  let (r', w') = leave w args value
  ok (r', w', s')
