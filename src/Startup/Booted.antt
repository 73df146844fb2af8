-- ===== src/Startup/Booted.antt =====
-- The machine behind `initAll` of kernel/init.c.
use holo_os.Base.{
  ℕ, ◌+◌, ◌^◌, ◌<◌, ◌≤◌, ◌≡◌, ◌≢◌, ◌⊎◌, refl, ◌==◌, if◌then◌else◌, List, [], ◌∷◌, length, arith,
}
use holo_os.Base.Run.{ok}
use holo_os.CString.Text.Strings.{IsString}
use holo_os.CString.Text.Copy.{IsString-moved, strcpy_lem}
use holo_os.Interrupt.{intr_off, intr_get_status, register_handler}
use holo_os.Interrupt.Gates.{register_handler-exception_init}
use holo_os.Ioqueue.Ring.{IsQueue, ioqueue_init_lem}
use holo_os.Ioqueue.Waiting.{init_queue}
use holo_os.Keyboard.Typing.{keyboard_init}
use holo_os.LinkedList.Segment.{IsList}
use holo_os.Memory.Heap.{mem_init, block_desc_init}
use holo_os.Memory.Pool.{pools_of, null, mem_bitmap_base}
use holo_os.Memory.Pool.Layout.{used_memory, mem_pool_init_lem}
use holo_os.Syscall.{syscall_init}
use holo_os.Thread.{Kernel, name_offset, all_list_tag}
use holo_os.Thread.Boot.{IsBoot, thread_support_init_lem}
use holo_os.Thread.Turns.{IsRunning}
use holo_os.Timer.{timer_init}
use holo_os.Startup.{Addresses, Machine, idt_init, init_devices, init_all}

-- The handler of each interrupt of the table.
abbrev pub handler_of : Addresses → ℕ → ℕ
handler_of a i =
    if i == 0x20
    then a.intr_timer_handler
    else if i == 0x21
    then a.intr_keyboard_handler
    else a.general_intr_handler

handlers_lem :
    (a : Addresses) (m : Machine) (i : ℕ)
    → i < 0x81
    → (init_devices a (idt_init a m)).handlers.idt_table i ≡ handler_of a i
unfolding init_devices idt_init keyboard_init timer_init register_handler
handlers_lem a m i lt =
    let h =
      register_handler-exception_init a.general_intr_handler a.unknown a.first_names a.last_names
        m.handlers 0x21 a.intr_keyboard_handler i (omega arith) lt in
    ground (arith, h)

IsRunning-esp0 : (k : Kernel) (esp0 : ℕ) → IsRunning k [] → IsRunning (record k { esp0 = esp0 }) []
IsRunning-esp0 k esp0 v = record {
  sched = record {
    ready = v.sched.ready;
    waiting = tt;
    not_null = v.sched.not_null;
    cur_tag = v.sched.cur_tag;
    cur_out = v.sched.cur_out;
    ready_free = v.sched.ready_free;
    tag_free = v.sched.tag_free;
    off = v.sched.off;
  };
  run = v.run;
  cur_healthy = record {
    magic = v.cur_healthy.magic;
    priority_pos = v.cur_healthy.priority_pos;
    priority_fits = v.cur_healthy.priority_fits;
    ticks_pos = v.cur_healthy.ticks_pos;
    ticks_fit = v.cur_healthy.ticks_fit;
  };
  healthy = tt;
}

-- What `initAll` needs of the machine that the loader leaves: 2 MB to 258 MB of memory behind the
-- loader's count, the heads of the lists and the tags of the running thread apart, interrupts off,
-- and the name `cs` outside of the bitmaps' pages and apart from its copy.
pub record Loaded (a : Addresses) (m : Machine) (cs : List ℕ) : Type 0 where
  pub enough : used_memory ≤ m.kernel.store.words 0xb06
  pub at_most : m.kernel.store.words 0xb06 < used_memory + 2 ^ 28
  pub apart : IsBoot m.kernel
  pub alive : m.kernel.current ≢ null
  pub off : intr_get_status m.kernel.eflags ≡ intr_off
  pub name : IsString m.kernel.store.bytes a.main_name cs
  pub name_set : a.main_name ≢ null
  pub name_out : (a.main_name + length cs < mem_bitmap_base) ⊎ (0xc009e000 ≤ a.main_name)
  pub name_copy :
      (m.kernel.current + name_offset ≤ a.main_name)
      ⊎ (a.main_name + length cs < m.kernel.current + name_offset)

-- What `initAll` leaves: the pools of the memory's size with every frame free, the running thread
-- with 31 ticks and no other, the handlers of the timer and the keyboard at their interrupts and the
-- general one at all others, and an empty queue of the keyboard.
pub record Booted (a : Addresses) (m m' : Machine) : Type 0 where
  pub pools : m'.pools ≡ pools_of (m.kernel.store.words 0xb06)
  pub running : IsRunning m'.kernel []
  pub all : IsList m'.kernel.links m'.kernel.all_list (all_list_tag m.kernel.current ∷ [])
  pub ticks : m'.kernel.tasks.ticks m'.kernel.current ≡ 31
  pub handlers : (i : ℕ) → i < 0x81 → m'.handlers.idt_table i ≡ handler_of a i
  pub keyboard : IsQueue m'.keyboard_buf.ring []
  pub calls : m'.syscall_table ≡ syscall_init m.syscall_table

-- From any machine that the loader leaves, `initAll` ends without a failed assertion, and the
-- components stand as their parts need them.
pub init_all_lem :
    (fuel : ℕ) (a : Addresses) (m : Machine) (cs : List ℕ)
    → 1 < fuel
    → length cs < fuel
    → Loaded a m cs
    → (m' : Machine) × (init_all fuel a m ≡ ok m') × Booted a m m'
unfolding init_all init_devices idt_init mem_init keyboard_init init_queue
init_all_lem fuel a m cs lt long v =
    let memory = m.kernel.store.words 0xb06 in
    let (bytes, run, kernel_free, user_free, pages_free, same) =
      mem_pool_init_lem m.kernel.store.bytes memory v.enough v.at_most in
    let out_of = v.name_out in
    let name =
      IsString-moved m.kernel.store.bytes bytes a.main_name a.main_name cs
        (λ i le. same (a.main_name + i) (omega arith)) v.name in
    let k : Kernel = record m.kernel {
      store = record m.kernel.store { bytes = bytes };
      links = (block_desc_init m.kernel.links a.k_block_descs).1;
    } in
    let copy =
      strcpy_lem fuel bytes (k.current + name_offset) a.main_name cs long (omega arith) v.name_set
        name v.name_copy in
    let (k', boot, running, all, ticks) =
      thread_support_init_lem k v.apart v.alive fuel a.main_name _ copy lt v.off in
    (
      init_devices a (record (idt_init a m) {
        kernel = k';
        pools = pools_of memory;
        k_block_descs = (block_desc_init m.kernel.links a.k_block_descs).0;
      }),
      rw (run, boot) refl,
      record {
        pools = refl;
        running = IsRunning-esp0 k' _ running;
        all = all;
        ticks = ticks;
        handlers = handlers_lem a m;
        keyboard = ioqueue_init_lem m.keyboard_buf.ring;
        calls = refl;
      },
    )
