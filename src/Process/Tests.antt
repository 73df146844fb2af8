-- ===== src/Process/Tests.antt =====
-- A new process of kernel/process.c on a machine of 32 MB, and the theorems there.
use holo_os.CString.Text.Copy.{strcpy_lem}
use holo_os.Interrupt.{intr_off, intr_get_status}
use holo_os.Interrupt.Flag.{status_of_flag}
use holo_os.LinkedList.{Links, list_init, list_insert, list_append}
use holo_os.LinkedList.Segment.{IsList}
use holo_os.Thread.{all_list_tag, stack_magic_value, thread_start}
use holo_os.Thread.Start.{IsNew, thread_start_lem}
use holo_os.Thread.Turns.{IsRunning}
use holo_os.Base.{
  ℕ, ◌-◌, ◌*◌, ◌^◌, ◌≡◌, refl, Bool, false, leb, if◌then◌else◌, inr, [], ◌∷◌, ◌+◌, arith,
}
use holo_os.Base.Bits.{test_bit, set_bit}
use holo_os.Base.Run.{ok}
use holo_os.Base.Memory.{Mem}
use holo_os.Bitmap.Set.{IsBytes}
use holo_os.Memory.Pool.Layout.{IsPool, pools_of-IsPools}
use holo_os.Bitmap.{bitmap_scan, bitmap_test, bitmap_set}
use holo_os.CString.Block.{fill, memset_lem}
use holo_os.Process.{Regs, create_page_dir, fill_frame, start_process}
use holo_os.Process.Directory.{NewDir, create_page_dir_lem}
use holo_os.Process.Enter.{Entered, stack_call, stack_mark, start_process_lem}
use holo_os.Thread.{Tasks, Kernel, task_running}
use holo_os.Memory.Alloc.{
  malloc_page, vaddr_get, set_bits, map_pages, clear_pages, get_kernel_pages, get_page, space,
  below_stack, may_take,
}
use holo_os.Memory.Paging.{Store, page_table_add, pte_ptr, pde_ptr, v2p}
use holo_os.Memory.Pool.{Pools, VirtualAddr, pools_of, palloc, mem_pool, pf_kernel}

abbrev pub pools : Pools
pools = pools_of (32 * 2 ^ 20)

-- Every entry of the directory is present, and no page is mapped.
abbrev store : Store
store = record { bytes = λ a. 0; words = λ a. if leb 0xfffff000 a then 0x101007 else 0 }

abbrev pub user : VirtualAddr
user = record {
  vaddr_start = 0x8048000;
  vaddr_bitmap = record { bits = 0xc0300000; size = 0x5c00 };
}

unfoldable pub got_page :
    (s' : Store) × (malloc_page store pools user pf_kernel 1 ≡ ok (0xc0100000, s'))
unfolding pools_of mem_pool malloc_page vaddr_get set_bits map_pages palloc bitmap_scan bitmap_test
    bitmap_set test_bit set_bit page_table_add space below_stack pte_ptr pde_ptr
got_page = (_, refl)

-- The page that it leaves, with its bytes and words set to 0.
abbrev pub zeroed : Store
zeroed = record {
  bytes = fill got_page.0.bytes 0xc0100000 0 4096;
  words = fill got_page.0.words 0xc0100000 0 4096;
}

pub new_page : get_kernel_pages store pools user 1 ≡ ok (0xc0100000, zeroed)
unfolding get_kernel_pages clear_pages
new_page =
    rw
      (
        got_page.1,
        memset_lem got_page.0.bytes 0xc0100000 0 4096,
        memset_lem got_page.0.words 0xc0100000 0 4096,
      )
      refl

-- A process whose control block is at 0xc0200000 runs.
abbrev tasks : Tasks
tasks = record {
  self_kstack = λ t. 0xc0201000 - 432;
  pid = λ t. 1;
  status = λ t. task_running;
  priority = λ t. 16;
  ticks = λ t. 16;
  elapsed_ticks = λ t. 0;
  page_dir = λ t. 0xc0300000;
  user_vaddr = λ t. user;
  u_block_desc = λ t. [];
  stack_magic = λ t. 0;
}

abbrev kernel : Kernel
kernel = record {
  store = store;
  links = record { prev = λ a. 0; next = λ a. 0 };
  tasks = tasks;
  ready_list = 1000;
  all_list = 2000;
  ready_lock = false;
  all_lock = false;
  tag_lock = false;
  pid_lock = false;
  thread_tag = 0;
  next_pid = 3;
  main_thread = 0;
  current = 0xc0200000;
  eflags = 2;
  cr3 = 0x100000;
  esp0 = 0;
  ticks = 0;
}

create_page_dir_lem_example :
    (k' : Kernel) × (create_page_dir kernel pools ≡ ok (0xc0100000, k'))
    × NewDir zeroed.words k'.store.words 0xc0100000 (v2p zeroed.words 0xc0100000)
create_page_dir_lem_example =
    create_page_dir_lem kernel pools 0xc0100000 zeroed new_page (omega arith) refl (omega arith)

stack : (r : ℕ × Bool × Store) × (stack_call kernel pools 0x8048000 ≡ ok r)
unfolding fill_frame get_page pools_of mem_pool palloc bitmap_scan bitmap_test bitmap_set test_bit
    set_bit page_table_add space may_take pte_ptr pde_ptr
stack = (_, refl)

stack_marked : (m : Mem) × (stack_mark kernel pools 0x8048000 ≡ ok m)
unfolding bitmap_set test_bit set_bit
stack_marked = (_, refl)

stack_marked-IsBytes : IsBytes stack_marked.0
unfolding stack_marked
stack_marked-IsBytes a = ground arith

user_pool-IsPool : IsPool pools.user_pool
user_pool-IsPool = (pools_of-IsPools (32 * 2 ^ 20) (omega arith) (omega arith)).0.user

start_process_lem_example :
    (r' : Regs × Bool × Kernel) × (start_process kernel pools 0x8048000 ≡ ok r')
    × Entered stack_marked.0 pools.user_pool 0x8048000 r'
start_process_lem_example =
    start_process_lem kernel pools 0x8048000 stack_marked.0 stack.0 (omega arith) stack_marked.1
      stack_marked-IsBytes user_pool-IsPool stack.1

-- The process alone, with an empty ready list, itself in the list of all threads and an empty name.
abbrev links : Links
links = list_append (list_init (list_init kernel.links 1000) 2000) 2000 (all_list_tag 0xc0200000)

abbrev pub alone : Kernel
alone = record kernel {
  links = links;
  tasks = record tasks { stack_magic = λ t. stack_magic_value };
}

flags_off : intr_get_status 2 ≡ intr_off
flags_off = status_of_flag intr_off 2 refl

pub alone-IsRunning : IsRunning alone []
unfolding list_append list_init list_insert
alone-IsRunning = record {
  sched = record {
    ready = record { chain = (refl, refl); apart = omega arith };
    waiting = tt;
    not_null = omega arith;
    cur_tag = omega arith;
    cur_out = λ e. absurd cc;
    ready_free = refl;
    tag_free = refl;
    off = flags_off;
  };
  run = refl;
  cur_healthy = record {
    magic = refl;
    priority_pos = omega arith;
    priority_fits = omega arith;
    ticks_pos = omega arith;
    ticks_fit = omega arith;
  };
  healthy = tt;
}

pub alone-all : IsList links 2000 (all_list_tag 0xc0200000 ∷ [])
unfolding list_append list_init list_insert
alone-all = record { chain = (refl, refl, (refl, refl)); apart = omega arith }

pub alone-IsNew : IsNew alone [] (all_list_tag 0xc0200000 ∷ []) 0xc0100000
alone-IsNew = record {
  apart = omega arith;
  alive = omega arith;
  other = omega arith;
  no_main = omega arith;
}

pub no_name : zeroed.bytes 500 ≡ 0
unfolding got_page fill
no_name = ground arith

thread_start_lem_example :
    (k' : Kernel) × (thread_start 5 alone pools 0xc0003000 500 31 0xc0004000 7
      ≡ ok (0xc0100000, k'))
    × IsRunning k' (0xc0100000 ∷ [])
    × IsList k'.links k'.all_list (all_list_tag 0xc0200000 ∷ all_list_tag 0xc0100000 ∷ [])
    × (k'.current ≡ 0xc0200000)
    × (k'.tasks.ticks 0xc0100000 ≡ 31)
thread_start_lem_example =
    thread_start_lem alone [] (all_list_tag 0xc0200000 ∷ []) alone-IsRunning alone-all refl refl
      0xc0100000 alone-IsNew pools zeroed new_page 5 500 _
      (strcpy_lem 5 zeroed.bytes (0xc0100000 + 12) 500 [] (omega arith) (omega arith) (omega arith)
        no_name (inr (omega arith)))
      (omega arith) (omega arith) 0xc0003000 31 0xc0004000 7 (omega arith) (omega arith)
