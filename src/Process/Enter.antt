-- ===== src/Process/Enter.antt =====
-- `startProcess` of kernel/process.c: with which registers a process enters user mode.
use holo_os.Base.{ℕ, ◌/◌, ◌+◌, ◌%◌, ◌^◌, ◌<◌, ◌≤◌, ◌≡◌, refl, ap, ◌∙◌, Bool, true, false, arith}
use holo_os.Base.Memory.{Mem, update}
use holo_os.Base.Run.{Run, ok}
use holo_os.Memory.Alloc.{get_page}
use holo_os.Memory.Alloc.Pages.{GotPage, mapped, no_frame, get_page_lem}
use holo_os.Memory.Paging.{Store}
use holo_os.Memory.Paging.Window.{Same}
use holo_os.Bitmap.{bitmap_set}
use holo_os.Bitmap.Set.{IsBytes}
use holo_os.Memory.Alloc.{space}
use holo_os.Memory.Pool.Frames.{frames, is_used}
use holo_os.Memory.Pool.Layout.{IsPool}
use holo_os.Memory.Pool.{Pool, Pools, pf_user, pg_size, sub_32, mem_pool}
use holo_os.Thread.{Kernel}
use holo_os.Process.{
  Regs, selector_u_code, selector_u_data, user_eflags, user_stack3_vaddr, intr_exit, fill_frame,
  prepared, enter_user, frame_at, start_process,
}

-- User mode at `func`, with interrupts on, all general registers 0 and the stack below `esp`.
abbrev pub user_regs : ℕ → ℕ → Regs
user_regs func esp = record {
  edi = 0;
  esi = 0;
  ebp = 0;
  ebx = 0;
  edx = 0;
  ecx = 0;
  eax = 0;
  gs = 0;
  fs = selector_u_data;
  es = selector_u_data;
  ds = selector_u_data;
  eip = func;
  cs = selector_u_code;
  eflags = user_eflags;
  esp = esp;
  ss = selector_u_data;
}

-- A frame that `startProcess` has filled, the last two words of it behind a call of `getPage`.
frame_regs :
    (w w' : Mem) (p func esp : ℕ)
    → p + 76 ≤ 0xffc00000
    → Same (fill_frame w p func) w'
    → intr_exit (update (update w' (p + 68) esp) (p + 72) selector_u_data) (p + 4)
      ≡ user_regs func esp
unfolding intr_exit fill_frame
frame_regs w w' p func esp room same =
    let f = update (update w' (p + 68) esp) (p + 72) selector_u_data in
    let stored : (i x : ℕ) → i < 64 → fill_frame w p func (p + 4 + i) ≡ x → f (p + 4 + i) ≡ x =
      λ i x lt e. let s = same (p + 4 + i) (omega arith) in ground arith in
    let at0 : f (p + 4) ≡ 0 = let s = same (p + 4) (omega arith) in ground arith in
    let esp' : f (p + 4 + 64) ≡ esp = ground arith in
    let ss' : f (p + 4 + 68) ≡ selector_u_data = ground arith in
    rw
      (
        at0,
        esp',
        ss',
        stored 4 0 (omega arith) (ground arith),
        stored 8 0 (omega arith) (ground arith),
        stored 16 0 (omega arith) (ground arith),
        stored 20 0 (omega arith) (ground arith),
        stored 24 0 (omega arith) (ground arith),
        stored 28 0 (omega arith) (ground arith),
        stored 32 0 (omega arith) (ground arith),
        stored 36 selector_u_data (omega arith) (ground arith),
        stored 40 selector_u_data (omega arith) (ground arith),
        stored 44 selector_u_data (omega arith) (ground arith),
        stored 52 func (omega arith) (ground arith),
        stored 56 selector_u_code (omega arith) (ground arith),
        stored 60 user_eflags (omega arith) (ground arith),
      )
      refl

-- What `startProcess` leaves where the call of `getPage` returned, with the page of the stack marked
-- as used in `m`: with a free frame in the user's pool a stack right below the kernel's space and the
-- pool's lock given back, and with every frame in use a stack below 4096 and the lock held.
pub data Entered (m : Mem) (p : Pool) (filename : ℕ) (r : Regs × Bool × Kernel) : Type 0 where
  entered :
      (i : ℕ)
      → i < frames p
      → is_used m p i ≡ false
      → r.0 ≡ user_regs filename 0xc0000000
      → r.1 ≡ false
      → Entered m p filename r
  no_stack :
      ((i : ℕ) → i < frames p → is_used m p i ≡ true)
      → r.0 ≡ user_regs filename 4096
      → r.1 ≡ true
      → Entered m p filename r

module _ (k : Kernel) (pools : Pools) (filename : ℕ) where
  abbrev pub stack_call : Run (ℕ × Bool × Store)
  stack_call =
      let k1 = prepared k (frame_at k) filename in
      get_page k1.store pools (k1.tasks.page_dir k1.current) (k1.tasks.user_vaddr k1.current)
        pf_user user_stack3_vaddr

  -- The mark of the stack's page in the space of the current process.
  abbrev pub stack_mark : Run Mem
  stack_mark =
      let va = k.tasks.user_vaddr k.current in
      bitmap_set k.store.bytes va.vaddr_bitmap (sub_32 user_stack3_vaddr va.vaddr_start / pg_size) 1

  module _ (m : Mem) where
    enter_user_lem :
        (r : ℕ × Bool × Store)
        → k.tasks.self_kstack k.current + 204 ≤ 0xffc00000
        → GotPage m pools.user_pool
            (fill_frame k.store.words (frame_at k) filename)
            user_stack3_vaddr
            r
        → Entered m pools.user_pool filename
            (enter_user (prepared k (frame_at k) filename) (frame_at k) r)
    enter_user_lem r room (mapped i lt free a given same) =
        entered i lt free
          (frame_regs k.store.words r.2.words (frame_at k) filename ((r.0 + pg_size) % 2 ^ 32)
              (omega arith) same
            ∙ ap (λ x. user_regs filename ((x + pg_size) % 2 ^ 32)) a)
          given
    enter_user_lem r room (no_frame all a held same) =
        no_stack all
          (frame_regs k.store.words r.2.words (frame_at k) filename ((r.0 + pg_size) % 2 ^ 32)
              (omega arith) same
            ∙ ap (λ x. user_regs filename ((x + pg_size) % 2 ^ 32)) a)
          held

    -- Where the page of the stack can be marked in the process's space and the call of `getPage`
    -- for it returns, the process enters user mode at its file's address, with interrupts on. With a
    -- free frame in the user's pool its stack lies right below the kernel's space and the pool's lock
    -- is given back; with every frame of the pool in use it starts with the stack below 4096 and the
    -- lock held.
    pub start_process_lem :
        (r : ℕ × Bool × Store)
        → k.tasks.self_kstack k.current + 204 ≤ 0xffc00000
        → stack_mark ≡ ok m
        → IsBytes m
        → IsPool pools.user_pool
        → stack_call ≡ ok r
        → (r' : Regs × Bool × Kernel) × (start_process k pools filename ≡ ok r')
          × Entered m pools.user_pool filename r'
    unfolding start_process mem_pool space
    start_process_lem r room marked h is e =
        let low : user_stack3_vaddr < 2 ^ 32 = omega arith in
        let k1 = prepared k (frame_at k) filename in
        let page =
          get_page_lem k1.store pools user_stack3_vaddr low (k1.tasks.page_dir k1.current)
            (k1.tasks.user_vaddr k1.current) pf_user m h is marked in
        (enter_user k1 (frame_at k) r, rw e refl, enter_user_lem r room (page.gives r e))
