-- ===== src/Process/Execute.antt =====
-- `processExecute` of kernel/process.c: the thread of a new process behind those that wait.
mod Tests
use holo_os.Base.{
  ℕ, ◌+◌, ◌-◌, ◌*◌, ◌/◌, ◌%◌, ◌^◌, ◌<◌, ◌≤◌, ◌≡◌, ◌≢◌, ◌⊎◌, inl, inr, refl, sym, subst, ap, ◌∙◌,
  Bool-cases, false, ◌==◌, if◌then◌else◌, List, [], ◌∷◌, ◌++◌, length, arith,
}
use holo_os.Base.Memory.{Mem, update}
use holo_os.Base.Run.{Run, ok, ◌>>=◌, Gives, Gives-ok, Gives-any, Gives-bind}
use holo_os.Bitmap.{Bitmap, bitmap_init}
use holo_os.CString.{memcpy}
use holo_os.CString.Text.{strcpy}
use holo_os.Interrupt.{IntrStatus, intr_off, intr_get_status, intr_disable, intr_set_status}
use holo_os.Interrupt.Flag.{set_status-disable}
use holo_os.LinkedList.{Links, tail, list_append}
use holo_os.LinkedList.Distinct.{All, Absent}
use holo_os.LinkedList.Segment.{IsList}
use holo_os.LinkedList.Two.{IsList-kept, first_new, second_new, second_kept, both_appended}
use holo_os.LinkedList.Walk.{list_exist_lem}
use holo_os.Memory.Alloc.{get_kernel_pages}
use holo_os.Memory.Heap.{block_desc_init}
use holo_os.Memory.Heap.Kept.{SameNode, block_desc_init-SameNode}
use holo_os.Memory.Paging.{Store, v2p, entry}
use holo_os.Memory.Pool.{Pools, VirtualAddr, null, pg_size}
use holo_os.Process.{
  create_page_dir, create_user_vaddr_bitmap, process_execute, user_vaddr_start, u_block_desc_offset,
  default_prio,
}
use holo_os.Thread.{
  task_ready, stack_magic_value, name_offset, general_tag, all_list_tag, Kernel, set, allocate_pid,
  ready_append, all_append, thread_init, thread_create,
}
use holo_os.Thread.Ready.{tags, length-tags, Absent-member, Absent-of_tags, spin_wait-free}
use holo_os.Thread.Start.{IsNew, initialised, joined-IsRunning}
use holo_os.Thread.Turns.{IsRunning}

-- `createPageDir` changes nothing but the memory.
abbrev OnlyStore : Kernel → ℕ × Kernel → Type 0
OnlyStore k r = (s : Store) × (r.1 ≡ record k { store = s })

create_page_dir-OnlyStore :
    (k : Kernel) (pools : Pools) → Gives (OnlyStore k) (create_page_dir k pools)
unfolding create_page_dir
create_page_dir-OnlyStore k pools =
    Gives-bind (λ r. Unit) (get_kernel_pages k.store pools (k.tasks.user_vaddr k.current) 1)
      (λ r. if r.0 == null then ok (null, record k { store = r.1 }) else do
        copied ← memcpy r.1.words ((r.0 + 0x300 * 4) % 2 ^ 32) (0xfffff000 + 0x300 * 4) 1020
        let words = update copied ((r.0 + 1023 * 4) % 2 ^ 32) (entry (v2p copied r.0))
        ok (r.0, record k { store = record r.1 { words = words } }))
      (Gives-any _)
      (λ r _. elim (Bool-cases (r.0 == null)) [
        | inl e ↦ rw e (Gives-ok (null, record k { store = r.1 }) (r.1, refl))
        | inr e ↦ rw e (
            Gives-bind (λ copied. Unit)
              (memcpy r.1.words ((r.0 + 0x300 * 4) % 2 ^ 32) (0xfffff000 + 0x300 * 4) 1020)
              (λ copied.
                let words = update copied ((r.0 + 1023 * 4) % 2 ^ 32) (entry (v2p copied r.0)) in
                ok (r.0, record k { store = record r.1 { words = words } }))
              (Gives-any _) (λ copied _. Gives-ok _ (_, refl)))
      ])

-- The nodes of a list that stand outside the seven descriptors in a control block at `task`.
abbrev pub Clear : ℕ → List ℕ → Type 0
Clear task = All (λ a. (a < task + u_block_desc_offset) ⊎ (task + u_block_desc_offset + 168 ≤ a))

All-SameNode :
    (h : Links) (task : ℕ) (xs : List ℕ)
    → Clear task xs
    → All (SameNode h (block_desc_init h (task + u_block_desc_offset)).1) xs
All-SameNode h task [] out = tt
All-SameNode h task (x ∷ xs) out =
    (block_desc_init-SameNode h (task + u_block_desc_offset) x out.0, All-SameNode h task xs out.1)

-- The links behind `blockDescInit` of the control block at `task`.
abbrev pub described : Kernel → ℕ → Links
described k task = (block_desc_init k.links (task + u_block_desc_offset)).1

-- The space of the new process, with its bitmap at `bits`.
abbrev pub space_of : ℕ → VirtualAddr
space_of bits = record {
  vaddr_start = user_vaddr_start;
  vaddr_bitmap = record { bits = bits; size = (0xc0000000 - user_vaddr_start) / pg_size / 8 };
}

-- The state behind `createUserVaddrBitmap`.
abbrev pub spaced : Kernel → ℕ → Store → Mem → ℕ → Store → Mem → Kernel
spaced k task s bytes bits s2 bytes2 =
    let k1 = initialised k task s bytes default_prio in
    record k1 {
      store = record s2 { bytes = bytes2 };
      tasks = record k1.tasks { user_vaddr = set k1.tasks.user_vaddr task (space_of bits) };
    }

-- The state that `processExecute` leaves, from the one that `createPageDir` leaves.
abbrev executed : Kernel → ℕ → ℕ → Kernel → Kernel
executed k task dir k3 = record k3 {
  links =
      list_append (list_append (described k task) k.ready_list (general_tag task)) k.all_list
        (all_list_tag task);
  tasks = record k3.tasks {
    page_dir = update k3.tasks.page_dir task dir;
    u_block_desc =
        set k3.tasks.u_block_desc task (block_desc_init k.links (task + u_block_desc_offset)).0;
  };
  ready_lock = false;
  all_lock = false;
}

module _ (k : Kernel) (ts alls : List ℕ) (v : IsRunning k ts) (all : IsList k.links k.all_list alls)
    (all_free : k.all_lock ≡ false) (pid_free : k.pid_lock ≡ false) (task : ℕ)
    (new : IsNew k ts alls task) (clear : Clear task (k.ready_list ∷ tail k.ready_list ∷ tags ts))
    (clear_all : Clear task (k.all_list ∷ tail k.all_list ∷ alls)) where
  ready_described : IsList (described k task) k.ready_list (tags ts)
  ready_described =
      IsList-kept k.links (described k task) k.ready_list (tags ts)
        (All-SameNode k.links task (k.ready_list ∷ tail k.ready_list ∷ tags ts) clear) v.sched.ready

  all_described : IsList (described k task) k.all_list alls
  all_described =
      IsList-kept k.links (described k task) k.all_list alls
        (All-SameNode k.links task (k.all_list ∷ tail k.all_list ∷ alls) clear_all) all

  module _ (pools : Pools) (s : Store)
      (page : get_kernel_pages k.store pools (k.tasks.user_vaddr k.current) 1 ≡ ok (task, s))
      (fuel name : ℕ) (out : ℕ × Mem)
      (copied : strcpy fuel s.bytes (task + name_offset) name ≡ ok out) (bits : ℕ) (s2 : Store)
      (bitmap_pages : get_kernel_pages
          (record s { bytes = out.1 })
          pools
          (k.tasks.user_vaddr k.current)
          23
        ≡ ok (bits, s2))
      (bytes2 : Mem) (no_page_used : bitmap_init s2.bytes (space_of bits).vaddr_bitmap ≡ ok bytes2)
      (kernel_thread start_process filename dir : ℕ) (k3 : Kernel)
      (made : create_page_dir
          (thread_create
            (spaced k task s out.1 bits s2 bytes2)
            task
            kernel_thread
            start_process
            filename)
          pools
        ≡ ok (dir, k3))
      (enough : length ts < fuel) (enough' : length alls < fuel) where
    abbrev created : Kernel
    created =
        thread_create (spaced k task s out.1 bits s2 bytes2) task kernel_thread start_process
          filename

    only_store : OnlyStore created (dir, k3)
    only_store = (create_page_dir-OnlyStore created pools).gives (dir, k3) made

    abbrev last : Kernel
    last = executed k task dir (record created { store = only_store.0 })

    fresh : Absent (general_tag task) (null ∷ k.ready_list ∷ tail k.ready_list ∷ tags ts)
    fresh =
        first_new (described k task) k.ready_list k.all_list (general_tag task) (all_list_tag task)
          (tags ts) alls ready_described all_described new.apart

    fresh_all : Absent (all_list_tag task) (null ∷ k.all_list ∷ tail k.all_list ∷ alls)
    fresh_all =
        second_new (described k task) k.ready_list k.all_list (general_tag task) (all_list_tag task)
          (tags ts) alls ready_described all_described new.apart

    both :
        IsList last.links k.ready_list (tags ts ++ general_tag task ∷ [])
        × IsList last.links k.all_list (alls ++ all_list_tag task ∷ [])
    both =
        both_appended (described k task) k.ready_list k.all_list (general_tag task)
          (all_list_tag task) (tags ts) alls ready_described all_described new.apart

    last-IsRunning : IsRunning last (ts ++ task ∷ [])
    unfolding thread_create
    last-IsRunning =
        joined-IsRunning k ts task v new.alive new.other (Absent-of_tags task ts fresh.1.1.1) last
          both.0 refl refl (λ t ne. (ground arith, ground arith, ground arith, ground arith))
          (ground arith, ground arith, ground arith, ground arith, ground arith, ground arith) refl
          v.sched.tag_free v.sched.off

    -- `processExecute` behind `blockDescInit`.
    abbrev listed : Kernel
    listed = record last {
      links = described k task;
      ready_lock = k.ready_lock;
      all_lock = k.all_lock;
      eflags = (intr_disable k.eflags).1;
    }

    appended :
        (ready_append fuel listed (general_tag task) >>= λ k5.
        all_append fuel k5 (all_list_tag task) >>= λ k6.
        ok (record k6 { eflags = (intr_set_status (intr_disable k.eflags).0 k6.eflags).1 }))
        ≡ ok last
    unfolding ready_append all_append thread_create
    appended =
        let restored = (set_status-disable k.eflags).2 in
        let ready = spin_wait-free fuel {b = k.ready_lock} (omega arith) v.sched.ready_free in
        let alls_free = spin_wait-free fuel {b = k.all_lock} (omega arith) all_free in
        let few : length (tags ts) < fuel = rw (length-tags ts) enough in
        let walk = list_exist_lem (tags ts) ready_described fuel few (general_tag task) in
        let none_there = Absent-member (general_tag task) (tags ts) fresh.1.1.1 in
        let kept_all =
          second_kept (described k task) k.ready_list k.all_list (general_tag task)
            (all_list_tag task) (tags ts) alls ready_described all_described new.apart in
        let walk' = list_exist_lem alls kept_all fuel enough' (all_list_tag task) in
        let none_there' = Absent-member (all_list_tag task) alls fresh_all.1.1.1 in
        rw (ready, walk, none_there, alls_free, walk', none_there', restored) refl

    -- `processExecute` in a running system with free locks, where the pages for
    -- the control block, the bitmap of the user space and the page directory are got and the name is
    -- copied, ends: the new process waits behind the other ready threads and stands last in the list
    -- of all threads, both lists and the scheduler's invariant hold, the process has its directory
    -- and its own space of virtual pages, and the current thread runs on.
    pub process_execute_lem :
        (k' : Kernel) × (process_execute fuel k pools kernel_thread start_process filename name
          ≡ ok k')
        × IsRunning k' (ts ++ task ∷ [])
        × IsList k'.links k'.all_list (alls ++ all_list_tag task ∷ [])
        × (k'.current ≡ k.current)
        × (k'.tasks.page_dir task ≡ dir)
        × (k'.tasks.user_vaddr task ≡ space_of bits)
    unfolding process_execute create_user_vaddr_bitmap thread_init thread_create allocate_pid
    process_execute_lem =
        let no_main : (task == k.main_thread) ≡ false = let ne = new.no_main in ground arith in
        let pid = spin_wait-free fuel {b = k.pid_lock} (omega arith) pid_free in
        (
          last,
          rw (page, copied, pid, no_main, bitmap_pages, no_page_used, made, only_store.1) appended,
          last-IsRunning,
          both.1,
          refl,
          ground arith,
          ground arith,
        )
