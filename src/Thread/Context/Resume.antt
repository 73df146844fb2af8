-- ===== src/Thread/Context/Resume.antt =====
-- kernel/switch.S: where a thread goes on behind a switch.
use holo_os.Base.{ℕ, ◌+◌, ◌-◌, ◌*◌, ◌%◌, ◌^◌, ◌<◌, ◌≤◌, ◌≡◌, ◌≢◌, refl, ap, ◌∙◌, sym, arith}
use holo_os.Base.Memory.{Mem, update, update_self, update_ne}
use holo_os.Thread.{Kernel, thread_create, intr_stack_size, thread_stack_size}
use holo_os.Thread.Context.{Cpu, Machine, at_esp, save, switch_to}

-- A call of `switchTo` by the thread `cur` for the thread `next`.
pub record IsCall (m : Machine) (cur next : ℕ) : Type 0 where
  pub room : 16 ≤ m.cpu.esp
  pub first : at_esp m 4 ≡ cur
  pub second : at_esp m 8 ≡ next

-- An address that `switchTo` does not push to.
pub data IsOutside (m : Machine) (x : ℕ) : Type 0 where
  below : x < m.cpu.esp - 16 → IsOutside m x
  above : m.cpu.esp ≤ x → IsOutside m x

-- What a frame at `sp` holds, in the order of `struct threadStack`, and the stack behind its return.
abbrev pub frame : Mem → ℕ → Cpu
frame w sp = record {
  ebp = w sp;
  ebx = w (sp + 4);
  edi = w (sp + 8);
  esi = w (sp + 12);
  eip = w (sp + 16);
  esp = sp + 20;
}

frame-cong :
    (w w' : Mem) (sp : ℕ) → ((i : ℕ) → i < 20 → w (sp + i) ≡ w' (sp + i)) → frame w sp ≡ frame w' sp
frame-cong w w' sp h =
    let h0 : w sp ≡ w' sp =
      let e : sp + 0 ≡ sp = omega arith in ap w (sym e) ∙ h 0 (omega arith) ∙ ap w' e in
    rw (h0, h 4 (omega arith), h 8 (omega arith), h 12 (omega arith), h 16 (omega arith)) refl

module _ (m : Machine) (cur next : ℕ) (call : IsCall m cur next) where
  saved-args : (at_esp (save m) 20 ≡ cur) × (at_esp (save m) 24 ≡ next)
  saved-args =
      let r = call.room in
      let f = call.first in
      let s = call.second in
      let e1 : m.cpu.esp - 4 - 4 - 4 - 4 + 20 ≡ m.cpu.esp + 4 = omega arith in
      let e2 : m.cpu.esp - 4 - 4 - 4 - 4 + 24 ≡ m.cpu.esp + 8 = omega arith in
      (rw e1 (ground arith), rw e2 (ground arith))

  saved : (switch_to m).self_kstack ≡ update m.self_kstack cur (m.cpu.esp - 16)
  unfolding switch_to
  saved =
      let e : m.cpu.esp - 4 - 4 - 4 - 4 ≡ m.cpu.esp - 16 = omega arith in
      ap (λ c. update m.self_kstack c (m.cpu.esp - 4 - 4 - 4 - 4)) saved-args.0
      ∙ ap (update m.self_kstack cur) e

  -- Words that the four pushes do not reach.
  kept : (x : ℕ) → IsOutside m x → (save m).words x ≡ m.words x
  kept x (below lt) = let r = call.room in ground arith
  kept x (above le) = let r = call.room in ground arith

  -- The registers come from the frame that the stack pointer of `next` points to.
  restored :
      cur ≢ next
      → ((i : ℕ) → i < 20 → IsOutside m (m.self_kstack next + i))
      → (switch_to m).cpu ≡ frame m.words (m.self_kstack next)
  unfolding switch_to
  restored ne out =
      let p : update m.self_kstack (at_esp (save m) 20) (save m).cpu.esp (at_esp (save m) 24)
          ≡ m.self_kstack next =
        rw (saved-args.0, saved-args.1) (update_ne m.self_kstack cur _ next ne) in
      let sp = m.self_kstack next in
      let from : (i : ℕ) → i < 20 → (save m).words (sp + i) ≡ m.words (sp + i) =
        λ i lt. kept (sp + i) (out i lt) in
      ap (frame (save m).words) p ∙ frame-cong (save m).words m.words sp from

  switch_to-kept : (x : ℕ) → IsOutside m x → (switch_to m).words x ≡ m.words x
  unfolding switch_to
  switch_to-kept = kept

  kept_top : (save m).words (m.cpu.esp - 16 + 16) ≡ m.words m.cpu.esp
  kept_top = let r = call.room in ground arith

  own :
      frame (save m).words (m.cpu.esp - 16) ≡ record m.cpu { eip = at_esp m 0; esp = m.cpu.esp + 4 }
  own =
      let r = call.room in
      let w = (save m).words in
      let sp = m.cpu.esp - 16 in
      let e : m.cpu.esp + 0 ≡ m.cpu.esp = omega arith in
      let e0 : w sp ≡ m.cpu.ebp = ground arith in
      let e4 : w (sp + 4) ≡ m.cpu.ebx = ground arith in
      let e8 : w (sp + 8) ≡ m.cpu.edi = ground arith in
      let e12 : w (sp + 12) ≡ m.cpu.esi = ground arith in
      let e16 : w (sp + 16) ≡ at_esp m 0 = kept_top ∙ ap m.words (sym e) in
      let top : sp + 20 ≡ m.cpu.esp + 4 = omega arith in rw (e0, e4, e8, e12, e16, top) refl

-- A thread that `switchTo` left goes on behind its call with the registers that it had, when another
-- thread switches to it later, whatever happened meanwhile off the part of its stack in which they
-- are saved.
pub resume_lem :
    (m m' : Machine) (cur next other : ℕ)
    → IsCall m cur next
    → IsCall m' other cur
    → other ≢ cur
    → m'.self_kstack cur ≡ (switch_to m).self_kstack cur
    → ((i : ℕ) → i < 20 → m'.words (m.cpu.esp - 16 + i) ≡ (switch_to m).words (m.cpu.esp - 16 + i))
    → ((i : ℕ) → i < 20 → IsOutside m' (m.cpu.esp - 16 + i))
    → (switch_to m').cpu ≡ record m.cpu { eip = at_esp m 0; esp = m.cpu.esp + 4 }
unfolding switch_to
resume_lem m m' cur next other call call' ne ptr whole out =
    let sp : m'.self_kstack cur ≡ m.cpu.esp - 16 =
      ptr
      ∙ ap (λ f. f cur) (saved m cur next call)
      ∙ update_self m.self_kstack cur (m.cpu.esp - 16) in
    let got = restored m' other cur call' ne (rw sp out) in
    got
    ∙ ap (frame m'.words) sp
    ∙ frame-cong m'.words (save m).words (m.cpu.esp - 16) whole
    ∙ own m cur next call

module _ (k : Kernel) (task kernel_thread func arg : ℕ) where
  abbrev created : Kernel
  created = thread_create k task kernel_thread func arg

  -- It points to the 32 bytes of the thread's first frame, 432 bytes under the top of the page.
  pub created-self_kstack :
      created.tasks.self_kstack task
      ≡ (k.tasks.self_kstack task + 2 * 2 ^ 32 - 4 * intr_stack_size - 4 * thread_stack_size)
        % 2 ^ 32
  unfolding thread_create
  created-self_kstack = ground arith

  created-words :
      2 ^ 12 ≤ k.tasks.self_kstack task
      → k.tasks.self_kstack task < 2 ^ 32
      → (created.store.words (created.tasks.self_kstack task + 16) ≡ kernel_thread)
        × (created.store.words (created.tasks.self_kstack task + 24) ≡ func)
        × (created.store.words (created.tasks.self_kstack task + 28) ≡ arg)
  unfolding thread_create
  created-words low high = (ground arith, ground arith, ground arith)

-- The first switch to a new thread enters `kernelThread` with its function and its argument in the
-- places of the two parameters, if nothing was stored meanwhile in the 32 bytes that `threadCreate`
-- fills.
pub thread_create-first :
    (k : Kernel) (task kernel_thread func arg : ℕ) (m : Machine) (other : ℕ)
    → 2 ^ 12 ≤ k.tasks.self_kstack task
    → k.tasks.self_kstack task < 2 ^ 32
    → IsCall m other task
    → other ≢ task
    → m.self_kstack task ≡ (thread_create k task kernel_thread func arg).tasks.self_kstack task
    → ((i : ℕ)
        → i < 32
        → m.words (m.self_kstack task + i)
          ≡ (thread_create k task kernel_thread func arg).store.words (m.self_kstack task + i))
    → ((i : ℕ) → i < 32 → IsOutside m (m.self_kstack task + i))
    → ((switch_to m).cpu.eip ≡ kernel_thread)
      × ((switch_to m).words ((switch_to m).cpu.esp + 4) ≡ func)
      × ((switch_to m).words ((switch_to m).cpu.esp + 8) ≡ arg)
thread_create-first k task kernel_thread func arg m other low high call ne ptr whole out =
    let got = restored m other task call ne (λ i lt. out i (omega arith)) in
    let sp = m.self_kstack task in
    let (is_eip, is_func, is_arg) = created-words k task kernel_thread func arg low high in
    let copy : (i : ℕ)
        → i < 32
        → m.words (sp + i)
          ≡ (created k task kernel_thread func arg).store.words
              ((created k task kernel_thread func arg).tasks.self_kstack task + i) =
      λ i lt.
        whole i lt ∙ ap (λ s. (created k task kernel_thread func arg).store.words (s + i)) ptr in
    let word : (i : ℕ) → i < 32 → (switch_to m).words (sp + i) ≡ m.words (sp + i) =
      λ i lt. switch_to-kept m other task call (sp + i) (out i lt) in
    let esp : (switch_to m).cpu.esp ≡ sp + 20 = ap (λ c. c.esp) got in
    (
      ap (λ c. c.eip) got ∙ copy 16 (omega arith) ∙ is_eip,
      ap (switch_to m).words (omega arith)
          ∙ word 24 (omega arith)
          ∙ copy 24 (omega arith)
          ∙ is_func,
      ap (switch_to m).words (omega arith) ∙ word 28 (omega arith) ∙ copy 28 (omega arith) ∙ is_arg,
    )
