-- ===== src/Interrupt/Gates.antt =====
-- The descriptor table and the handlers of kernel/interrupt.c.
use holo_os.Base.{
  ℕ, zero, suc, ◌+◌, ◌*◌, ◌/◌, ◌^◌, ◌<◌, ◌≡◌, refl, sym, ap, ◌∙◌, Bool-cases, ==→≡, inl, inr, true,
  false, ◌&&◌, leb, ltb, ◌==◌, if◌then◌else◌, List, arith,
}
use holo_os.Base.Memory.{update}
use holo_os.Base.Masks.{and_high, and_low}
use holo_os.Interrupt.{
  GateDesc, make_idt_desc, idt_desc_attr_dpl0, set_gate, idt_loop, idt_desc_init, Handlers,
  handlers_loop, exception_init, register_handler,
}

-- The entry point that the processor reads in a gate.
abbrev pub gate_offset : GateDesc → ℕ
gate_offset d = d.func_offset_high_word * 2 ^ 16 + d.func_offset_low_word

pub make_idt_desc-offset :
    (attr func : ℕ) → func < 2 ^ 32 → gate_offset (make_idt_desc attr func) ≡ func
unfolding make_idt_desc
make_idt_desc-offset attr func lt =
    omega (arith, and_low 16 func, and_high 16 func 0xffff, and_low 16 (func / 2 ^ 16))

make_idt_desc-rest :
    (attr func : ℕ)
    → ((make_idt_desc attr func).attribute ≡ attr) × ((make_idt_desc attr func).selector ≡ 8)
unfolding make_idt_desc
make_idt_desc-rest attr func = (refl, refl)

idt_loop_lem :
    (entries : ℕ → ℕ) (rounds i : ℕ) (idt : ℕ → GateDesc) (j : ℕ)
    → idt_loop entries rounds i idt j ≡ (
        if leb i j && ltb j (i + rounds)
        then make_idt_desc idt_desc_attr_dpl0 (entries j)
        else idt j)
unfolding idt_loop
idt_loop_lem entries zero i idt j = ground arith
idt_loop_lem entries (suc rounds) i idt j =
    let idt' = set_gate idt i (make_idt_desc idt_desc_attr_dpl0 (entries i)) in
    idt_loop_lem entries rounds (i + 1) idt' j ∙ elim (Bool-cases (j == i)) [
      | inl here ↦
          let e = ==→≡ j i here in
          let low : (leb (i + 1) j && ltb j (i + 1 + rounds)) ≡ false = ground arith in
          let high : (leb i j && ltb j (i + suc rounds)) ≡ true = ground arith in
          rw (low, high, here) (ap (λ k. make_idt_desc idt_desc_attr_dpl0 (entries k)) (sym e))
      | inr other ↦
          let same : (leb (i + 1) j && ltb j (i + 1 + rounds))
              ≡ (leb i j && ltb j (i + suc rounds)) =
            ground arith in
          rw (same, other) refl
    ]

-- After `idtDescInit` each of the 0x81 gates leads to its entry, at privilege level 0, except that
-- the gate of system calls leads to their handler and may be used from level 3.
pub idt_desc_init_lem :
    (entries : ℕ → ℕ) (syscall_handler : ℕ) (idt : ℕ → GateDesc) (i : ℕ)
    → ((j : ℕ) → entries j < 2 ^ 32)
    → syscall_handler < 2 ^ 32
    → i < 0x81
    → (gate_offset (idt_desc_init entries syscall_handler idt i)
        ≡ (if i == 0x80 then syscall_handler else entries i))
      × ((idt_desc_init entries syscall_handler idt i).attribute
          ≡ (if i == 0x80 then 0xee else 0x8e))
      × ((idt_desc_init entries syscall_handler idt i).selector ≡ 8)
unfolding idt_desc_init
idt_desc_init_lem entries h idt i small small' lt =
    let loop = idt_loop_lem entries 0x81 0 idt i in
    let inside : (leb 0 i && ltb i (0 + 0x81)) ≡ true = ground arith in
    let gate : idt_loop entries 0x81 0 idt i ≡ make_idt_desc idt_desc_attr_dpl0 (entries i) =
      rw inside at loop in
    elim (Bool-cases (i == 0x80)) [
      | inl call ↦ rw call (
        make_idt_desc-offset 0xee h small',
        (make_idt_desc-rest 0xee h).0,
        (make_idt_desc-rest 0xee h).1,
      )
      | inr other ↦
          rw (other, gate)
            (
              make_idt_desc-offset 0x8e (entries i) (small i),
              (make_idt_desc-rest 0x8e (entries i)).0,
              (make_idt_desc-rest 0x8e (entries i)).1,
            )
    ]

handlers_loop_lem :
    (general unknown rounds i : ℕ) (h : Handlers) (j : ℕ)
    → (handlers_loop general unknown rounds i h).idt_table j
      ≡ (if leb i j && ltb j (i + rounds) then general else h.idt_table j)
unfolding handlers_loop
handlers_loop_lem general unknown zero i h j = ground arith
handlers_loop_lem general unknown (suc rounds) i h j =
    let h' : Handlers = record {
      idt_table = update h.idt_table i general;
      intr_name = update h.intr_name i unknown;
    } in
    ground (arith, handlers_loop_lem general unknown rounds (i + 1) h' j)

-- After `exceptionInit` and any one `registerHandler` for an interrupt of the table, that interrupt
-- has its handler and every other of the table the general one.
pub register_handler-exception_init :
    (general unknown : ℕ) (first last : List ℕ) (h : Handlers) (n func i : ℕ)
    → n < 0x81
    → i < 0x81
    → (register_handler n func (exception_init general unknown first last h)).idt_table i
      ≡ (if i == n then func else general)
unfolding register_handler exception_init
register_handler-exception_init general unknown first last h n func i ln li =
    let all = handlers_loop_lem general unknown 0x81 0 h i in ground arith
