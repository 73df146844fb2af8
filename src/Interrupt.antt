-- ===== src/Interrupt.antt =====
-- kernel/interrupt.c: the interrupt flag, the descriptor table and the table of handlers. Handlers
-- and strings are addresses; the messages of the initialisers on the screen are left out.
pub mod Flag
pub mod Gates
mod Tests
use Prim.Native.Nat.{bit_and}
use holo_os.Base.{
  ℕ, zero, suc, ◌+◌, ◌*◌, ◌/◌, ◌%◌, ◌^◌, Bool, true, false, not, ◌||◌, ◌==◌, if◌then◌else◌, Option,
  none, some, List, [], ◌∷◌,
}
use holo_os.Base.Memory.{Mem, update}

pub data IntrStatus : Type 0 where
  intr_off intr_on : IntrStatus

abbrev pub eflags_if : ℕ
eflags_if = 0x200

-- What `sti` and `cli` make of the flags: bit 9 set or cleared, the others as they were.
abbrev pub with_if : ℕ → ℕ → ℕ
with_if b eflags = eflags / 1024 * 1024 + b * 512 + eflags % 512

pub intr_get_status : ℕ → IntrStatus
intr_get_status eflags = if not (bit_and eflags eflags_if == 0) then intr_on else intr_off

-- The status before, and the flags after.
pub intr_enable : ℕ → IntrStatus × ℕ
intr_enable eflags = elim (intr_get_status eflags) [
  | intr_off ↦ (intr_off, with_if 1 eflags)
  | intr_on ↦ (intr_on, eflags)
]

pub intr_disable : ℕ → IntrStatus × ℕ
intr_disable eflags = elim (intr_get_status eflags) [
  | intr_on ↦ (intr_on, with_if 0 eflags)
  | intr_off ↦ (intr_off, eflags)
]

pub intr_set_status : IntrStatus → ℕ → IntrStatus × ℕ
intr_set_status intr_off eflags = (intr_get_status eflags, (intr_disable eflags).1)
intr_set_status intr_on eflags = (intr_get_status eflags, (intr_enable eflags).1)

abbrev pub idt_desc_cnt : ℕ
idt_desc_cnt = 0x81

pub record GateDesc : Type 0 where
  pub func_offset_low_word : ℕ
  pub selector : ℕ
  pub d_count : ℕ
  pub attribute : ℕ
  pub func_offset_high_word : ℕ

-- include/kernel/global.h
abbrev pub selector_k_code : ℕ
selector_k_code = 1 * 2 ^ 3 + 0 * 2 ^ 2 + 0

abbrev pub idt_desc_attr_dpl0 : ℕ
idt_desc_attr_dpl0 = 1 * 2 ^ 7 + 0 * 2 ^ 5 + 0xe

abbrev pub idt_desc_attr_dpl3 : ℕ
idt_desc_attr_dpl3 = 1 * 2 ^ 7 + 3 * 2 ^ 5 + 0xe

pub make_idt_desc : ℕ → ℕ → GateDesc
make_idt_desc attr func = record {
  func_offset_low_word = bit_and func 0x0000ffff;
  selector = selector_k_code;
  d_count = 0;
  attribute = attr;
  func_offset_high_word = bit_and func 0xffff0000 / 2 ^ 16;
}

abbrev pub set_gate : (ℕ → GateDesc) → ℕ → GateDesc → ℕ → GateDesc
set_gate idt i d j = if j == i then d else idt j

-- The loop of `idtDescInit` from `i` on, by the rounds left.
pub idt_loop : (ℕ → ℕ) → ℕ → ℕ → (ℕ → GateDesc) → ℕ → GateDesc
idt_loop entries zero i idt = idt
idt_loop entries (suc rounds) i idt =
    idt_loop entries rounds (i + 1) (set_gate idt i (make_idt_desc idt_desc_attr_dpl0 (entries i)))

unfoldable pub idt_desc_init : (ℕ → ℕ) → ℕ → (ℕ → GateDesc) → ℕ → GateDesc
idt_desc_init entries syscall_handler idt =
    set_gate (idt_loop entries idt_desc_cnt 0 idt) 0x80
      (make_idt_desc idt_desc_attr_dpl3 syscall_handler)

-- `idtTable` and `intrName`
pub record Handlers : Type 0 where
  pub idt_table : Mem
  pub intr_name : Mem

-- The loop of `exceptionInit`.
unfoldable pub handlers_loop : ℕ → ℕ → ℕ → ℕ → Handlers → Handlers
handlers_loop general unknown zero i h = h
handlers_loop general unknown (suc rounds) i h =
    handlers_loop general unknown rounds (i + 1) (record {
      idt_table = update h.idt_table i general;
      intr_name = update h.intr_name i unknown;
    })

-- The names of the exceptions, by the strings' addresses: 0 to 14 and 16 to 19.
pub set_names : List ℕ → ℕ → Mem → Mem
set_names [] i m = m
set_names (n ∷ ns) i m = set_names ns (i + 1) (update m i n)

unfoldable pub exception_init : ℕ → ℕ → List ℕ → List ℕ → Handlers → Handlers
exception_init general unknown first_names last_names h =
    let h' = handlers_loop general unknown idt_desc_cnt 0 h in
    record h' { intr_name = set_names last_names 16 (set_names first_names 0 h'.intr_name) }

-- `intrNum` is a `uint8`.
unfoldable pub register_handler : ℕ → ℕ → Handlers → Handlers
register_handler intr_num func h = record h { idt_table = update h.idt_table (intr_num % 256) func }

-- What `generalIntrHandler` comes to: it returns, or it stops for ever behind a message with the
-- exception's name and, for a page fault, the address.
pub data Stop : Type 0 where
  returns : Stop
  stops : ℕ → Option ℕ → Stop

pub general_intr_handler : Handlers → ℕ → ℕ → Stop
general_intr_handler h cr2 num =
    if num == 0x27 || num == 0x2f
    then returns
    else stops (h.intr_name num) (if num == 14 then some cr2 else none)

-- The bytes that `picInit` writes, each with its port.
unfoldable pub pic_init : List (ℕ × ℕ)
pic_init =
    (0x20, 0x11)
    ∷ (0x21, 0x20)
    ∷ (0x21, 0x04)
    ∷ (0x21, 0x01)
    ∷ (0xa0, 0x11)
    ∷ (0xa1, 0x28)
    ∷ (0xa1, 0x02)
    ∷ (0xa1, 0x01)
    ∷ (0x21, 0xfc)
    ∷ (0xa1, 0xff)
    ∷ []
