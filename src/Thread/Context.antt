-- ===== src/Thread/Context.antt =====
-- kernel/switch.S: `switchTo`, on the registers, the words of memory and the field `selfKStack` of the
-- control blocks.
pub mod Resume
mod Tests
use holo_os.Base.{ℕ, ◌+◌, ◌-◌}
use holo_os.Base.Memory.{Mem, update}

pub record Cpu : Type 0 where
  pub eip : ℕ
  pub esp : ℕ
  pub ebp : ℕ
  pub ebx : ℕ
  pub esi : ℕ
  pub edi : ℕ

pub record Machine : Type 0 where
  pub words : Mem
  pub self_kstack : Mem
  pub cpu : Cpu

abbrev pub push : ℕ → Machine → Machine
push v m = record m {
  words = update m.words (m.cpu.esp - 4) v;
  cpu = record m.cpu { esp = m.cpu.esp - 4 };
}

-- `[esp + i]`
abbrev pub at_esp : Machine → ℕ → ℕ
at_esp m i = m.words (m.cpu.esp + i)

-- `push esi; push edi; push ebx; push ebp`
abbrev pub save : Machine → Machine
save m = push m.cpu.ebp (push m.cpu.ebx (push m.cpu.edi (push m.cpu.esi m)))

-- `pop ebp; pop ebx; pop edi; pop esi; ret`
abbrev pub restore : Machine → Machine
restore m = record m {
  cpu = record {
    ebp = m.words m.cpu.esp;
    ebx = at_esp m 4;
    edi = at_esp m 8;
    esi = at_esp m 12;
    eip = at_esp m 16;
    esp = m.cpu.esp + 20;
  };
}

-- On entry the stack holds the return address, `cur` and `next`.
pub switch_to : Machine → Machine
switch_to m =
    let m1 = save m in
    let m2 = record m1 { self_kstack = update m1.self_kstack (at_esp m1 20) m1.cpu.esp } in
    restore (record m2 { cpu = record m2.cpu { esp = m2.self_kstack (at_esp m2 24) } })
