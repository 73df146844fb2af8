-- ===== src/Syscall/Saved.antt =====
-- The registers across a system call: what `syscallHandler` of lib/kernel/kernel.S saves, and what
-- `intrExit` loads.
use holo_os.Base.{
  ℕ, zero, suc, ◌+◌, ◌-◌, ◌*◌, ◌<◌, List, [], ◌∷◌, length, ◌≡◌, ◌≢◌, refl, ap, ◌∙◌, Option, some,
  arith,
}
use holo_os.Base.Memory.{Mem, update, update_self, update_ne}
use holo_os.Base.Run.{Run, ok, panic, out_of_fuel, ◌>>=◌}
use holo_os.Process.{Regs, intr_exit}
use holo_os.Syscall.{
  System, Entry, call_entry, pushed, frame_words, call_words, call_frame, leave, syscall_handler,
}

abbrev word : List ℕ → ℕ → ℕ
word [] i = 0
word (x ∷ xs) zero = x
word (x ∷ xs) (suc i) = word xs i

pushed-word :
    (w : Mem) (p : ℕ) (xs : List ℕ) (i : ℕ) → i < length xs → pushed w p xs (p + 4 * i) ≡ word xs i
unfolding pushed
pushed-word w p [] i lt = absurd (omega arith)
pushed-word w p (x ∷ xs) zero lt = ground arith
pushed-word w p (x ∷ xs) (suc i) lt =
    let a : p + 4 * suc i ≡ p + 4 + 4 * i = omega arith in
    let other : p ≢ p + 4 + 4 * i = omega arith in
    rw a (
      update_ne (pushed w (p + 4) xs) p x (p + 4 + 4 * i) other
      ∙ pushed-word w (p + 4) xs i (omega arith))

module _ (stack : Mem) (args value : ℕ) (r : Regs) where
  abbrev after : Mem
  after = update (call_frame stack args r) (args + 12 + 28) value

  arg_lem : call_frame stack args r args ≡ r.ebx
  unfolding pushed
  arg_lem =
      update_self (pushed stack (args + 4) (r.ecx ∷ r.edx ∷ frame_words (args + 12) r)) args r.ebx

  kept :
      (i a v : ℕ)
      → a ≡ args + 4 * i
      → i ≢ 10
      → i < 21
      → word (call_words (args + 12) r) i ≡ v
      → after a ≡ v
  kept i a v e ne lt is =
      let other : args + 12 + 28 ≢ args + 4 * i = omega arith in
      rw e (
        update_ne (call_frame stack args r) (args + 12 + 28) value (args + 4 * i) other
        ∙ pushed-word stack args (call_words (args + 12) r) i lt
        ∙ is)

  restored : (leave (call_frame stack args r) args value).0 ≡ record r { eax = value }
  unfolding intr_exit
  restored =
      rw
        (
          kept 3 (args + 12) r.edi (omega arith) (omega arith) (omega arith) refl,
          kept 4 (args + 12 + 4) r.esi (omega arith) (omega arith) (omega arith) refl,
          kept 5 (args + 12 + 8) r.ebp (omega arith) (omega arith) (omega arith) refl,
          kept 7 (args + 12 + 16) r.ebx (omega arith) (omega arith) (omega arith) refl,
          kept 8 (args + 12 + 20) r.edx (omega arith) (omega arith) (omega arith) refl,
          kept 9 (args + 12 + 24) r.ecx (omega arith) (omega arith) (omega arith) refl,
          update_self (call_frame stack args r) (args + 12 + 28) value,
          kept 11 (args + 12 + 32) r.gs (omega arith) (omega arith) (omega arith) refl,
          kept 12 (args + 12 + 36) r.fs (omega arith) (omega arith) (omega arith) refl,
          kept 13 (args + 12 + 40) r.es (omega arith) (omega arith) (omega arith) refl,
          kept 14 (args + 12 + 44) r.ds (omega arith) (omega arith) (omega arith) refl,
          kept 16 (args + 12 + 52) r.eip (omega arith) (omega arith) (omega arith) refl,
          kept 17 (args + 12 + 56) r.cs (omega arith) (omega arith) (omega arith) refl,
          kept 18 (args + 12 + 60) r.eflags (omega arith) (omega arith) (omega arith) refl,
          kept 19 (args + 12 + 64) r.esp (omega arith) (omega arith) (omega arith) refl,
          kept 20 (args + 12 + 68) r.ss (omega arith) (omega arith) (omega arith) refl,
        )
        refl

-- What a call returns, put in `eax` of the user's registers.
abbrev pub answer : Regs → ℕ × System → Run (Regs × System)
answer r (value, s) = ok (record r { eax = value }, s)

-- The handler without the words of its stack.
abbrev pub handled : ℕ → ℕ → (ℕ → Option Entry) → ℕ → Mem → Regs → System → Run (Regs × System)
handled eax fuel table esp0 stack r s =
    syscall_handler eax fuel table esp0 stack r s >>= λ (out : Regs × Mem × System).
    ok (out.0, out.2)

answered :
    (w : Mem) (args : ℕ) (r : Regs) (m : Run (ℕ × System))
    → ((v : ℕ) → (leave w args v).0 ≡ record r { eax = v })
    → ((m >>= λ (out : ℕ × System). ok ((leave w args out.0).0, (leave w args out.0).1, out.1))
        >>= λ (out : Regs × Mem × System). ok (out.0, out.2))
      ≡ (m >>= answer r)
answered w args r (ok (v, s)) same = ap (λ (r' : Regs). ok (r', s)) (same v)
answered w args r panic same = refl
answered w args r out_of_fuel same = refl

-- `syscallHandler` with the number of a stored entry in `eax` calls its function with the argument of
-- `ebx`. The user goes on with all of its registers as they were (general, segment, flags, stack
-- and instruction), but for `eax`, which holds what the function returned; the call ends exactly if
-- the function does.
pub syscall_handler_lem :
    (eax fuel : ℕ) (table : ℕ → Option Entry) (esp0 : ℕ) (stack : Mem) (r : Regs) (s : System)
    (e : Entry)
    → table r.eax ≡ some e
    → handled eax fuel table esp0 stack r s ≡ (call_entry eax fuel s e r.ebx >>= answer r)
unfolding syscall_handler
syscall_handler_lem eax fuel table esp0 stack r s e entry =
    let w = call_frame stack (esp0 - 84) r in
    rw (entry, arg_lem stack (esp0 - 84) 0 r)
      (answered w (esp0 - 84) r (call_entry eax fuel s e r.ebx)
        (λ v. restored stack (esp0 - 84) v r))
