-- ===== src/Interrupt/Flag.antt =====
-- The interrupt flag of kernel/interrupt.c as a switch with two states.
use Prim.Native.Nat.{bit_and}
use holo_os.Base.{ℕ, ◌*◌, ◌/◌, ◌%◌, ◌^◌, ◌≡◌, ◌⊎◌, inl, inr, refl, sym, ap, ◌∙◌, arith}
use holo_os.Base.Masks.{and_high, and_low}
use holo_os.Interrupt.{
  IntrStatus, intr_off, intr_on, with_if, intr_get_status, intr_enable, intr_disable,
  intr_set_status,
}

and_flag : (x : ℕ) → bit_and x 0x200 ≡ x / 2 ^ 9 % 2 * 2 ^ 9
and_flag x = omega (arith, and_high 9 x 1, and_low 1 (x / 2 ^ 9))

-- Bit 9 of the flags.
abbrev pub flag : IntrStatus → ℕ
flag intr_off = 0
flag intr_on = 1

pub intr_get_status-flag : (e : ℕ) → flag (intr_get_status e) ≡ e / 512 % 2
unfolding intr_get_status
intr_get_status-flag e = ground (arith, and_flag e)

pub status_of_flag : (s : IntrStatus) (e : ℕ) → flag s ≡ e / 512 % 2 → intr_get_status e ≡ s
unfolding intr_get_status
status_of_flag intr_off e h = ground (arith, and_flag e)
status_of_flag intr_on e h = ground (arith, and_flag e)

status_cases : (s : IntrStatus) → (s ≡ intr_off) ⊎ (s ≡ intr_on)
status_cases intr_off = inl refl
status_cases intr_on = inr refl

flag_of_status : {s : IntrStatus} (e : ℕ) → intr_get_status e ≡ s → flag s ≡ e / 512 % 2
flag_of_status e h = ap flag (sym h) ∙ intr_get_status-flag e

status_with_if : (s : IntrStatus) (e : ℕ) → intr_get_status (with_if (flag s) e) ≡ s
status_with_if intr_off e = status_of_flag intr_off (with_if 0 e) (omega arith)
status_with_if intr_on e = status_of_flag intr_on (with_if 1 e) (omega arith)

pub disable-off : (e : ℕ) → intr_get_status e ≡ intr_off → intr_disable e ≡ (intr_off, e)
unfolding intr_disable
disable-off e h = rw (h, intr_disable)

disable-on : (e : ℕ) → intr_get_status e ≡ intr_on → intr_disable e ≡ (intr_on, with_if 0 e)
unfolding intr_disable
disable-on e h = rw (h, intr_disable)

enable-off : (e : ℕ) → intr_get_status e ≡ intr_off → intr_enable e ≡ (intr_off, with_if 1 e)
unfolding intr_enable
enable-off e h = rw (h, intr_enable)

enable-on : (e : ℕ) → intr_get_status e ≡ intr_on → intr_enable e ≡ (intr_on, e)
unfolding intr_enable
enable-on e h = rw (h, intr_enable)

-- `intrSetStatus` returns the status before and leaves the status that it is given, and all other
-- flags as they were.
pub intr_set_status_lem :
    (s : IntrStatus) (e : ℕ)
    → ((intr_set_status s e).0 ≡ intr_get_status e)
      × (intr_get_status (intr_set_status s e).1 ≡ s)
      × ((intr_set_status s e).1 % 512 ≡ e % 512)
      × ((intr_set_status s e).1 / 1024 ≡ e / 1024)
unfolding intr_set_status
intr_set_status_lem intr_off e = elim (status_cases (intr_get_status e)) [
  | inl off ↦ rw (disable-off e off) (refl, off, refl, refl)
  | inr on ↦ rw (disable-on e on) (refl, status_with_if intr_off e, omega arith, omega arith)
]
intr_set_status_lem intr_on e = elim (status_cases (intr_get_status e)) [
  | inl off ↦ rw (enable-off e off) (refl, status_with_if intr_on e, omega arith, omega arith)
  | inr on ↦ rw (enable-on e on) (refl, on, refl, refl)
]

-- Interrupts that `intrDisable` turned off come back as they were: it returns the status before,
-- and giving that back to `intrSetStatus` restores all flags.
pub set_status-disable :
    (e : ℕ)
    → (intr_get_status (intr_disable e).1 ≡ intr_off)
      × ((intr_disable e).0 ≡ intr_get_status e)
      × ((intr_set_status (intr_disable e).0 (intr_disable e).1).1 ≡ e)
unfolding intr_set_status
set_status-disable e = elim (status_cases (intr_get_status e)) [
  | inl off ↦ rw (disable-off e off) (off, sym off, rw (disable-off e off))
  | inr on ↦
      let cleared = status_with_if intr_off e in
      let bit = flag_of_status e on in
      rw (disable-on e on) (cleared, sym on, rw (enable-off (with_if 0 e) cleared) (omega arith))
]
