-- ===== src/Exceptions/Gates.antt =====
-- The gates that the kernel has after `idt_install`, `exceptions_install` and `irq_install`.
use binbows_dos.Common.{ℕ, ◌+◌, ◌^◌, ◌<◌, ◌≤◌, ◌≡◌, refl, inl, inr, arith}
use binbows_dos.Io.{Bus}
use binbows_dos.Idt.{Idt, idt_install, irq_install}
use binbows_dos.Idt.Gates.{
  Gate, stub_gates, stub_gates-Gate, stub_gates_kept, idt_install_lem, irq_install-pic_remap,
}
use binbows_dos.Exceptions.{exceptions_install}

exceptions_install-stub_gates :
    (isr : ℕ → ℕ) (t : Idt) → exceptions_install isr t ≡ stub_gates 0 32 0 isr t
unfolding exceptions_install stub_gates
exceptions_install-stub_gates isr t = refl

-- The gates after the three calls, in the order in which `kmain` makes them.
abbrev pub installed : (bus : Bus) → ℕ → (ℕ → ℕ) → (ℕ → ℕ) → Idt → bus.Device → Idt
installed bus table isr irq t d =
    (irq_install bus irq (exceptions_install isr (idt_install table t).1, d)).0

-- Once `idt_install`, `exceptions_install` and `irq_install` have run in this order, for stubs with
-- 32-bit addresses, the gates 0 to 31 name the exceptions' stubs, the gates 32 to 47 those of the
-- interrupt lines, and the other gates up to 255 are empty.
pub installed-Gate :
    (bus : Bus) (table : ℕ) (isr irq : ℕ → ℕ) (t : Idt) (d : bus.Device)
    → ((n : ℕ) → isr n < 2 ^ 32)
    → ((n : ℕ) → irq n < 2 ^ 32)
    → ((n : ℕ) → n < 32 → Gate (isr n) 0x08 0x8e (installed bus table isr irq t d n))
      × ((n : ℕ) → n < 16 → Gate (irq n) 0x08 0x8e (installed bus table isr irq t d (32 + n)))
      × ((n : ℕ) → 48 ≤ n → n < 256 → Gate 0 0 0 (installed bus table isr irq t d n))
installed-Gate bus table isr irq t d small small' =
    let t1 = (idt_install table t).1 in
    let t2 = exceptions_install isr t1 in
    let lines = irq_install-pic_remap bus irq t2 d small' in
    let same : (n : ℕ) → t2 n ≡ stub_gates 0 32 0 isr t1 n =
      λ n. rw (exceptions_install-stub_gates isr t1) refl in
    (
      λ n h.
          let e : 0 + n ≡ n = omega arith in
          rw (lines.1 n (inl h), same n) (rw e at (stub_gates-Gate 0 32 isr t1 n small h)),
      lines.0,
      λ n l h.
          rw (lines.1 n (inr l), same n, stub_gates_kept 0 32 isr t1 n (inr (omega arith)))
            ((idt_install_lem table t).0 n h),
    )
