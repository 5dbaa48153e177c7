-- ===== src/Idt/Gates.antt =====
-- What the processor reads in the interrupt descriptors.
use binbows_dos.Common.{
  ℕ, zero, suc, ◌+◌, ◌-◌, ◌*◌, ◌/◌, ◌^◌, ◌<◌, ◌≤◌, ◌≡◌, ◌≢◌, refl, ◌⊎◌, bit_and, arith, ltb, leb,
  ◌&&◌, if◌then◌else◌, ap, lt→ltb, le→leb,
}
use binbows_dos.Common.Bits.{bit_and_mask}
use binbows_dos.Io.{Bus}
use binbows_dos.Pic.{pic_remap}
use binbows_dos.Idt.{
  IdtEntry, Idt, idt_set_gate, clear_gates, idt_install, irq_install, irq_install_gates,
  irq_install_ports,
}

-- The entry point that a gate names.
abbrev pub gate_base : IdtEntry → ℕ
gate_base e = e.base_low + e.base_high * 0x1_0000

-- A gate for the routine at `base`, with the selector and the flags.
abbrev pub Gate : ℕ → ℕ → ℕ → IdtEntry → Type 0
Gate base sel flags e = (gate_base e ≡ base) × (e.sel ≡ sel) × (e.flags ≡ flags) × (e.always0 ≡ 0)

-- The gate written names the routine, and the other gates stay.
pub idt_set_gate_lem :
    (num base sel flags : ℕ) (t : Idt)
    → base < 2 ^ 32
    → Gate base sel flags (idt_set_gate num base sel flags t num)
      × ((j : ℕ) → j ≢ num → idt_set_gate num base sel flags t j ≡ t j)
unfolding idt_set_gate
idt_set_gate_lem num base sel flags t small = (
  (
    ground (arith, bit_and_mask 16 base, bit_and_mask 16 (base / 2 ^ 16)),
    ground arith,
    ground arith,
    ground arith,
  ),
  λ j ne. ground arith,
)

-- The rounds of `idt_install`.
clear_gates_lem :
    (left i : ℕ) (t : Idt) (j : ℕ)
    → clear_gates left i t j ≡ (
        if leb i j && ltb j (i + left)
        then record { base_low = 0; sel = 0; always0 = 0; flags = 0; base_high = 0 }
        else t j)
unfolding clear_gates idt_set_gate
clear_gates_lem zero i t j = ground arith
clear_gates_lem (suc left) i t j =
    ground (arith, clear_gates_lem left (i + 1) (idt_set_gate i 0 0 0 t) j)

-- After `idt_install` each of the 256 gates is empty, and the limit covers just these.
pub idt_install_lem :
    (table : ℕ) (t : Idt)
    → ((j : ℕ) → j < 256 → Gate 0 0 0 ((idt_install table t).1 j))
      × (((idt_install table t).0.limit + 1) ≡ 256 * 8)
      × ((idt_install table t).0.base ≡ table)
unfolding idt_install
idt_install_lem table t = ((λ j h. empty j h), refl, refl)
  where
    empty : (j : ℕ) → j < 256 → Gate 0 0 0 (clear_gates 256 0 t j)
    empty j h =
        rw (clear_gates_lem 256 0 t j, le→leb 0 j (omega arith), lt→ltb j 256 h)
          (refl, refl, refl, refl)

-- The gates of `irq_install` and of `exceptions_install` as a loop over the stubs, from a gate on.
abbrev stub_entry : ℕ → IdtEntry
stub_entry base = record {
  base_low = bit_and base 0xffff;
  sel = 0x08;
  always0 = 0;
  flags = 0x8e;
  base_high = bit_and (base / 2 ^ 16) 0xffff;
}

unfoldable pub stub_gates : ℕ → ℕ → ℕ → (ℕ → ℕ) → Idt → Idt
stub_gates first zero i stub t = t
stub_gates first (suc left) i stub t =
    stub_gates first left (i + 1) stub (idt_set_gate (first + i) (stub i) 0x08 0x8e t)

irq_install-stub_gates :
    (irq : ℕ → ℕ) (t : Idt) → irq_install_gates irq t ≡ stub_gates 32 16 0 irq t
unfolding irq_install_gates stub_gates
irq_install-stub_gates irq t = refl

stub_gates_lem :
    (first left i : ℕ) (stub : ℕ → ℕ) (t : Idt) (j : ℕ)
    → stub_gates first left i stub t j ≡ (
        if leb (first + i) j && ltb j (first + i + left)
        then stub_entry (stub (j - first))
        else t j)
unfolding stub_gates idt_set_gate
stub_gates_lem first zero i stub t j = ground arith
stub_gates_lem first (suc left) i stub t j = ground (
  arith,
  stub_gates_lem first left (i + 1) stub (idt_set_gate (first + i) (stub i) 0x08 0x8e t) j,
  stub_of,
)
  where
    stub_of : first + i ≡ j → stub_entry (stub i) ≡ stub_entry (stub (j - first))
    stub_of e = let e' : i ≡ j - first = omega arith in ap (λ n. stub_entry (stub n)) e'

stub_Gate : (base : ℕ) → base < 2 ^ 32 → Gate base 0x08 0x8e (stub_entry base)
stub_Gate base small =
    (ground (arith, bit_and_mask 16 base, bit_and_mask 16 (base / 2 ^ 16)), refl, refl, refl)

-- The loop sets the gates of the stubs, and keeps the others.
pub stub_gates-Gate :
    (first left : ℕ) (stub : ℕ → ℕ) (t : Idt) (n : ℕ)
    → ((n : ℕ) → stub n < 2 ^ 32)
    → n < left
    → Gate (stub n) 0x08 0x8e (stub_gates first left 0 stub t (first + n))
stub_gates-Gate first left stub t n small h =
    let at : first + n - first ≡ n = omega arith in
    rw
      (
        stub_gates_lem first left 0 stub t (first + n),
        lt→ltb (first + n) (first + 0 + left) (omega arith),
        le→leb (first + 0) (first + n) (omega arith),
        at,
      )
      (stub_Gate (stub n) (small n))

pub stub_gates_kept :
    (first left : ℕ) (stub : ℕ → ℕ) (t : Idt) (j : ℕ)
    → (j < first) ⊎ (first + left ≤ j)
    → stub_gates first left 0 stub t j ≡ t j
stub_gates_kept first left stub t j o = ground (arith, stub_gates_lem first left 0 stub t j)

-- `irq_install` points the sixteen gates from 32 on at the stubs in order, leaves the other gates,
-- and programs the controllers as `PIC_remap` does with the offsets 0x20 and 0x28.
pub irq_install-pic_remap :
    (bus : Bus) (irq : ℕ → ℕ) (t : Idt) (d : bus.Device)
    → ((n : ℕ) → irq n < 2 ^ 32)
    → ((n : ℕ) → n < 16 → Gate (irq n) 0x08 0x8e ((irq_install bus irq (t, d)).0 (32 + n)))
      × ((j : ℕ) → (j < 32) ⊎ (48 ≤ j) → (irq_install bus irq (t, d)).0 j ≡ t j)
      × ((irq_install bus irq (t, d)).1 ≡ pic_remap bus 0x20 0x28 d)
unfolding irq_install irq_install_ports pic_remap
irq_install-pic_remap bus irq t d small =
    rw (irq_install-stub_gates irq t)
      (λ n h. stub_gates-Gate 32 16 irq t n small h, λ j o. stub_gates_kept 32 16 irq t j o, refl)
