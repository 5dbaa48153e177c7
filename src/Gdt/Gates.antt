-- ===== src/Gdt/Gates.antt =====
-- What the processor reads in the descriptors that `gdt_set_gate` writes.
use binbows_dos.Common.{
  ℕ, ◌+◌, ◌*◌, ◌/◌, ◌%◌, ◌^◌, ◌<◌, ◌≡◌, ◌≢◌, refl, bit_and, bit_or, arith, ap, ◌∙◌,
}
use binbows_dos.Common.Bits.{bit_and_mask, bit_and_shifted, bit_or_fields, bit_or_comm}
use binbows_dos.Gdt.{GdtEntry, Gdt, gdt_set_gate}

-- The segment's 32-bit base, its 20-bit limit, and the four flags above the limit.
abbrev pub segment_base : GdtEntry → ℕ
segment_base e = e.base_low + e.base_middle * 0x1_0000 + e.base_high * 0x100_0000

abbrev pub segment_limit : GdtEntry → ℕ
segment_limit e = e.limit_low + e.granularity % 16 * 0x1_0000

abbrev pub segment_flags : GdtEntry → ℕ
segment_flags e = e.granularity / 16

-- The two halves of `granularity`.
halves :
    (low gran : ℕ) → bit_or (bit_and low 0x0f) (bit_and gran 0xf0) ≡ gran / 16 % 16 * 16 + low % 16
halves low gran =
    let high : bit_and gran 0xf0 ≡ gran / 16 % 16 * 2 ^ 4 = omega (
      arith,
      bit_and_shifted 4 (gran / 16) (gran % 16) 15 (omega arith),
      bit_and_mask 4 (gran / 16),
      ap (λ g. bit_and g 0xf0) (div_mod gran),
    ) in
    rw (high, bit_and_mask 4 low)
      (bit_or_comm (low % 16) (gran / 16 % 16 * 2 ^ 4)
        ∙ bit_or_fields 4 (gran / 16 % 16) (low % 16) (omega arith))
  where
    div_mod : (g : ℕ) → g / 16 * 2 ^ 4 + g % 16 ≡ g
    div_mod g = omega arith

-- The descriptor that `gdt_set_gate` writes gives back the base, the low 20 bits of the limit, the
-- access byte and the high half of `gran`; the other descriptors and `gp` stay as they were.
pub gdt_set_gate_lem :
    (num base limit access gran : ℕ) (t : Gdt)
    → base < 2 ^ 32
    → gran < 256
    → (segment_base ((gdt_set_gate num base limit access gran t).entries num) ≡ base)
      × (segment_limit ((gdt_set_gate num base limit access gran t).entries num) ≡ limit % 2 ^ 20)
      × (segment_flags ((gdt_set_gate num base limit access gran t).entries num) ≡ gran / 16)
      × (((gdt_set_gate num base limit access gran t).entries num).access ≡ access)
      × ((j : ℕ) → j ≢ num → (gdt_set_gate num base limit access gran t).entries j ≡ t.entries j)
      × ((gdt_set_gate num base limit access gran t).gp ≡ t.gp)
unfolding gdt_set_gate
gdt_set_gate_lem num base limit access gran t b g = (
  ground
      (arith, bit_and_mask 16 base, bit_and_mask 8 (base / 2 ^ 16), bit_and_mask 8 (base / 2 ^ 24)),
  ground (arith, bit_and_mask 16 limit, halves (limit / 2 ^ 16) gran),
  ground (arith, halves (limit / 2 ^ 16) gran),
  ground arith,
  λ j ne. ground arith,
  refl,
)
