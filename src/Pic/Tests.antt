-- ===== src/Pic/Tests.antt =====
-- Runs of the interrupt controllers' routines on two mask registers.
use binbows_dos.Common.{ℕ, ◌+◌, ◌*◌, ◌^◌, ◌≡◌, ◌==◌, if◌then◌else◌, refl, arith}
use binbows_dos.Io.{Bus}
use binbows_dos.Pic.{irq_set_mask, irq_clear_mask, pic_enable_irq}
use binbows_dos.Pic.Masks.{bit_at, irq_mask_lem}

-- A bus whose device is the registers behind the two data ports.
abbrev masks : Bus
masks = record {
  Device = ℕ × ℕ;
  read = λ port (first, second).
      if port == 0x21 then (first, (first, second)) else (second, (first, second));
  write = λ port value (first, second). if port == 0x21 then (value, second) else (first, value);
  read_word = λ port d. (0xffff, d);
  write_word = λ port value d. d;
}

irq_mask_lem_example :
    (cleared : ℕ) × (added : ℕ) × (cleared + bit_at 0xb8 6 * 2 ^ 6 ≡ 0xb8)
    × (added + bit_at 0xb8 6 * 2 ^ 6 ≡ 0xb8 + 2 ^ 6)
    × (irq_clear_mask masks 14 (0xff, 0xb8) ≡ (0xff, cleared))
    × (pic_enable_irq masks 14 (0xff, 0xb8) ≡ (0xff, cleared))
    × (irq_set_mask masks 14 (0xff, 0xb8) ≡ (0xff, added))
irq_mask_lem_example = irq_mask_lem masks 14 (0xff, 0xb8) (omega arith) (omega arith)

-- Line 3 is unmasked.
line_unmasked : pic_enable_irq masks 3 (0xff, 0xff) ≡ (0xf7, 0xff)
unfolding pic_enable_irq
line_unmasked = refl
