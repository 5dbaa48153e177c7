-- ===== src/Pic/Masks.antt =====
-- The bit of a mask register that a routine changes.
use native.Mathlib.Nat.{pow-suc, mod-eq_of_lt, div-div-eq-div-mul, one-le-pow, pow-le-pow_right}
use binbows_dos.Common.{
  ℕ, zero, suc, ◌+◌, ◌-◌, ◌*◌, ◌/◌, ◌%◌, ◌^◌, ◌<◌, ◌≤◌, ◌≡◌, bit_and, bit_or, arith, ap, ◌∙◌, sym,
}
use binbows_dos.Common.Bits.{bit_and_mask, bit_and_step, bit_or_step, bit_or-zero}
use binbows_dos.Io.{Bus}
use binbows_dos.Pic.{line_port, line_bit, irq_set_mask, irq_clear_mask, pic_enable_irq}

-- The bit `b` of `x`.
abbrev pub bit_at : ℕ → ℕ → ℕ
bit_at x b = x / 2 ^ b % 2

next_bit : (x b : ℕ) → bit_at x (suc b) ≡ bit_at (x / 2) b
next_bit x b =
    ap (λ p. x / p % 2) (pow-suc 2 b ∙ omega arith)
    ∙ ap (λ (t : ℕ). t % 2) (sym (div-div-eq-div-mul x 2 (2 ^ b)))

next_weight : (x b : ℕ) → bit_at x (suc b) * 2 ^ suc b ≡ 2 * (bit_at (x / 2) b * 2 ^ b)
next_weight x b =
    ap (λ (t : ℕ). t * 2 ^ suc b) (next_bit x b)
    ∙ ap (λ (p : ℕ). bit_at (x / 2) b * p) (pow-suc 2 b)
    ∙ twice (bit_at (x / 2) b) (2 ^ b)
  where
    twice : (d p : ℕ) → d * (p * 2) ≡ 2 * (d * p)
    twice d p = omega arith

double_le : (b w : ℕ) → b < w → 2 ^ b * 2 ≤ 2 ^ w
double_le b w h =
    let e : 2 ^ suc b ≤ 2 ^ w =
      pow-le-pow_right {n = 2} (omega arith) {i = suc b} {j = w} (omega arith) in
    omega (arith, pow-suc 2 b)

-- A conjunction with all ones of a word but the bit `b` takes this bit away.
clear_bit : (w b x : ℕ) → b < w → x < 2 ^ w → bit_and x (2 ^ w - 1 - 2 ^ b) + bit_at x b * 2 ^ b ≡ x
clear_bit zero b x h small = absurd (omega arith)
clear_bit (suc w) zero x h small =
    let fits : x / 2 < 2 ^ w = omega (arith, pow-suc 2 w) in
    ground (
      arith,
      pow-suc 2 w,
      bit_and_step x (2 ^ suc w - 1 - 2 ^ 0),
      bit_and_mask w (x / 2),
      mod-eq_of_lt fits,
    )
clear_bit (suc w) (suc b) x h small =
    let fits : x / 2 < 2 ^ w = omega (arith, pow-suc 2 w) in
    ground (
      arith,
      pow-suc 2 w,
      pow-suc 2 b,
      one-le-pow w 2 (omega arith),
      bit_and_step x (2 ^ suc w - 1 - 2 ^ suc b),
      double_le b w (omega arith),
      clear_bit w b (x / 2) (omega arith) fits,
      next_weight x b,
    )

-- A disjunction with the bit `b` adds this bit.
set_bit : (b x : ℕ) → bit_or x (2 ^ b) + bit_at x b * 2 ^ b ≡ x + 2 ^ b
set_bit zero x = ground (arith, bit_or_step x 1, bit_or-zero (x / 2))
set_bit (suc b) x =
    ground (arith, pow-suc 2 b, bit_or_step x (2 ^ suc b), set_bit b (x / 2), next_weight x b)

set_bit_small : (w b x : ℕ) → b < w → x < 2 ^ w → bit_or x (2 ^ b) < 2 ^ w
set_bit_small zero b x h small = absurd (omega arith)
set_bit_small (suc w) zero x h small =
    ground (arith, pow-suc 2 w, bit_or_step x 1, bit_or-zero (x / 2))
set_bit_small (suc w) (suc b) x h small = ground (
  arith,
  pow-suc 2 w,
  pow-suc 2 b,
  bit_or_step x (2 ^ suc b),
  set_bit_small w b (x / 2) (omega arith) (omega (arith, pow-suc 2 w)),
)

line_bit_small : (line : ℕ) → line < 16 → line_bit line < 8
line_bit_small line h = ground arith

-- For a line below 16 and a byte read from its controller's mask, `IRQ_clear_mask` and
-- `pic_enable_irq` write the byte back with the line's bit taken away, and `IRQ_set_mask` with it
-- added.
pub irq_mask_lem :
    (bus : Bus) (line : ℕ) (d : bus.Device)
    → line < 16
    → (bus.read (line_port line) d).0 < 256
    → (cleared : ℕ) × (added : ℕ) × (cleared
          + bit_at (bus.read (line_port line) d).0 (line_bit line) * 2 ^ line_bit line
        ≡ (bus.read (line_port line) d).0)
      × (added + bit_at (bus.read (line_port line) d).0 (line_bit line) * 2 ^ line_bit line
          ≡ (bus.read (line_port line) d).0 + 2 ^ line_bit line)
      × (irq_clear_mask bus line d
          ≡ bus.write (line_port line) cleared (bus.read (line_port line) d).1)
      × (pic_enable_irq bus line d
          ≡ bus.write (line_port line) cleared (bus.read (line_port line) d).1)
      × (irq_set_mask bus line d ≡ bus.write (line_port line) added (bus.read (line_port line) d).1)
unfolding irq_clear_mask pic_enable_irq irq_set_mask
irq_mask_lem bus line d h byte =
    let b : ℕ = line_bit line in
    let mask : ℕ = (bus.read (line_port line) d).0 in
    let less = clear_bit 32 b mask (omega (arith, line_bit_small line h)) (omega arith) in
    let cut : bit_and mask (0xffff_ffff - 2 ^ b) % 256 ≡ bit_and mask (0xffff_ffff - 2 ^ b) =
      omega arith in
    let keep : bit_or mask (2 ^ b) % 256 ≡ bit_or mask (2 ^ b) =
      mod-eq_of_lt (set_bit_small 8 b mask (line_bit_small line h) byte) in
    let put : ℕ → bus.Device = λ v. bus.write (line_port line) v (bus.read (line_port line) d).1 in
    (
      bit_and mask (0xffff_ffff - 2 ^ b),
      bit_or mask (2 ^ b),
      less,
      set_bit b mask,
      ap put cut,
      ap put cut,
      ap put keep,
    )
