-- ===== src/Io/Mmio.antt =====
-- The accesses to memory-mapped registers of includes/commands.h, on plain memory. The barriers order
-- accesses, which a memory as a value has in order anyway.
use binbows_dos.Common.{ℕ, ◌+◌, ◌*◌, ◌/◌, ◌%◌, ◌^◌, ◌≡◌, ◌∙◌, inr, arith}
use binbows_dos.Memory.Words.{load32-store32_apart}
use binbows_dos.Memory.{Memory, write, load32, store32}

unfoldable mmio_read8 : Memory → ℕ → ℕ
mmio_read8 m addr = m addr

unfoldable mmio_write8 : ℕ → ℕ → Memory → Memory
mmio_write8 addr value m = write addr (value % 256) m

unfoldable mmio_read16 : Memory → ℕ → ℕ
mmio_read16 m addr = m addr + m (addr + 1) * 256

unfoldable mmio_write16 : ℕ → ℕ → Memory → Memory
mmio_write16 addr value m = write (addr + 1) (value / 256 % 256) (write addr (value % 256) m)

unfoldable mmio_read32 : Memory → ℕ → ℕ
mmio_read32 m addr = load32 m addr

unfoldable mmio_write32 : ℕ → ℕ → Memory → Memory
mmio_write32 addr value m = store32 addr value m

unfoldable mmio_read64 : Memory → ℕ → ℕ
mmio_read64 m addr = load32 m addr + load32 m (addr + 4) * 2 ^ 32

unfoldable mmio_write64 : ℕ → ℕ → Memory → Memory
mmio_write64 addr value m = store32 (addr + 4) (value / 2 ^ 32) (store32 addr (value % 2 ^ 32) m)

load32_cut : (a v : ℕ) (m : Memory) → load32 (store32 a v m) a ≡ v % 2 ^ 32
unfolding load32 store32 write
load32_cut a v m = ground arith

load64_cut : (a v : ℕ) (m : Memory) → mmio_read64 (mmio_write64 a v m) a ≡ v % 2 ^ 64
unfolding mmio_read64 mmio_write64
load64_cut a v m =
    let low =
      load32-store32_apart (a + 4) a (v / 2 ^ 32) (store32 a (v % 2 ^ 32) m) (inr (omega arith))
      ∙ load32_cut a (v % 2 ^ 32) m in
    let high = load32_cut (a + 4) (v / 2 ^ 32) (store32 a (v % 2 ^ 32) m) in
    omega (arith, low, high)

-- A write of each width is read back, cut to the width.
mmio_read-write :
    (a v : ℕ) (m : Memory)
    → (mmio_read8 (mmio_write8 a v m) a ≡ v % 2 ^ 8)
      × (mmio_read16 (mmio_write16 a v m) a ≡ v % 2 ^ 16)
      × (mmio_read32 (mmio_write32 a v m) a ≡ v % 2 ^ 32)
      × (mmio_read64 (mmio_write64 a v m) a ≡ v % 2 ^ 64)
unfolding mmio_read8 mmio_write8 mmio_read16 mmio_write16 mmio_read32 mmio_write32 write
mmio_read-write a v m = (ground arith, ground arith, load32_cut a v m, load64_cut a v m)

-- Two accesses of 32 bits do what one of 64 bits does.
mmio_halves :
    (a q v : ℕ) (m : Memory)
    → (mmio_read64 m a ≡ mmio_read32 m a + mmio_read32 m (a + 4) * 2 ^ 32)
      × (mmio_write64 a v m q ≡ mmio_write32 (a + 4) (v / 2 ^ 32) (mmio_write32 a v m) q)
unfolding mmio_read32 mmio_write32 mmio_read64 mmio_write64 store32 write
mmio_halves a q v m = (ground arith, ground arith)
