-- ===== src/Ide/Read.antt =====
-- `ide_read_sectors` on a drive that follows the interface.
use binbows_dos.Common.{
  ℕ, zero, suc, ◌+◌, ◌-◌, ◌*◌, ◌/◌, ◌%◌, ◌^◌, ◌<◌, ◌≤◌, ◌≡◌, ◌≢◌, refl, ap, ◌∙◌, false, ◌&&◌,
  bit_and, ltb, leb, ◌==◌, ne→==, lt→leb, le→ltb, if◌then◌else◌, arith,
}
use binbows_dos.Memory.{Memory, write}
use binbows_dos.Io.{Bus, insw}
use binbows_dos.Ide.{Channel, Channels, Devices, read_loop, ide_read_sectors, send_command}
use binbows_dos.Ide.Ata.{Ata}
use binbows_dos.Ide.Command.{At, At-cast, At-advance}
use binbows_dos.Ide.Cmd

-- Byte `b` of a drive, 512 to a sector: its words have the low byte first.
unfoldable pub disk_byte : (ℕ → ℕ) → ℕ → ℕ
disk_byte words b = if b % 2 == 0 then words (b / 2) % 256 else words (b / 2) / 256 % 256

pub disk_byte_low : (words : ℕ → ℕ) (p : ℕ) → disk_byte words (p * 2) ≡ words p % 256
unfolding disk_byte
disk_byte_low words p =
    let e : p * 2 / 2 ≡ p = omega arith in let f : p * 2 % 2 ≡ 0 = omega arith in rw (e, f) refl

pub disk_byte_high : (words : ℕ → ℕ) (p : ℕ) → disk_byte words (p * 2 + 1) ≡ words p / 256 % 256
unfolding disk_byte
disk_byte_high words p =
    let e : (p * 2 + 1) / 2 ≡ p = omega arith in
    let f : (p * 2 + 1) % 2 ≡ 1 = omega arith in rw (e, f) refl

-- The memory `m'` is `m` with `n` bytes of a drive, from byte `b` on, put at the address `a`.
unfoldable pub Loaded : (ℕ → ℕ) → ℕ → ℕ → ℕ → Memory → Memory → Type 0
Loaded words b a n m m' =
    (q : ℕ) → m' q ≡ (if leb a q && ltb q (a + n) then disk_byte words (b + (q - a)) else m q)

Loaded-none : (words : ℕ → ℕ) (b a : ℕ) (m : Memory) → Loaded words b a 0 m m
unfolding Loaded
Loaded-none words b a m q = ground arith

-- A word in front.
Loaded-word :
    (words : ℕ → ℕ) (p a n w : ℕ) (m m' : Memory)
    → w ≡ words p
    → Loaded words ((p + 1) * 2) (a + 2) n (write (a + 1) (w / 256 % 256) (write a (w % 256) m)) m'
    → Loaded words (p * 2) a (n + 2) m m'
unfolding Loaded write
Loaded-word words p a n w m m' e h q = ground (
  arith,
  h q,
  ap (λ (x : ℕ). x % 256) e,
  ap (λ (x : ℕ). x / 256 % 256) e,
  disk_byte_low words p,
  disk_byte_high words p,
)

module _ (bus : Bus) (ch : Channel) (latency : ℕ) (ata : Ata bus ch latency) (words : ℕ → ℕ → ℕ)
    (u : ℕ) where
  -- The words of one sector.
  pub insw-Loaded :
      (count k p addr : ℕ) (m : Memory) (d : bus.Device)
      → At words u p (count + k * 256) false latency (ata.view d)
      → count ≤ 256
      → (0 < count → (ata.view d).busy ≡ 0)
      → Loaded (words u) (p * 2) addr (count * 2) m (insw bus ch.base addr count m d).0
        × At words u
            (p + count)
            (k * 256)
            false
            latency
            (ata.view (insw bus ch.base addr count m d).1)
  unfolding insw
  insw-Loaded zero k p addr m d at small idle =
      (Loaded-none (words u) (p * 2) addr m, At-cast (omega arith) (omega arith) at)
  insw-Loaded (suc count) k p addr m d at small idle =
      let n : ℕ = count + k * 256 in
      let more : At words u p (suc n) false latency (ata.view d) = At-cast refl (omega arith) at in
      let (word, after) =
        ata.read_word d (idle (omega arith)) at.same_writing (omega (arith, at.same_left)) in
      let w : ℕ = (bus.read_word ch.base d).0 in
      let is_word : w ≡ words u p =
        word
        ∙ ap (λ f. f (ata.view d).unit (ata.view d).pos) at.same_words
        ∙ ap (λ i. words i (ata.view d).pos) at.same_unit
        ∙ ap (words u) at.same_pos in
      let (next, still) = At-advance (ata.delay d) (ata.delay_le d) (λ writes z. cc) after more in
      let (loaded, end) =
        insw-Loaded count k (p + 1) (addr + 2) _ (bus.read_word ch.base d).1 next (omega arith)
          (λ some_left. still (λ e. omega arith)) in
      (
        rw (suc_mul count) (Loaded-word (words u) p addr (count * 2) w m _ is_word loaded),
        At-cast (omega arith) refl end,
      )
    where
      suc_mul : (n : ℕ) → suc n * 2 ≡ n * 2 + 2
      suc_mul n = omega arith

-- The tests in front of the transfer.
pub read_accepted :
    (bus : Bus) (fuel : ℕ) (channels : Channels) (devices : Devices) (drive numsects lba buf : ℕ)
    (m : Memory) (d : bus.Device)
    → drive < 4
    → (devices drive).reserved ≢ 0
    → lba < 2 ^ 28
    → ide_read_sectors bus fuel channels devices drive numsects lba buf m d
      ≡ read_loop bus fuel (channels (devices drive).channel) buf numsects 0 m (
          send_command bus
            (channels (devices drive).channel)
            (devices drive).drive
            (bit_and (lba / 2 ^ 24) 0x0f)
            numsects
            lba
            Cmd.read_pio
            d)
unfolding ide_read_sectors
read_accepted bus fuel channels devices drive numsects lba buf m d valid found reach =
    rw
      (
        le→ltb 3 drive (omega arith),
        ne→== (devices drive).reserved 0 found,
        lt→leb 0x1000_0000 lba reach,
      )
      refl
