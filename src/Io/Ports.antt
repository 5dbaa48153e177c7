-- ===== src/Io/Ports.antt =====
-- The other port instructions of includes/commands.h: words, double words, bytes in strings, and
-- `io_wait`.
use binbows_dos.Common.{
  ℕ, zero, suc, ◌+◌, ◌-◌, ◌%◌, ◌^◌, ◌<◌, ◌≡◌, ap, leb, ltb, ◌&&◌, if◌then◌else◌, arith,
}
use binbows_dos.Memory.{Memory, write, load32, store32}
use binbows_dos.Io.{Bus, out_byte}

-- The devices behind the ports for double words.
pub record Longs (bus : Bus) : Type 0 where
  pub read_long : ℕ → bus.Device → ℕ × bus.Device
  pub write_long : ℕ → ℕ → bus.Device → bus.Device

module _ (bus : Bus) where
  abbrev inb : ℕ → bus.Device → ℕ × bus.Device
  inb port d = bus.read port d

  abbrev inw : ℕ → bus.Device → ℕ × bus.Device
  inw port d = bus.read_word port d

  abbrev outw : ℕ → ℕ → bus.Device → bus.Device
  outw port value d = bus.write_word port (value % 2 ^ 16) d

  -- A write to a port that nothing uses.
  abbrev io_wait : bus.Device → bus.Device
  io_wait d = out_byte bus 0x80 0 d

  -- `insb(port, addr, count)`, and `outsb` likewise.
  unfoldable insb : ℕ → ℕ → ℕ → Memory → bus.Device → Memory × bus.Device
  insb port addr zero m d = (m, d)
  insb port addr (suc count) m d =
      let (b, d1) = inb port d in insb port (addr + 1) count (write addr (b % 256) m) d1

  unfoldable outsb : ℕ → ℕ → ℕ → Memory → bus.Device → bus.Device
  outsb port addr zero m d = d
  outsb port addr (suc count) m d = outsb port (addr + 1) count m (out_byte bus port (m addr) d)

  module _ (longs : Longs bus) where
    abbrev inl : ℕ → bus.Device → ℕ × bus.Device
    inl port d = longs.read_long port d

    abbrev outl : ℕ → ℕ → bus.Device → bus.Device
    outl port value d = longs.write_long port (value % 2 ^ 32) d

    unfoldable insl : ℕ → ℕ → ℕ → Memory → bus.Device → Memory × bus.Device
    insl port addr zero m d = (m, d)
    insl port addr (suc count) m d =
        let (v, d1) = inl port d in insl port (addr + 4) count (store32 addr v m) d1

    unfoldable outsl : ℕ → ℕ → ℕ → Memory → bus.Device → bus.Device
    outsl port addr zero m d = d
    outsl port addr (suc count) m d = outsl port (addr + 4) count m (outl port (load32 m addr) d)

  -- A port whose reads give the bytes `f` one after the other, `pos` being the index of the next.
  record Stream (port : ℕ) (f : ℕ → ℕ) (pos : bus.Device → ℕ) : Type 0 where
    pub next :
        (d : bus.Device) → ((bus.read port d).0 ≡ f (pos d)) × (pos (bus.read port d).1 ≡ pos d + 1)

  -- From such a port `insb` puts the next `count` bytes into memory in their order, changes no other
  -- byte, and the port stands behind them.
  insb-Stream :
      (port : ℕ) (f : ℕ → ℕ) (pos : bus.Device → ℕ)
      → Stream port f pos
      → (addr count : ℕ) (m : Memory) (d : bus.Device)
      → ((q : ℕ)
          → (insb port addr count m d).0 q
            ≡ (if leb addr q && ltb q (addr + count) then f (pos d + (q - addr)) % 256 else m q))
        × (pos (insb port addr count m d).1 ≡ pos d + count)
  unfolding insb write
  insb-Stream port f pos s addr zero m d = ((λ q. ground arith), omega arith)
  insb-Stream port f pos s addr (suc count) m d =
      let d1 = (bus.read port d).1 in
      let (value, later) = s.next d in
      let (rest, end) =
        insb-Stream port f pos s (addr + 1) count (write addr ((bus.read port d).0 % 256) m) d1 in
      let first : (q : ℕ) → addr ≡ q → f (pos d) ≡ f (pos d + (q - addr)) =
        λ q e. ap f (omega arith) in
      let others : (q : ℕ) → addr < q → f (pos d1 + (q - (addr + 1))) ≡ f (pos d + (q - addr)) =
        λ q h. ap f (omega (arith, later)) in
      ((λ q. ground (arith, rest q, value, first q, others q)), omega (arith, later, end))
