-- ===== src/Io.antt =====
-- Port I/O (includes/commands.h): the bytes that a routine sends with `outb`, in order, and the bus
-- on which `inb`, `outb`, `insw` and `outsw` act where a routine reads a port too.
pub mod Ports
pub mod Mmio
use binbows_dos.Common.{ℕ, zero, suc, ◌+◌, ◌*◌, ◌/◌, ◌%◌, List, ◌∷◌, [], ◌++◌}
use binbows_dos.Memory.{Memory, write}

-- The pairs of port and byte that were sent, the latest last.
abbrev pub Sent : Type 0
Sent = List (ℕ × ℕ)

-- `outb`, whose data parameter is a `uint8_t`.
abbrev pub outb : ℕ → ℕ → Sent → Sent
outb port value sent = sent ++ (port, value % 256) ∷ []

-- The devices behind the ports, which the repository does not hold: a read gives a byte, or a
-- 16-bit word, and may change the device.
pub record Bus : Type 1 where
  pub Device : Type 0
  pub read : ℕ → Device → ℕ × Device
  pub write : ℕ → ℕ → Device → Device
  pub read_word : ℕ → Device → ℕ × Device
  pub write_word : ℕ → ℕ → Device → Device

-- `outb` on the bus.
abbrev pub out_byte : (bus : Bus) → ℕ → ℕ → bus.Device → bus.Device
out_byte bus port value d = bus.write port (value % 256) d

-- `insw(port, addr, count)`: words are read and stored at rising addresses, the low byte first.
unfoldable pub insw : (bus : Bus) → ℕ → ℕ → ℕ → Memory → bus.Device → Memory × bus.Device
insw bus port addr zero m d = (m, d)
insw bus port addr (suc count) m d =
    let (w, d') = bus.read_word port d in
    insw bus port (addr + 2) count (write (addr + 1) (w / 256 % 256) (write addr (w % 256) m)) d'

-- `outsw(port, addr, count)`.
unfoldable pub outsw : (bus : Bus) → ℕ → ℕ → ℕ → Memory → bus.Device → bus.Device
outsw bus port addr zero m d = d
outsw bus port addr (suc count) m d =
    outsw bus port (addr + 2) count m (bus.write_word port (m addr + m (addr + 1) * 256) d)
