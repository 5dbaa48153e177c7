-- ===== src/Ide.antt =====
-- The IDE driver of src/drivers/ide and includes/ide.h on the bus: its tables, the access to a
-- channel's registers (ide_pio.c), the wait for a drive (ide_polling.c) and the transfer of
-- sectors (ide_rw.c). `timer_wait_ms(1)` waits for no tick, so the calls of it are left out.
pub mod Reg
pub mod Sr
pub mod Cmd
pub mod Probe
pub mod Polling
pub mod Ata
pub mod Command
pub mod Sector
pub mod Read
pub mod ReadError
pub mod Write
pub mod Store
pub mod RoundTrip
pub mod NextFree
pub mod Sample
mod Tests
use binbows_dos.Common.{
  ℕ, zero, suc, ◌+◌, ◌-◌, ◌*◌, ◌/◌, ◌%◌, ◌^◌, bit_and, bit_or, Bool, true, false, ◌&&◌, ◌||◌,
  Option, none, some, ◌>>=◌, ltb, leb, ◌==◌, if◌then◌else◌,
}
use binbows_dos.Memory.{Memory}
use binbows_dos.Ide.Reg
use binbows_dos.Ide.Sr
use binbows_dos.Ide.Cmd
use binbows_dos.Io.{Bus, out_byte, insw, outsw}

-- `struct ide_channel`
pub record Channel : Type 0 where
  pub base : ℕ
  pub ctrl : ℕ
  pub bmide : ℕ
  pub nien : ℕ

-- `struct ide_device`; `model` gives its characters by their index.
pub record IdeDevice : Type 0 where
  pub reserved : ℕ
  pub channel : ℕ
  pub drive : ℕ
  pub type : ℕ
  pub signature : ℕ
  pub capabilities : ℕ
  pub command_sets : ℕ
  pub size : ℕ
  pub model : ℕ → ℕ

-- The arrays `channels` and `ide_devices` by their index.
abbrev pub Channels : Type 0
Channels = ℕ → Channel

abbrev pub Devices : Type 0
Devices = ℕ → IdeDevice

-- The port of a register, a `uint16_t`.
abbrev pub reg_port : Channel → ℕ → ℕ
reg_port ch reg = (if ltb reg 0x08 then ch.base + reg else ch.ctrl + (reg - 0x08)) % 2 ^ 16

-- The registers that are reached by setting a bit of the control register first.
abbrev pub is_high : ℕ → Bool
is_high reg = ltb 0x07 reg && ltb reg 0x0c

-- The tests on the status at the end of `ide_polling`.
unfoldable pub check_state : ℕ → ℕ
check_state state =
    if bit_and state Sr.err == 0
    then (if bit_and state Sr.df == 0 then (if bit_and state Sr.drq == 0 then 3 else 0) else 1)
    else 2

-- The functions take the entry of `channels` that the channel's number selects.
module _ (bus : Bus) where
  -- `ide_write(channel, ATA_REG_CONTROL, channels[channel].nIEN | 0x02)`, whose register is not high.
  abbrev pub set_control : Channel → bus.Device → bus.Device
  set_control ch d = out_byte bus (reg_port ch Reg.control) (bit_or ch.nien 0x02) d

  unfoldable pub ide_write : Channel → ℕ → ℕ → bus.Device → bus.Device
  ide_write ch reg value d =
      out_byte bus (reg_port ch reg) value (if is_high reg then set_control ch d else d)

  unfoldable pub ide_read : Channel → ℕ → bus.Device → ℕ × bus.Device
  ide_read ch reg d = bus.read (reg_port ch reg) (if is_high reg then set_control ch d else d)

  unfoldable pub ide_read_buffer : Channel → ℕ → ℕ → ℕ → Memory → bus.Device → Memory × bus.Device
  ide_read_buffer ch reg buffer quads m d =
      insw bus (reg_port ch reg) buffer quads m (if is_high reg then set_control ch d else d)

  unfoldable pub ide_delay : Channel → bus.Device → bus.Device
  ide_delay ch d =
      let read = λ (e : bus.Device). (ide_read ch Reg.altstatus e).1 in read (read (read (read d)))

  -- `while (ide_read(channel, ATA_REG_STATUS) & ATA_SR_BSY);` on fuel, one unit for each read.
  unfoldable pub busy_loop : ℕ → Channel → bus.Device → Option bus.Device
  busy_loop zero ch d = none
  busy_loop (suc fuel) ch d =
      let (state, d1) = ide_read ch Reg.status d in
      let rest = busy_loop fuel ch d1 in if bit_and state Sr.bsy == 0 then some d1 else rest

  unfoldable pub ide_polling : ℕ → Channel → Bool → bus.Device → Option (ℕ × bus.Device)
  ide_polling fuel ch check d = do
    d1 ← busy_loop fuel ch (ide_delay ch d)
    let (state, d2) = ide_read ch Reg.status d1
    some (if check then (check_state state, d2) else (0, d1))

  -- The registers of a 28-bit transfer, from the low bits of the address; `slavebit` is 0 or 1.
  -- Both branches on the address in `ide_read_sectors` compute these, but for `head`.
  unfoldable pub send_command : Channel → ℕ → ℕ → ℕ → ℕ → ℕ → bus.Device → bus.Device
  send_command ch slavebit head count lba command d =
      let d = ide_write ch Reg.hddevsel (bit_or (bit_or 0xe0 (slavebit * 2 ^ 4)) head) d in
      let d = ide_write ch Reg.seccount0 count d in
      let d = ide_write ch Reg.lba0 (bit_and lba 0xff) d in
      let d = ide_write ch Reg.lba1 (bit_and (lba / 2 ^ 8) 0xff) d in
      let d = ide_write ch Reg.lba2 (bit_and (lba / 2 ^ 16) 0xff) d in
      ide_write ch Reg.command command d

  -- The loop of `ide_read_sectors` with the rounds left and the index; the result is its code.
  unfoldable pub read_loop :
      ℕ → Channel → ℕ → ℕ → ℕ → Memory → bus.Device → Option (ℕ × Memory × bus.Device)
  read_loop fuel ch buf zero i m d = some (0, m, d)
  read_loop fuel ch buf (suc left) i m d = do
    (err, d1) ← ide_polling fuel ch true d
    let (m2, d2) = insw bus ch.base (buf + i * 512) 256 m d1
    let rest = read_loop fuel ch buf left (i + 1) m2 d2
    if err == 0 then rest else some (err, m, d1)

  -- `numsects` is a `uint8_t`, `lba` a `uint32_t`.
  unfoldable pub ide_read_sectors :
      ℕ
      → Channels
      → Devices
      → ℕ
      → ℕ
      → ℕ
      → ℕ
      → Memory
      → bus.Device
      → Option (ℕ × Memory × bus.Device)
  ide_read_sectors fuel channels devices drive numsects lba buf m d =
      if ltb 3 drive || (devices drive).reserved == 0
      then some (1, m, d)
      else (let ch = channels (devices drive).channel in
          let head = if leb 0x1000_0000 lba then 0 else bit_and (lba / 2 ^ 24) 0x0f in
          read_loop fuel ch buf numsects 0 m
            (send_command ch (devices drive).drive head numsects lba Cmd.read_pio d))

  -- The transfer of one chunk in `ide_write_sectors_counted`, at the address of its data.
  unfoldable pub write_loop : ℕ → Channel → ℕ → ℕ → ℕ → Memory → bus.Device → Option bus.Device
  write_loop fuel ch addr zero i m d = some d
  write_loop fuel ch addr (suc left) i m d = do
    (_, d1) ← ide_polling fuel ch false d
    write_loop fuel ch addr left (i + 1) m (outsw bus ch.base (addr + i * 512) 256 m d1)

  -- One round of its outer loop: `n` is the count register, `transfer` the sectors that it stands
  -- for. `ide_polling` without the check returns 0.
  unfoldable pub write_chunk :
      ℕ → Channel → ℕ → ℕ → ℕ → ℕ → ℕ → Memory → bus.Device → Option bus.Device
  write_chunk fuel ch slavebit lba n transfer addr m d = do
    d1 ←
        write_loop fuel ch addr transfer 0 m
          (send_command ch slavebit (bit_and (lba / 2 ^ 24) 0x0f) n lba Cmd.write_pio d)
    (_, d2) ← ide_polling fuel ch false (ide_write ch Reg.command Cmd.cache_flush d1)
    some d2

  -- The outer loop, on fuel for its rounds; `remaining` and `written` count sectors.
  unfoldable pub chunk_loop :
      ℕ → ℕ → Channel → ℕ → ℕ → ℕ → ℕ → ℕ → Memory → bus.Device → Option (ℕ × bus.Device)
  chunk_loop zero fuel ch slavebit lba remaining written buf m d = none
  chunk_loop (suc rounds) fuel ch slavebit lba remaining written buf m d =
      let n = if leb 256 remaining then 0 else remaining in
      let transfer = if n == 0 then 256 else n in
      let rest = (do
        d1 ← write_chunk fuel ch slavebit lba n transfer (buf + written * 512) m d
        chunk_loop rounds fuel ch slavebit ((lba + transfer) % 2 ^ 32) (remaining - transfer)
            (written + transfer) buf m d1) in
      if remaining == 0 then some (0, d) else if ltb 0x0fff_ffff lba then some (3, d) else rest

  unfoldable pub ide_write_sectors_counted :
      ℕ → ℕ → Channels → Devices → ℕ → ℕ → ℕ → ℕ → Memory → bus.Device → Option (ℕ × bus.Device)
  ide_write_sectors_counted rounds fuel channels devices drive start_lba byte_count buf m d =
      if ltb 3 drive || (devices drive).reserved == 0
      then some (1, d)
      else if byte_count == 0
      then some (0, d)
      else if byte_count % 512 == 0
      then chunk_loop rounds fuel (channels (devices drive).channel) (devices drive).drive start_lba
          (byte_count / 512) 0 buf m d
      else some (2, d)
