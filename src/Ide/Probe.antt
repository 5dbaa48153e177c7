-- ===== src/Ide/Probe.antt =====
-- How the drives are found: `ide_identify` (ide_identify.c), `ide_device_exists`, `ide_initialize`
-- and `read_total_sectors` (ide.c). Messages are left out.
pub mod Secondary
use binbows_dos.Common.{
  ℕ, zero, suc, ◌+◌, ◌-◌, ◌*◌, ◌/◌, ◌%◌, ◌^◌, bit_and, bit_or, Bool, true, false, ◌&&◌, ◌||◌,
  Option, none, some, ◌>>=◌, ltb, leb, ◌==◌, if◌then◌else◌,
}
use binbows_dos.Memory.{Memory, load32}
use binbows_dos.Io.{Bus, insw}
use binbows_dos.Ide.{Channel, IdeDevice, Channels, Devices, ide_write, ide_read, ide_delay}
use binbows_dos.Ide.Reg
use binbows_dos.Ide.Sr
use binbows_dos.Ide.Cmd

-- The driver's globals, `ide_buf` by its index, and the devices behind the ports.
pub record Driver (bus : Bus) : Type 0 where
  pub channels : Channels
  pub devices : Devices
  pub ide_buf : Memory
  pub device : bus.Device

-- A 16-bit field of `ide_buf`.
abbrev pub load16 : Memory → ℕ → ℕ
load16 m a = m a + m (a + 1) * 256

abbrev pub set_char : ℕ → ℕ → (ℕ → ℕ) → ℕ → ℕ
set_char k c model j = if k == j then c else model j

-- `for (k = 0; k < 40; k += 2)` with the rounds left.
unfoldable pub model_loop : ℕ → ℕ → Memory → (ℕ → ℕ) → ℕ → ℕ
model_loop zero k buf model = model
model_loop (suc left) k buf model =
    model_loop left (k + 2) buf
      (set_char (k + 1) (buf (54 + k)) (set_char k (buf (54 + k + 1)) model))

-- The entry of `ide_devices` that the identification in `buf` gives.
unfoldable pub identified : ℕ → ℕ → Memory → IdeDevice → IdeDevice
identified channel dev buf old = record {
  reserved = 1;
  channel = channel;
  drive = dev;
  type = old.type;
  signature = load16 buf 0;
  capabilities = load16 buf 98;
  command_sets = load32 buf 164;
  size = load32 buf 120;
  model = set_char 40 0 (model_loop 20 0 buf old.model);
}

-- What `ide_device_exists` returns for the signature in the registers.
unfoldable pub device_type : ℕ → ℕ → ℕ
device_type cl ch =
    if (cl == 0x14 && ch == 0xeb) || (cl == 0x69 && ch == 0x96)
    then 2
    else if cl == 0x00 && ch == 0x00
    then 1
    else if cl == 0x3c && ch == 0xc3
    then 3
    else 0

-- The entries that `ide_initialize` writes to `channels`.
abbrev pub primary : Channel
primary = record { base = 0x1f0; ctrl = 0x3f6; bmide = 0; nien = 0 }

abbrev pub secondary : Channel
secondary = record { base = 0x170; ctrl = 0x376; bmide = 0; nien = 0 }

module _ (bus : Bus) where
  -- The `while (1)` of `ide_identify` on fuel: whether it was left by `break`.
  unfoldable pub data_loop : ℕ → Channel → bus.Device → Option (Bool × bus.Device)
  data_loop zero ch d = none
  data_loop (suc fuel) ch d =
      let (status, d1) = ide_read bus ch Reg.status d in
      let rest = data_loop fuel ch d1 in
      if bit_and status Sr.err == 0
      then (if bit_and status Sr.drq == 0 then rest else some (true, d1))
      else some (false, d1)

  -- The registers that `ide_identify` writes.
  unfoldable pub send_identify : Channel → ℕ → bus.Device → bus.Device
  send_identify ch dev d =
      let d = ide_write bus ch Reg.hddevsel (bit_or 0xa0 (dev * 2 ^ 4)) d in
      let d = ide_write bus ch Reg.seccount0 0 d in
      let d = ide_write bus ch Reg.lba0 0 d in
      let d = ide_write bus ch Reg.lba1 0 d in
      let d = ide_write bus ch Reg.lba2 0 d in ide_write bus ch Reg.command Cmd.identify d

  -- The end of `ide_identify`; the entry that it writes is that of its argument `drive`.
  unfoldable pub take_identity : ℕ → ℕ → Driver bus → Driver bus
  take_identity channel drive s =
      let (buf, d) = insw bus (s.channels channel).base 0 256 s.ide_buf s.device in
      record s {
        devices = λ j.
            if drive == j
            then identified channel (bit_and drive 1) buf (s.devices j)
            else s.devices j;
        ide_buf = buf;
        device = d;
      }

  unfoldable pub ide_identify : ℕ → ℕ → ℕ → Driver bus → Option (Driver bus)
  ide_identify fuel channel drive s =
      let ch = s.channels channel in
      let (status, d) = ide_read bus ch Reg.status (send_identify ch (bit_and drive 1) s.device) in
      if status == 0 then some (record s { device = d }) else (do
        (waiting, d1) ← data_loop fuel ch d
        let s1 = record s { device = d1 }
        some (if waiting then take_identity channel drive s1 else s1))

  -- The wait of `ide_device_exists` on fuel, from the status read before it.
  unfoldable pub status_loop : ℕ → Channel → ℕ → bus.Device → Option (ℕ × bus.Device)
  status_loop zero ch status d = none
  status_loop (suc fuel) ch status d =
      let (next, d1) = ide_read bus ch Reg.status d in
      let rest = status_loop fuel ch next d1 in
      if bit_and status Sr.bsy == 0 then some (status, d) else rest

  -- What `ide_device_exists` does when a drive has answered.
  unfoldable pub probe_signature : ℕ → Channel → bus.Device → Option (ℕ × bus.Device)
  probe_signature fuel ch d =
      let d = ide_delay bus ch (ide_write bus ch Reg.command Cmd.identify d) in
      let (status, d) = ide_read bus ch Reg.status d in
      if status == 0 then some (0, d) else (do
        (last, d1) ← status_loop fuel ch status d
        let (cl, d2) = ide_read bus ch Reg.lba1 d1
        let (hi, d3) = ide_read bus ch Reg.lba2 d2
        some (if bit_and last Sr.err == 0 then (device_type cl hi, d3) else (0, d1)))

  unfoldable pub ide_device_exists : ℕ → Channels → ℕ → ℕ → bus.Device → Option (ℕ × bus.Device)
  ide_device_exists fuel channels channel drive d =
      if ltb 1 channel
      then some (0, d)
      else if ltb 1 drive
      then some (0, d)
      else (let ch = channels channel in
          let d =
            ide_delay bus ch (ide_write bus ch Reg.hddevsel (bit_or 0xa0 (drive * 2 ^ 4)) d) in
          let (status, d) = ide_read bus ch Reg.status d in
          if status == 0xff || status == 0x00 then some (0, d) else probe_signature fuel ch d)

  -- `ide_devices[i].Reserved = 0;`
  unfoldable pub clear_entry : ℕ → Driver bus → Driver bus
  clear_entry i s = record s {
    devices = λ j. if i == j then record (s.devices j) { reserved = 0 } else s.devices j;
  }

  -- One round of the loop of `ide_initialize`.
  unfoldable pub probe_drive : ℕ → ℕ → Driver bus → Option (Driver bus)
  probe_drive fuel i s = do
    (device_type, d) ← ide_device_exists fuel s.channels (i / 2) (i % 2) s.device
    let s1 = record (clear_entry i s) { device = d }
    if device_type == 1 then ide_identify fuel (i / 2) (i % 2) s1 else some s1

  unfoldable pub probe_loop : ℕ → ℕ → ℕ → Driver bus → Option (Driver bus)
  probe_loop fuel zero i s = some s
  probe_loop fuel (suc left) i s = do s1 ← probe_drive fuel i s; probe_loop fuel left (i + 1) s1

  -- The assignments to `channels` and the two writes at the start of `ide_initialize`.
  unfoldable pub set_channels : Driver bus → Driver bus
  set_channels s =
      let channels =
        λ (j : ℕ). if j == 0 then primary else if j == 1 then secondary else s.channels j in
      let d = ide_write bus (channels 0) Reg.control 2 s.device in
      record s { channels = channels; device = ide_write bus (channels 1) Reg.control 2 d }

  unfoldable pub ide_initialize : ℕ → Driver bus → Option (Driver bus)
  ide_initialize fuel s = probe_loop fuel 4 0 (set_channels s)

-- A `uint64_t`.
unfoldable pub read_total_sectors : Devices → ℕ → ℕ
read_total_sectors devices drive_num = if leb 4 drive_num then 0 else (devices drive_num).size
