-- ===== src/Ide/Ata.antt =====
-- What the driver relies on of the drives behind a channel: the programmed transfers of the ATA
-- standard, as an interface over the bus.
use binbows_dos.Common.{
  ℕ, ◌+◌, ◌-◌, ◌*◌, ◌/◌, ◌%◌, ◌^◌, ◌<◌, ◌≤◌, ◌≡◌, ◌≢◌, bit_and, Bool, true, false, ◌&&◌, ◌==◌,
  if◌then◌else◌,
}
use binbows_dos.Io.{Bus}
use binbows_dos.Ide.{Channel, reg_port}
use binbows_dos.Ide.Reg
use binbows_dos.Ide.Sr
use binbows_dos.Ide.Cmd

-- The state of a channel: `words u p` is word `p` of drive `u`, 256 to a sector. A transfer of
-- drive `unit` stands at word `pos` with `left` words to go. `busy` counts the reads of the status
-- that still find the drive busy. A drive shows an error with `err`, a fault with `df`, and is
-- `dirty` while words that were written may be in its cache only.
pub record View : Type 0 where
  pub words : ℕ → ℕ → ℕ
  pub selected : ℕ
  pub count : ℕ
  pub lba0 : ℕ
  pub lba1 : ℕ
  pub lba2 : ℕ
  pub unit : ℕ
  pub pos : ℕ
  pub left : ℕ
  pub writing : Bool
  pub busy : ℕ
  pub err : ℕ → Bool
  pub df : ℕ → Bool
  pub dirty : ℕ → Bool

-- The drive that is selected, the address in the registers, and the sectors that the count stands
-- for.
abbrev pub drive_of : View → ℕ
drive_of v = v.selected / 16 % 2

abbrev pub lba_of : View → ℕ
lba_of v = v.selected % 16 * 2 ^ 24 + v.lba2 * 2 ^ 16 + v.lba1 * 2 ^ 8 + v.lba0

abbrev pub count_of : View → ℕ
count_of v = if v.count == 0 then 256 else v.count

-- No drive is busy (BSY) or has data to transfer (DRQ).
abbrev pub Idle : View → Type 0
Idle v = (v.busy ≡ 0) × (v.left ≡ 0)

abbrev pub set_at : ℕ → Bool → (ℕ → Bool) → ℕ → Bool
set_at u b f i = if i == u then b else f i

-- A command starts a transfer on the drive that is selected.
abbrev pub start : Bool → ℕ → View → View
start writing busy v = record v {
  unit = drive_of v;
  pos = lba_of v * 256;
  left = count_of v * 256;
  writing = writing;
  busy = busy;
  err = set_at (drive_of v) false v.err;
  df = set_at (drive_of v) false v.df;
}

-- Or the drive ends it with an error, and without data.
abbrev pub refuse : ℕ → View → View
refuse busy v = record v {
  busy = busy;
  left = 0;
  err = set_at (drive_of v) true v.err;
  df = set_at (drive_of v) false v.df;
}

-- A word has gone over. At the end of a sector the drive may be busy again; behind the last word
-- of a read it is not.
abbrev pub advance : ℕ → View → View
advance busy v = record v {
  pos = v.pos + 1;
  left = v.left - 1;
  busy =
      if (v.left - 1) % 256 == 0
      then (if v.left - 1 == 0 then (if v.writing then busy else 0) else busy)
      else 0;
}

abbrev pub put_word : ℕ → View → View
put_word w v = record v {
  words = λ u p. if u == v.unit && p == v.pos then w else v.words u p;
  dirty = set_at v.unit true v.dirty;
}

abbrev pub flush : ℕ → View → View
flush busy v = record v {
  busy = busy;
  err = set_at (drive_of v) false v.err;
  df = set_at (drive_of v) false v.df;
  dirty = set_at (drive_of v) false v.dirty;
}

-- Registers and commands are written to an idle channel only; what a drive does with one that comes
-- while BSY or DRQ is set is left open, and so are the bits of a status with BSY. `present` tells
-- which drives there are, and `sound` the sectors that exist and can be read and written: a command
-- for sound sectors is carried out, a read whose first sector is not sound ends with an error, and
-- nothing is known of a transfer that fails behind its first sector. A drive is busy for at most
-- `latency` reads of its status; `delay` is the number that the next command or sector takes.
pub record Ata (bus : Bus) (ch : Channel) (latency : ℕ) : Type 0 where
  pub view : bus.Device → View
  pub present : ℕ → Bool
  pub sound : ℕ → ℕ → Bool
  pub sound_present : (u l : ℕ) → sound u l ≡ true → present u ≡ true
  pub delay : bus.Device → ℕ
  pub delay_le : (d : bus.Device) → delay d ≤ latency
  pub select :
      (v : ℕ) (d : bus.Device)
      → v < 256
      → Idle (view d)
      → view (bus.write (reg_port ch Reg.hddevsel) v d) ≡ record (view d) { selected = v }
  pub set_count :
      (v : ℕ) (d : bus.Device)
      → v < 256
      → Idle (view d)
      → view (bus.write (reg_port ch Reg.seccount0) v d) ≡ record (view d) { count = v }
  pub set_lba0 :
      (v : ℕ) (d : bus.Device)
      → v < 256
      → Idle (view d)
      → view (bus.write (reg_port ch Reg.lba0) v d) ≡ record (view d) { lba0 = v }
  pub set_lba1 :
      (v : ℕ) (d : bus.Device)
      → v < 256
      → Idle (view d)
      → view (bus.write (reg_port ch Reg.lba1) v d) ≡ record (view d) { lba1 = v }
  pub set_lba2 :
      (v : ℕ) (d : bus.Device)
      → v < 256
      → Idle (view d)
      → view (bus.write (reg_port ch Reg.lba2) v d) ≡ record (view d) { lba2 = v }
  pub read_pio :
      (d : bus.Device)
      → Idle (view d)
      → ((j : ℕ) → j < count_of (view d) → sound (drive_of (view d)) (lba_of (view d) + j) ≡ true)
      → view (bus.write (reg_port ch Reg.command) Cmd.read_pio d) ≡ start false (delay d) (view d)
  pub write_pio :
      (d : bus.Device)
      → Idle (view d)
      → ((j : ℕ) → j < count_of (view d) → sound (drive_of (view d)) (lba_of (view d) + j) ≡ true)
      → view (bus.write (reg_port ch Reg.command) Cmd.write_pio d) ≡ start true (delay d) (view d)
  pub read_error :
      (d : bus.Device)
      → Idle (view d)
      → present (drive_of (view d)) ≡ true
      → sound (drive_of (view d)) (lba_of (view d)) ≡ false
      → view (bus.write (reg_port ch Reg.command) Cmd.read_pio d) ≡ refuse (delay d) (view d)
  pub cache_flush :
      (d : bus.Device)
      → Idle (view d)
      → view (bus.write (reg_port ch Reg.command) Cmd.cache_flush d) ≡ flush (delay d) (view d)
  pub busy_status :
      (d : bus.Device)
      → 0 < (view d).busy
      → (bit_and (bus.read (reg_port ch Reg.status) d).0 Sr.bsy ≢ 0)
        × (view (bus.read (reg_port ch Reg.status) d).1
            ≡ record (view d) { busy = (view d).busy - 1 })
  pub ready_status :
      (d : bus.Device)
      → (view d).busy ≡ 0
      → (bit_and (bus.read (reg_port ch Reg.status) d).0 Sr.bsy ≡ 0)
        × (bit_and (bus.read (reg_port ch Reg.status) d).0 Sr.err
            ≡ (if (view d).err (drive_of (view d)) then Sr.err else 0))
        × (bit_and (bus.read (reg_port ch Reg.status) d).0 Sr.df
            ≡ (if (view d).df (drive_of (view d)) then Sr.df else 0))
        × (bit_and (bus.read (reg_port ch Reg.status) d).0 Sr.drq
            ≡ (if (view d).left == 0 then 0 else Sr.drq))
        × (view (bus.read (reg_port ch Reg.status) d).1 ≡ view d)
  -- The port that the driver reads to wait is not one of the channel's command registers.
  pub altstatus : (d : bus.Device) → view (bus.read (reg_port ch Reg.altstatus) d).1 ≡ view d
  pub read_word :
      (d : bus.Device)
      → (view d).busy ≡ 0
      → (view d).writing ≡ false
      → 0 < (view d).left
      → ((bus.read_word ch.base d).0 ≡ (view d).words (view d).unit (view d).pos)
        × (view (bus.read_word ch.base d).1 ≡ advance (delay d) (view d))
  pub write_word :
      (w : ℕ) (d : bus.Device)
      → (view d).busy ≡ 0
      → (view d).writing ≡ true
      → 0 < (view d).left
      → w < 2 ^ 16
      → view (bus.write_word ch.base w d) ≡ advance (delay d) (put_word w (view d))

-- The drive has taken over the last sector of a write before it is looked at again. The driver
-- needs this, because it sends the command that empties the cache without a wait for BSY.
abbrev pub Prompt : (bus : Bus) (ch : Channel) (latency : ℕ) → Ata bus ch latency → Type 0
Prompt bus ch latency ata =
    (d : bus.Device) → (ata.view d).writing ≡ true → (ata.view d).left ≡ 1 → ata.delay d ≡ 0
