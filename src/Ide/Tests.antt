-- ===== src/Ide/Tests.antt =====
-- Runs of the driver on a disk behind the primary channel, and the theorems at it.
use binbows_dos.Common.{ℕ, ◌≡◌, refl, ltb, ◌==◌, if◌then◌else◌, true, none, some, arith, inl}
use binbows_dos.Memory.{Memory}
use binbows_dos.Io.{Bus}
use binbows_dos.Ide.{
  Devices, ide_read_sectors, ide_write_sectors_counted, ide_polling, ide_write, ide_read, ide_delay,
}
use binbows_dos.Ide.Ata.{View}
use binbows_dos.Ide.Polling.{ide_polling-Ready}
use binbows_dos.Ide.Probe.{
  primary, Driver, ide_initialize, set_channels, probe_loop, probe_drive, ide_device_exists,
  clear_entry,
}
use binbows_dos.Ide.Probe.Secondary.{ide_initialize_secondary}
use binbows_dos.Ide.Sample.{primary_channels, found_drives, disk, disk_ata, numbered, counting}

-- A busy disk, drive 0 of which has had an error.
abbrev failing : View
failing = record numbered { busy = 2; err = λ u. u == 0 }

ide_polling-Ready_example :
    (d' : View) × (ide_polling disk 3 primary true failing ≡ some (2, d'))
    × (d' ≡ record failing { busy = 0 })
ide_polling-Ready_example = ide_polling-Ready disk primary 2 disk_ata 3 true failing (omega arith)

-- A bus that no device drives.
abbrev floating : Bus
floating = record {
  Device = Unit;
  read = λ port d. (0xff, d);
  write = λ port v d. d;
  read_word = λ port d. (0xffff, d);
  write_word = λ port w d. d;
}

abbrev before : Driver floating
before = record {
  channels = primary_channels;
  devices = found_drives;
  ide_buf = counting;
  device = tt;
}

-- The driver after `ide_initialize`.
after : Driver floating
unfolding ide_initialize set_channels probe_loop probe_drive ide_device_exists clear_entry ide_write
    ide_read ide_delay
after = elim (ide_initialize floating 1 before) [ some s ↦ s | none ↦ before ]

after_run : ide_initialize floating 1 before ≡ some after
unfolding after
after_run = refl

ide_initialize_secondary_example :
    ((fuel numsects lba buf : ℕ) (m : Memory) (d : Unit)
      → ide_read_sectors floating fuel after.channels after.devices 2 numsects lba buf m d
        ≡ some (1, m, d))
    × ((rounds fuel lba count buf : ℕ) (m : Memory) (d : Unit)
        → ide_write_sectors_counted floating rounds fuel after.channels after.devices 2 lba count
            buf m d
          ≡ some (1, d))
ide_initialize_secondary_example =
    ide_initialize_secondary floating 1 before after 2 after_run (inl refl)

-- A drive of three sectors with its first in use.
abbrev small_drives : Devices
small_drives n = record (found_drives n) { size = 3 }

abbrev first_used : ℕ → ℕ
first_used p = if ltb p 256 then 1 else 0
