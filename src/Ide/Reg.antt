-- ===== src/Ide/Reg.antt =====
-- The registers of a channel (ATA_REG_* of includes/ide.h) that the driver uses.
use binbows_dos.Common.{ℕ}

abbrev pub seccount0 : ℕ
seccount0 = 0x02

abbrev pub lba0 : ℕ
lba0 = 0x03

abbrev pub lba1 : ℕ
lba1 = 0x04

abbrev pub lba2 : ℕ
lba2 = 0x05

abbrev pub hddevsel : ℕ
hddevsel = 0x06

abbrev pub command : ℕ
command = 0x07

abbrev pub status : ℕ
status = 0x07

abbrev pub control : ℕ
control = 0x0c

abbrev pub altstatus : ℕ
altstatus = 0x0c
