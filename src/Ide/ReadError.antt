-- ===== src/Ide/ReadError.antt =====
-- `ide_read_sectors` on a sector that the drive cannot read.
use binbows_dos.Memory.{Memory}
use binbows_dos.Ide.Ata.{Ata}
