-- ===== src/Ide/Sr.antt =====
-- The flags of the status register (ATA_SR_* of includes/ide.h) that the driver tests.
use binbows_dos.Common.{ℕ}

abbrev pub bsy : ℕ
bsy = 0x80

abbrev pub df : ℕ
df = 0x20

abbrev pub drq : ℕ
drq = 0x08

abbrev pub err : ℕ
err = 0x01
