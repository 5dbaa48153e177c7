-- ===== src/Ide/Cmd.antt =====
-- The commands (ATA_CMD_* of includes/ide.h) that the driver sends.
use binbows_dos.Common.{ℕ}

abbrev pub read_pio : ℕ
read_pio = 0x20

abbrev pub write_pio : ℕ
write_pio = 0x30

abbrev pub cache_flush : ℕ
cache_flush = 0xe7

abbrev pub identify : ℕ
identify = 0xec
