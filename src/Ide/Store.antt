-- ===== src/Ide/Store.antt =====
-- The chunks of `ide_write_sectors_counted`.
use binbows_dos.Common.{ℕ, leb, ◌==◌, if◌then◌else◌}
use binbows_dos.Memory.{Memory}
use binbows_dos.Ide.Ata.{Ata}
use binbows_dos.Ide.Reg
use binbows_dos.Ide.Cmd

-- The count register of a chunk and the sectors that it stands for.
abbrev chunk_count : ℕ → ℕ
chunk_count remaining = if leb 256 remaining then 0 else remaining

abbrev chunk_size : ℕ → ℕ
chunk_size remaining = if chunk_count remaining == 0 then 256 else chunk_count remaining
