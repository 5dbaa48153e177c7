-- ===== src/Memory/Tests.antt =====
-- Runs of the memory functions, and the theorems at concrete memories.
use binbows_dos.Common.{◌%◌, ◌≡◌, refl}
use binbows_dos.Common.Int.{negsuc}
use binbows_dos.Memory.{Memory, memmove, memcmp, load32}
use binbows_dos.Memory.Copy.{copied, memmove_lem}
use binbows_dos.Memory.Compare.{Compared, memcmp-Compared}

-- Each byte holds its address.
abbrev counting : Memory
counting q = q % 256

memmove_overlap : load32 (memmove 0x12 0x10 6 counting) 0x14 ≡ 0x15141312
unfolding memmove load32
memmove_overlap = refl

memcmp_runs : memcmp 0x10 0x20 3 counting ≡ negsuc 0
unfolding memcmp
memcmp_runs = refl

memmove_lem_example : memmove 0x12 0x10 6 counting 0x14 ≡ copied 0x12 0x10 6 counting 0x14
memmove_lem_example = memmove_lem 0x12 0x10 6 counting 0x14

memcmp-Compared_example : Compared 0x10 0x20 3 counting (memcmp 0x10 0x20 3 counting)
memcmp-Compared_example = memcmp-Compared 0x10 0x20 3 counting
