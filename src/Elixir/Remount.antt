-- ===== src/Elixir/Remount.antt =====
-- `elixir_mount` after `elixir_format`.
use binbows_dos.Common.{ℕ, ◌+◌, ◌<◌, ◌≡◌, Option, some, List}
use binbows_dos.Memory.{load32}
use binbows_dos.Alloc.{State}
use binbows_dos.Alloc.Span.{Span}
use binbows_dos.Alloc.FirstFit.{Below}
use binbows_dos.Ide.Ata.{View, Ata, Idle}
use binbows_dos.Ide.Read.{disk_byte}
use binbows_dos.Elixir.{bitmap_bytes, sectors_per_block, super_block_size}
use binbows_dos.Elixir.Disk.{failure}
use binbows_dos.Elixir.Superblock.{super_bytes}
use binbows_dos.Elixir.Format.{format_space}

-- The two calls one after the other. Either the format fails, for want of a free block with room for
-- its blocks; or both return 0, drive `u` holds the superblock and a clear bitmap, the channel is idle,
-- the interrupt flag is as before, and the pointer at `sb_out` leads to a block with the bytes of the superblock that the format computes for the drive.
pub data Remounted (size sb_out : ℕ) (xs : List Span) (s : State) {D : Type 0} (view : D → View)
    (u : ℕ) (format : Option (ℕ × State × D)) (mount : State → D → Option (ℕ × State × D))
    : Type 0 where
  format_failed :
      (s' : State) (d' : D)
      → format ≡ some (failure, s', d')
      → Below (format_space size) xs
      → Remounted size sb_out xs s view u format mount
  both_done :
      (per_block sb : ℕ) (s' s'' : State) (d' d'' : D)
      → format ≡ some (0, s', d')
      → mount s' d' ≡ some (0, s'', d'')
      → sectors_per_block size ≡ some per_block
      → load32 s''.mem sb_out ≡ sb
      → ((j : ℕ)
          → j < super_block_size
          → disk_byte ((view d'').words u) (512 + j) ≡ super_bytes size per_block j)
      → ((j : ℕ) → j < bitmap_bytes size → disk_byte ((view d'').words u) (1024 + j) ≡ 0)
      → s''.interrupts ≡ s.interrupts
      → ((j : ℕ) → j < super_block_size → s''.mem (sb + j) ≡ super_bytes size per_block j)
      → Idle (view d'')
      → Remounted size sb_out xs s view u format mount
