-- ===== src/Elixir/ReadBitmap.antt =====
-- `elixir_read_bitmap` on a drive that follows the interface of the driver.
use binbows_dos.Common.{ℕ, ◌+◌, ◌*◌, ◌<◌, ◌≡◌, Option, some, List, true}
use binbows_dos.Memory.{load32}
use binbows_dos.Io.{Bus}
use binbows_dos.Alloc.{State, header_size, request}
use binbows_dos.Alloc.Span.{Span}
use binbows_dos.Alloc.FirstFit.{Carved, Below}
use binbows_dos.Alloc.Kmalloc.{Holds}
use binbows_dos.Alloc.Release.{Released}
use binbows_dos.Ide.{Channels, Devices}
use binbows_dos.Ide.Ata.{Ata, Idle}
use binbows_dos.Elixir.Disk.{failure, bitmap_sectors}
use binbows_dos.Elixir.ReadMemory.{disk_bitmap, BitmapAt}

-- What the two blocks take at most.
abbrev pub read_space : ℕ → ℕ
read_space size = request (bitmap_sectors size * 512) + (request 16 + 24)

-- The ends of a read. No free block has room for both blocks, and none is kept; or `bb_out` points to
-- the structure, in two blocks that are taken out of the free list.
pub data BitmapRead (lo hi size bb_out : ℕ) (xs : List Span) (s : State) (f : ℕ → ℕ) {D : Type 0}
    (Same : D → Type 0) (r : Option (ℕ × State × D)) : Type 0 where
  no_room :
      (s' : State) (d' : D)
      → r ≡ some (failure, s', d')
      → Below (read_space size) xs
      → Released lo hi xs s s'
      → Same d'
      → BitmapRead lo hi size bb_out xs s f Same r
  bitmap_read :
      (y : Span) (ys : List Span) (z : Span) (zs : List Span) (s' : State) (d' : D)
      → r ≡ some (0, s', d')
      → Carved lo hi (request 16) xs y ys
      → Carved lo hi (request (bitmap_sectors size * 512)) ys z zs
      → Holds lo hi zs s'
      → load32 s'.mem bb_out ≡ y.0 + header_size
      → BitmapAt size f (y.0 + header_size) (z.0 + header_size) s'.mem
      → s'.interrupts ≡ s.interrupts
      → Same d'
      → BitmapRead lo hi size bb_out xs s f Same r

module _ (bus : Bus) (fuel polls rounds : ℕ) (channels : Channels) (devices : Devices)
    (drive latency : ℕ) (ata : Ata bus (channels (devices drive).channel) latency)
    (lo hi bb_out : ℕ) (xs : List Span) (s : State) (d : bus.Device) where
  abbrev size : ℕ
  size = (devices drive).size

  abbrev bytes : ℕ
  bytes = bitmap_sectors size * 512

  abbrev on_drive : ℕ → ℕ
  on_drive = disk_bitmap ((ata.view d).words (devices drive).drive)

  abbrev Same : bus.Device → Type 0
  Same d' = ((ata.view d').words ≡ (ata.view d).words) × Idle (ata.view d')

  -- The sectors of the bitmap can be read.
  abbrev Readable : Type 0
  Readable = (j : ℕ) → j < bitmap_sectors size → ata.sound (devices drive).drive (2 + j) ≡ true
