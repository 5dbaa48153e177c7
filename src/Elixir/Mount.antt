-- ===== src/Elixir/Mount.antt =====
-- `elixir_mount` on a drive that follows the interface of the driver.
use binbows_dos.Common.{ℕ, ◌+◌, ◌*◌, ◌<◌, ◌≡◌, ◌≢◌, Option, some, List, All, Bool, true, false}
use binbows_dos.Memory.{Memory, load32}
use binbows_dos.Io.{Bus}
use binbows_dos.Alloc.{State, header_size, request}
use binbows_dos.Alloc.Span.{Span}
use binbows_dos.Alloc.FirstFit.{Carved}
use binbows_dos.Alloc.Kmalloc.{Holds}
use binbows_dos.Ide.{Channels, Devices}
use binbows_dos.Ide.Ata.{Ata, Idle}
use binbows_dos.Ide.Read.{disk_byte}
use binbows_dos.Elixir.{elixir_magic, super_block_size}
use binbows_dos.Elixir.Disk.{failure}

-- The magic number in sector 1 of a drive.
unfoldable pub disk_magic : (ℕ → ℕ) → ℕ
disk_magic words = disk_byte words 512 + disk_byte words 513 * 256

-- The memory before and after a mount at the pointer `sb` of a block: the superblock is that of the
-- drive.
unfoldable pub HasSuper : (ℕ → ℕ) → ℕ → Memory → Type 0
HasSuper words sb m = (j : ℕ) → j < super_block_size → m (sb + j) ≡ disk_byte words (512 + j)

-- The ends of a mount, `sound` telling if sector 1 can be read. No free block is large enough; or
-- the read fails or the magic number on the drive is another, and the free list is again what it was;
-- or `sb_out` points to a block, taken out of the free list, that holds the superblock. The drives
-- are not changed.
pub data Mounted (sound : Bool) (words : ℕ → ℕ) (lo hi sb_out : ℕ) (xs : List Span) (s : State)
    {D : Type 0} (Same : D → Type 0) (r : Option (ℕ × State × D)) : Type 0 where
  no_block :
      (d' : D)
      → r ≡ some (failure, s, d')
      → All (λ (x : Span). x.1 < request super_block_size) xs
      → Same d'
      → Mounted sound words lo hi sb_out xs s Same r
  unreadable :
      (s' : State) (d' : D)
      → r ≡ some (failure, s', d')
      → sound ≡ false
      → Holds lo hi xs s'
      → s'.interrupts ≡ s.interrupts
      → Same d'
      → Mounted sound words lo hi sb_out xs s Same r
  no_magic :
      (s' : State) (d' : D)
      → r ≡ some (failure, s', d')
      → sound ≡ true
      → disk_magic words ≢ elixir_magic
      → Holds lo hi xs s'
      → s'.interrupts ≡ s.interrupts
      → Same d'
      → Mounted sound words lo hi sb_out xs s Same r
  mounted :
      (y : Span) (ys : List Span) (s' : State) (d' : D)
      → r ≡ some (0, s', d')
      → sound ≡ true
      → disk_magic words ≡ elixir_magic
      → Carved lo hi (request super_block_size) xs y ys
      → Holds lo hi ys s'
      → load32 s'.mem sb_out ≡ y.0 + header_size
      → HasSuper words (y.0 + header_size) s'.mem
      → s'.interrupts ≡ s.interrupts
      → Same d'
      → Mounted sound words lo hi sb_out xs s Same r

module _ (bus : Bus) (fuel polls rounds : ℕ) (channels : Channels) (devices : Devices)
    (drive latency : ℕ) (ata : Ata bus (channels (devices drive).channel) latency)
    (lo hi sb_out : ℕ) (xs : List Span) (s : State) (d : bus.Device) where
  abbrev Same : bus.Device → Type 0
  Same d' = ((ata.view d').words ≡ (ata.view d).words) × Idle (ata.view d')

  abbrev sound : Bool
  sound = ata.sound (devices drive).drive 1

  abbrev words : ℕ → ℕ
  words = (ata.view d).words (devices drive).drive
