-- ===== src/Elixir/Format.antt =====
-- `elixir_format` on a drive that follows the interface of the driver.
use binbows_dos.Common.{
  ℕ, ◌+◌, ◌*◌, ◌^◌, ◌≤◌, ◌<◌, ◌≡◌, ◌≢◌, Option, some, List, All, length, true, false,
}
use binbows_dos.Memory.{Memory}
use binbows_dos.Io.{Bus}
use binbows_dos.Alloc.{State, request}
use binbows_dos.Alloc.Span.{Span}
use binbows_dos.Alloc.FirstFit.{Below}
use binbows_dos.Alloc.Kmalloc.{Holds}
use binbows_dos.Alloc.Release.{Released}
use binbows_dos.Ide.{Channels, Devices}
use binbows_dos.Ide.Ata.{View, Ata, Idle, Prompt}
use binbows_dos.Ide.Read.{disk_byte}
use binbows_dos.Elixir.{bitmap_bytes, sectors_per_block, super_block_size}
use binbows_dos.Elixir.Disk.{failure, bitmap_sectors}
use binbows_dos.Elixir.Superblock.{super_bytes}
use binbows_dos.Elixir.MakeBitmap.{bitmap_space}

-- What the blocks of a format take at most.
abbrev pub format_space : ℕ → ℕ
format_space size = bitmap_space size + (request super_block_size + 24)

-- The ends of a format. It fails, and no free block has room for its blocks; or the heap had room for
-- a superblock, sector 1 of drive `u` holds the superblock, the bitmap from sector 2 on is clear and
-- the drive's cache is flushed. In any case the channel is idle and the free list is again what it
-- was.
pub data Formatted (lo hi size : ℕ) (xs : List Span) (s : State) {D : Type 0} (view : D → View)
    (u : ℕ) (r : Option (ℕ × State × D)) : Type 0 where
  unformatted :
      (s' : State) (d' : D)
      → r ≡ some (failure, s', d')
      → Below (format_space size) xs
      → Released lo hi xs s s'
      → Idle (view d')
      → Formatted lo hi size xs s view u r
  formatted :
      (per_block : ℕ) (s' : State) (d' : D)
      → r ≡ some (0, s', d')
      → sectors_per_block size ≡ some per_block
      → ¬ All (λ (x : Span). x.1 < request super_block_size) xs
      → ((j : ℕ)
          → j < super_block_size
          → disk_byte ((view d').words u) (512 + j) ≡ super_bytes size per_block j)
      → ((j : ℕ) → j < bitmap_bytes size → disk_byte ((view d').words u) (1024 + j) ≡ 0)
      → Released lo hi xs s s'
      → Idle (view d')
      → (view d').dirty u ≡ false
      → Formatted lo hi size xs s view u r

module _ (bus : Bus) (fuel polls rounds : ℕ) (channels : Channels) (devices : Devices)
    (drive latency : ℕ) (ata : Ata bus (channels (devices drive).channel) latency) (lo hi : ℕ)
    (xs : List Span) (s : State) (h : Holds lo hi xs s) (enough : length xs < fuel)
    (valid : drive < 4) (found : (devices drive).reserved ≢ 0) (unit : (devices drive).drive < 2)
    (patience : latency < polls) (large : 32768 ≤ (devices drive).size)
    (small : (devices drive).size + 7 < 2 ^ 32)
    (some_rounds : bitmap_sectors (devices drive).size + 256 ≤ rounds * 256)
    (prompt : Prompt bus (channels (devices drive).channel) latency ata)
    (sound : (l : ℕ)
      → l < 2 + bitmap_sectors (devices drive).size
      → ata.sound (devices drive).drive l ≡ true) where
  abbrev size : ℕ
  size = (devices drive).size

  abbrev words : bus.Device → ℕ → ℕ
  words d = (ata.view d).words (devices drive).drive
