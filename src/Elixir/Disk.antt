-- ===== src/Elixir/Disk.antt =====
-- The Elixir file system on a drive: src/fs/elixir.c, the routines of src/fs/create_bitmap.c that
-- transfer the bitmap, and src/fs/create_file.c. Messages are left out.
use binbows_dos.Common.{
  ℕ, ◌+◌, ◌-◌, ◌*◌, ◌/◌, ◌%◌, ◌^◌, ◌||◌, Option, some, ◌>>=◌, leb, ◌==◌, if◌then◌else◌,
}
use binbows_dos.Memory.{Memory, load32, store32, write, memset}
use binbows_dos.Io.{Bus}
use binbows_dos.Alloc.{State, kmalloc, kfree}
use binbows_dos.Ide.{Channels, Devices, ide_read_sectors, ide_write_sectors_counted}
use binbows_dos.Elixir.{
  elixir_bitmap_start_lba, elixir_magic, super_block_size, bitmap_bytes, count_loop, create_super,
  create_bitmap,
}

abbrev pub elixir_superblock_lba : ℕ
elixir_superblock_lba = 1

-- `return -1;`
abbrev pub failure : ℕ
failure = 2 ^ 32 - 1

-- `(bitmap_bytes + 511) / 512`
abbrev pub bitmap_sectors : ℕ → ℕ
bitmap_sectors size = (bitmap_bytes size + 511) % 2 ^ 32 / 512

-- The field `s_magic`.
abbrev pub magic_at : Memory → ℕ → ℕ
magic_at m sb = m sb + m (sb + 1) * 256

-- The end of `elixir_read_bitmap`: the fields, and the counts over the bitmap. `bb` and its bitmap are
-- two blocks, so that the counters can be kept beside the memory.
unfoldable pub count_bitmap : ℕ → ℕ → ℕ → Memory → Memory
count_bitmap size bb bitmap m =
    let m1 = store32 (bb + 4) 0 (store32 bb 0 (store32 (bb + 8) size m)) in
    let (used, free) = count_loop size 0 (λ i. m1 (bitmap + i)) (0, 0) in
    store32 (bb + 4) used (store32 bb free m1)

-- `struct index` is packed: 514 bytes.
abbrev pub index_size : ℕ
index_size = 514

-- The assignments to the fields behind the `memset`.
unfoldable pub fill_index : ℕ → Memory → Memory
fill_index p m =
    write p 0 (store32 (p + 6) 0 (store32 (p + 2) 0 (write (p + 1) 1 (memset p 0 index_size m))))

unfoldable pub create_file : ℕ → ℕ → State → Option (ℕ × State)
create_file fuel drive s = if leb 4 drive then some (0, s) else (do
  (p, s1) ← kmalloc fuel index_size s
  some (if p == 0 then (0, s1) else (p, record s1 { mem = fill_index p s1.mem })))

-- `fuel` is that of the allocator, `polls` that of a wait for the drive, and `rounds` that of the
-- chunks of a write. The results are the code, the memory's state and the devices'.
module _ (bus : Bus) (fuel polls rounds : ℕ) (channels : Channels) (devices : Devices) where
  abbrev pub Outcome : Type 0
  Outcome = Option (ℕ × State × bus.Device)

  -- `kfree(p); return -1;`
  unfoldable pub free_and_fail : ℕ → State → bus.Device → Outcome
  free_and_fail p s d = do s1 ← kfree fuel p s; some (failure, s1, d)

  unfoldable pub elixir_write_bitmap : ℕ → ℕ → Memory → bus.Device → Option (ℕ × bus.Device)
  elixir_write_bitmap drive bb m d =
      if bb == 0 || load32 m (bb + 12) == 0 then some (failure, d) else (do
        (err, d1) ←
            ide_write_sectors_counted bus rounds polls channels devices drive
              elixir_bitmap_start_lba (bitmap_sectors (load32 m (bb + 8)) * 512 % 2 ^ 32)
              (load32 m (bb + 12)) m d
        some (if err == 0 then 0 else failure, d1))

  -- `elixir_read_bitmap` once both blocks are there. The number of sectors is passed as a `uint8_t`.
  unfoldable pub load_bitmap : ℕ → ℕ → ℕ → ℕ → State → bus.Device → Outcome
  load_bitmap drive bb_out bb bitmap s d = do
    let size = (devices drive).size
    (err, m, d1) ←
        ide_read_sectors bus polls channels devices drive (bitmap_sectors size % 2 ^ 8)
          elixir_bitmap_start_lba bitmap s.mem d
    let s1 = record s { mem = m }
    if err == 0
        then some (0, record s { mem = store32 bb_out bb (count_bitmap size bb bitmap m) }, d1)
        else (do s2 ← kfree fuel bitmap s1; free_and_fail bb s2 d1)

  -- `bb_out` is the address of the pointer that gets the bitmap's structure.
  unfoldable pub elixir_read_bitmap : ℕ → ℕ → State → bus.Device → Outcome
  elixir_read_bitmap drive bb_out s d = if leb 4 drive then some (failure, s, d) else (do
    (bb, s1) ← kmalloc fuel 16 s
    if bb == 0 then some (failure, s1, d) else (do
      (bitmap, s2) ← kmalloc fuel (bitmap_sectors (devices drive).size * 512 % 2 ^ 32) s1
      let s3 = record s2 { mem = store32 (bb + 12) bitmap s2.mem }
      if bitmap == 0 then free_and_fail bb s3 d else load_bitmap drive bb_out bb bitmap s3 d))

  -- The end of `elixir_format`, on success and where the bitmap could not be written.
  unfoldable pub free_all : ℕ → ℕ → ℕ → State → bus.Device → Outcome
  free_all code bb sb s d = do
    s1 ← kfree fuel (load32 s.mem (bb + 12)) s
    s2 ← kfree fuel bb s1
    s3 ← kfree fuel sb s2
    some (code, s3, d)

  -- `elixir_format` behind the write of the superblock.
  unfoldable pub format_bitmap : ℕ → ℕ → State → bus.Device → Outcome
  format_bitmap drive sb s d = do
    (bb, s1) ← create_bitmap fuel (λ j. (devices j).size) drive s
    if bb == 0 then free_and_fail sb s1 d else (do
      (err, d1) ← elixir_write_bitmap drive bb s1.mem d
      free_all (if err == 0 then 0 else failure) bb sb s1 d1)

  unfoldable pub elixir_format : ℕ → State → bus.Device → Outcome
  elixir_format drive s d = do
    (sb, s1) ← create_super fuel (λ j. (devices j).size) drive s
    if sb == 0 then some (failure, s1, d) else (do
      (err, d1) ←
          ide_write_sectors_counted bus rounds polls channels devices drive elixir_superblock_lba
            super_block_size sb s1.mem d
      if err == 0 then format_bitmap drive sb s1 d1 else free_and_fail sb s1 d1)

  -- `elixir_mount` behind the read.
  unfoldable pub check_super : ℕ → ℕ → State → bus.Device → Outcome
  check_super sb_out sb s d =
      if magic_at s.mem sb == elixir_magic
      then some (0, record s { mem = store32 sb_out sb s.mem }, d)
      else free_and_fail sb s d

  unfoldable pub read_super : ℕ → ℕ → ℕ → State → bus.Device → Outcome
  read_super drive sb_out sb s d = do
    (err, m, d1) ←
        ide_read_sectors bus polls channels devices drive 1 elixir_superblock_lba sb s.mem d
    let s1 = record s { mem = m }
    if err == 0 then check_super sb_out sb s1 d1 else free_and_fail sb s1 d1

  -- `sb_out` is the address of the pointer that gets the superblock.
  unfoldable pub elixir_mount : ℕ → ℕ → State → bus.Device → Outcome
  elixir_mount drive sb_out s d = if leb 4 drive then some (failure, s, d) else (do
    (sb, s1) ← kmalloc fuel super_block_size s
    if sb == 0 then some (failure, s1, d) else read_super drive sb_out sb s1 d)
