-- ===== src/Elixir.antt =====
-- The Elixir file system: `create_super` (src/fs/sb.c), and `create_bitmap` and the count of
-- `elixir_read_bitmap` (src/fs/create_bitmap.c). Messages are left out. Arithmetic on `uint32_t`
-- wraps at 2 ^ 32 (-m32).
pub mod Geometry
pub mod Bitmap
pub mod Small
pub mod Disk
pub mod Mount
pub mod BitmapMemory
pub mod CountMemory
pub mod MakeBitmap
pub mod GiveBack
pub mod Format
pub mod Remount
pub mod ReadMemory
pub mod ReadBitmap
pub mod FreshBitmap
pub mod NewFile
pub mod Superblock
mod Tests
use binbows_dos.Common.{
  ℕ, zero, suc, ◌+◌, ◌-◌, ◌*◌, ◌/◌, ◌%◌, ◌^◌, bit_and, Option, none, some, ◌>>=◌, ltb, leb, ◌==◌,
  if◌then◌else◌, true, false,
}
use binbows_dos.Memory.{Memory, write, store32, memset}
use binbows_dos.Alloc.{State, kmalloc, kfree}

abbrev pub elixir_bitmap_start_lba : ℕ
elixir_bitmap_start_lba = 2

abbrev pub elixir_magic : ℕ
elixir_magic = 0xe1f5

-- `struct super_block`, without its padding.
pub record SuperBlock : Type 0 where
  pub s_magic : ℕ
  pub s_free_blocks : ℕ
  pub s_block_size : ℕ
  pub s_total_blocks : ℕ
  pub s_free_inodes : ℕ
  pub s_total_inodes : ℕ
  pub s_bitmap_start_lba : ℕ
  pub s_bitmap_blocks : ℕ
  pub s_inode_table_lba : ℕ
  pub s_data_start_lba : ℕ
  pub s_state : ℕ
  pub s_errors : ℕ

-- The chain of tests on the size of the drive: `none` where it returns NULL.
unfoldable pub sectors_per_block : ℕ → Option ℕ
sectors_per_block total_sectors =
    if ltb total_sectors 32768
    then none
    else if ltb total_sectors 131072
    then some 2
    else if ltb total_sectors 524288
    then some 4
    else if ltb total_sectors 2097152
    then some 8
    else if ltb total_sectors 8388608
    then some 16
    else if ltb total_sectors 33554432
    then some 32
    else if ltb total_sectors 134217728
    then some 64
    else some 128

unfoldable pub bitmap_size_sectors : ℕ → ℕ
bitmap_size_sectors total_sectors =
    let sectors = (total_sectors + 4095) % 2 ^ 32 / 4096 in if ltb sectors 1 then 1 else sectors

-- The values that the fields get, from the size of the drive and of a block in sectors.
unfoldable pub super_fields : ℕ → ℕ → SuperBlock
super_fields total_sectors per_block =
    let total_blocks = total_sectors / per_block in
    let bitmap_blocks =
      (bitmap_size_sectors total_sectors + per_block + 2 ^ 32 - 1) % 2 ^ 32 / per_block in
    let inode_table_lba = (elixir_bitmap_start_lba + bitmap_blocks * per_block) % 2 ^ 32 in
    record {
      s_magic = elixir_magic;
      s_free_blocks = total_blocks;
      s_block_size = 512 * per_block % 2 ^ 16;
      s_total_blocks = total_blocks;
      s_free_inodes = 128;
      s_total_inodes = 128;
      s_bitmap_start_lba = elixir_bitmap_start_lba;
      s_bitmap_blocks = bitmap_blocks;
      s_inode_table_lba = inode_table_lba;
      s_data_start_lba = (inode_table_lba + 256) % 2 ^ 32;
      s_state = 1;
      s_errors = 0;
    }

-- A write of a 16-bit field.
unfoldable pub store16 : ℕ → ℕ → Memory → Memory
store16 a v m = write (a + 1) (v / 256 % 256) (write a (v % 256) m)

-- The assignments to the fields of the packed structure at `p`, in the order of the source.
unfoldable pub store_super : ℕ → SuperBlock → Memory → Memory
store_super p sb m =
    let m = store16 p sb.s_magic m in
    let m = store16 (p + 6) sb.s_block_size m in
    let m = store32 (p + 8) sb.s_total_blocks m in
    let m = store32 (p + 20) sb.s_bitmap_start_lba m in
    let m = store32 (p + 24) sb.s_bitmap_blocks m in
    let m = store32 (p + 28) sb.s_inode_table_lba m in
    let m = store32 (p + 32) sb.s_data_start_lba m in
    let m = store32 (p + 2) sb.s_free_blocks m in
    let m = store32 (p + 16) sb.s_total_inodes m in
    let m = store32 (p + 12) sb.s_free_inodes m in
    let m = write (p + 36) (sb.s_state % 256) m in write (p + 37) (sb.s_errors % 256) m

-- `sizeof(struct super_block)`
abbrev pub super_block_size : ℕ
super_block_size = 512

-- What is done with the block that `kmalloc` gave, whose address is the result.
unfoldable pub fill_super : ℕ → ℕ → State → ℕ × State
fill_super total_sectors sb s =
    let s = record s { mem = memset sb 0 super_block_size s.mem } in
    elim (sectors_per_block total_sectors) [
      | none ↦ (0, s)
      | some per_block ↦
          (sb, record s { mem = store_super sb (super_fields total_sectors per_block) s.mem })
    ]

-- `sizes` gives `ide_devices[drive].Size`; the result 0 is NULL.
unfoldable pub create_super : ℕ → (ℕ → ℕ) → ℕ → State → Option (ℕ × State)
create_super fuel sizes drive s = if leb 4 drive then some (0, s) else (do
  (sb, s) ← kmalloc fuel super_block_size s
  some (if sb == 0 then (0, s) else fill_super (sizes drive) sb s))

-- `(size + 7) / 8`
abbrev pub bitmap_bytes : ℕ → ℕ
bitmap_bytes size = (size + 7) % 2 ^ 32 / 8

-- The end of `create_bitmap`: the cleared bitmap and the fields of `struct block_bitmap`.
unfoldable pub fill_bitmap : ℕ → ℕ → ℕ → State → ℕ × State
fill_bitmap size bb bitmap s =
    let m = memset bitmap 0 (bitmap_bytes size) s.mem in
    (bb, record s { mem = store32 (bb + 4) 0 (store32 bb size (store32 (bb + 8) size m)) })

-- The second half of `create_bitmap`: the bitmap's bytes are allocated for the structure `bb`.
unfoldable pub add_bitmap : ℕ → ℕ → ℕ → State → Option (ℕ × State)
add_bitmap fuel size bb s = do
  (bitmap, s1) ← kmalloc fuel (bitmap_bytes size) s
  let s2 = record s1 { mem = store32 (bb + 12) bitmap s1.mem }
  if bitmap == 0
      then (do s3 ← kfree fuel bb s2; some (0, s3))
      else some (fill_bitmap size bb bitmap s2)

unfoldable pub create_bitmap : ℕ → (ℕ → ℕ) → ℕ → State → Option (ℕ × State)
create_bitmap fuel sizes drive s =
    if leb 4 drive then some (0, s) else if sizes drive == 0 then some (0, s) else (do
      (bb, s1) ← kmalloc fuel 16 s
      if bb == 0 then some (0, s1) else add_bitmap fuel (sizes drive) bb s1)

-- `bb->bitmap[i / 8] & (1 << i % 8)`; `bitmap` gives the bytes by their index.
unfoldable pub is_used : (ℕ → ℕ) → ℕ → ℕ
is_used bitmap i = bit_and (bitmap (i / 8)) (2 ^ (i % 8))

-- The count of `elixir_read_bitmap`, with the rounds left and the index: `used_count`, then
-- `free_count`.
unfoldable pub count_loop : ℕ → ℕ → (ℕ → ℕ) → ℕ × ℕ → ℕ × ℕ
count_loop zero i bitmap counts = counts
count_loop (suc left) i bitmap (used, free) =
    count_loop left (i + 1) bitmap
      (if is_used bitmap i == 0 then (used, free + 1) else (used + 1, free))
