-- ===== src/Elixir/Tests.antt =====
-- Runs of the file system's routines.
use binbows_dos.Common.{
  ℕ, ◌+◌, ◌*◌, ◌<◌, ◌≡◌, refl, Option, some, ◌>>=◌, true, arith, ◌⊎◌, All, List, ◌==◌,
  if◌then◌else◌, [], ◌∷◌,
}
use binbows_dos.Memory.{load32, store32, memset_page, memset, write}
use binbows_dos.Alloc.{
  State, init_allocator_region, kmalloc, kfree, align_up, request, save_and_cli, restore_flags,
  search_loop, take_block, finish, insert_free_block_sorted, find_place, find_prev, link_block,
  merge_next, merge_prev, merge_back, block_end,
}
use binbows_dos.Elixir.{
  sectors_per_block, bitmap_size_sectors, super_fields, store16, store_super, fill_super,
  create_super, fill_bitmap, add_bitmap, create_bitmap, count_loop, is_used,
}
use binbows_dos.Alloc.Span.{Span}
use binbows_dos.Alloc.Kmalloc.{Holds, Granted}
use binbows_dos.Alloc.Region.{init-Holds}
use binbows_dos.Elixir.{super_block_size, elixir_magic}
use binbows_dos.Elixir.Disk.{create_file}
use binbows_dos.Ide.{Devices}
use binbows_dos.Ide.Ata.{View}
use binbows_dos.Ide.Sample.{numbered, found_drives}
use binbows_dos.Elixir.NewFile.{FileMade, create_file-FileMade}
use binbows_dos.Elixir.Small.{create_super-Granted}
use binbows_dos.Elixir.Geometry.{
  FitsDrive, super_fields-FitsDrive, block_size_lem, bitmap_size_wraps,
}

super_fields-FitsDrive_example :
    (k : ℕ) × (sectors_per_block 40960 ≡ some k) × FitsDrive 40960 k (super_fields 40960 k)
super_fields-FitsDrive_example = super_fields-FitsDrive 40960 (omega arith) (omega arith)

block_size_lem_example :
    (k : ℕ) × (sectors_per_block 200000000 ≡ some k) × ((super_fields 200000000 k).s_block_size ≡ 0)
block_size_lem_example = block_size_lem 200000000 (omega arith)

bitmap_size_wraps_example :
    ((super_fields 0xffff_ffff 128).s_bitmap_blocks ≡ 1)
    × ((super_fields 0xffff_ffff 128).s_bitmap_blocks * 128 * 4096 < 0xffff_ffff)
bitmap_size_wraps_example = bitmap_size_wraps 0xffff_ffff (omega arith) (omega arith)

-- 2048 bytes from 0x1000 on.
abbrev start : State
start =
    init_allocator_region 0x1000 2048
      (record { mem = λ q. 0xff; free_list_head = 0; interrupts = true })

-- A drive of 32768 sectors.
abbrev sizes : ℕ → ℕ
sizes drive = 32768

-- The pointer to the superblock, and its number of blocks and first data sector.
super_run : Option (ℕ × ℕ × ℕ)
unfolding kmalloc align_up request save_and_cli restore_flags search_loop take_block finish
    init_allocator_region load32 store32 memset_page memset write create_super fill_super
    store_super store16 super_fields sectors_per_block bitmap_size_sectors
super_run = do
  (sb, s) ← create_super 3 sizes 0 start
  some (sb, load32 s.mem (sb + 8), load32 s.mem (sb + 32))

super_runs : super_run ≡ some (0x1008, 16384, 266)
unfolding super_run
super_runs = refl

-- The second block does not fit: nothing stays allocated.
bitmap_run : Option (ℕ × ℕ)
unfolding kmalloc kfree align_up request save_and_cli restore_flags search_loop take_block finish
    insert_free_block_sorted find_place find_prev link_block merge_next merge_prev merge_back
    block_end init_allocator_region load32 store32 memset_page memset write create_bitmap add_bitmap
    fill_bitmap
bitmap_run = do (bb, s) ← create_bitmap 3 sizes 0 start; some (bb, load32 s.mem 0x1000)

bitmap_runs : bitmap_run ≡ some (0, 2040)
unfolding bitmap_run
bitmap_runs = refl

count_runs : count_loop 12 0 (λ i. 0x11) (0, 0) ≡ (3, 9)
unfolding count_loop is_used
count_runs = refl

abbrev start_spans : List Span
start_spans = (0x1000, 2040) ∷ []

-- Drives of 1000 sectors.
abbrev small_sizes : ℕ → ℕ
small_sizes drive = 1000

start-Holds : Holds 0x1000 0x1800 start_spans start
start-Holds =
    init-Holds 0x1000 2048 (record { mem = λ q. 0xff; free_list_head = 0; interrupts = true })
      (omega arith) (omega arith) (omega arith) (omega arith)

create_super-Granted_example :
    (All (λ (x : Span). x.1 < request super_block_size) start_spans
      × (create_super 2 small_sizes 1 start ≡ some (0, start)))
    ⊎ ((y : Span) × (ys : List Span) × (s1 : State) × (¬ All
          (λ (x : Span). x.1 < request super_block_size)
          start_spans)
        × (create_super 2 small_sizes 1 start ≡ some (0, s1))
        × Granted 0x1000 0x1800 super_block_size start_spans start y ys s1)
create_super-Granted_example =
    create_super-Granted 0x1000 0x1800 start_spans start small_sizes 1 2 start-Holds (omega arith)
      (omega arith) (omega arith)

-- A disk whose sector 1 starts with the magic number.
abbrev magic_disk : View
magic_disk = record numbered { words = λ u p. if p == 256 then elixir_magic else 0 }

-- A heap of 1 MiB, enough for the bitmap of the disk.
abbrev heap : State
heap =
    init_allocator_region 0x10_0000 0x10_0000
      (record { mem = λ q. 0; free_list_head = 0; interrupts = true })

abbrev heap_spans : List Span
heap_spans = (0x10_0000, 0xf_fff8) ∷ []

heap-Holds : Holds 0x10_0000 0x20_0000 heap_spans heap
heap-Holds =
    init-Holds 0x10_0000 0x10_0000 (record { mem = λ q. 0; free_list_head = 0; interrupts = true })
      (omega arith) (omega arith) (omega arith) (omega arith)

-- The disk has 0x10_0000 sectors; this entry has fewer, and sector 2 a set bit.
abbrev small_drives : Devices
small_drives n = record (found_drives n) { size = 40960 }

abbrev used_disk : View
used_disk = record numbered { words = λ u p. if p == 512 then 4 else 0 }

create_file-FileMade_example : FileMade 0x10_0000 0x20_0000 heap_spans heap (create_file 2 1 heap)
create_file-FileMade_example =
    create_file-FileMade 0x10_0000 0x20_0000 2 1 heap_spans heap heap-Holds (omega arith)
      (omega arith)
