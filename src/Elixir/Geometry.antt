-- ===== src/Elixir/Geometry.antt =====
-- The regions of the drive that `create_super` lays out.
use binbows_dos.Common.{
  ℕ, ◌+◌, ◌-◌, ◌*◌, ◌/◌, ◌%◌, ◌^◌, ◌<◌, ◌≤◌, ◌≡◌, refl, inl, inr, Option, some, arith, ltb,
  if◌then◌else◌, Bool, true, false, ap, Bool-cases,
}
use native.Mathlib.Nat.{div-add-mod', mod-lt}
use binbows_dos.Elixir.{SuperBlock, sectors_per_block, bitmap_size_sectors, super_fields}

-- The layout fits a drive of `total` sectors: the blocks fill the drive up to a rest, the bitmap has a
-- bit for each sector, and the bitmap, the 256 sectors of the inode table and some data sectors
-- follow each other inside the drive.
pub record FitsDrive (total per_block : ℕ) (sb : SuperBlock) : Type 0 where
  pub blocks_fit : sb.s_total_blocks * per_block ≤ total
  pub blocks_fill : total < (sb.s_total_blocks + 1) * per_block
  pub all_free : sb.s_free_blocks ≡ sb.s_total_blocks
  pub bitmap_covers : total ≤ sb.s_bitmap_blocks * per_block * 4096
  pub inode_table : sb.s_inode_table_lba ≡ sb.s_bitmap_start_lba + sb.s_bitmap_blocks * per_block
  pub data_start : sb.s_data_start_lba ≡ sb.s_inode_table_lba + 256
  pub data_inside : sb.s_data_start_lba < total

bitmap_size_bounds :
    (total : ℕ)
    → total ≤ 2 ^ 32 - 4096
    → (total ≤ bitmap_size_sectors total * 4096)
      × (bitmap_size_sectors total ≤ total / 4096 + 1)
      × (0 < bitmap_size_sectors total)
unfolding bitmap_size_sectors
bitmap_size_bounds total hi = ground arith

-- The layout with blocks of `k` sectors.
module _ (total k : ℕ) (lo : 32768 ≤ total) (hi : total ≤ 2 ^ 32 - 4096) (two : 2 ≤ k)
    (most : k ≤ 128) where
  bitmap_blocks_lem :
      (super_fields total k).s_bitmap_blocks ≡ (bitmap_size_sectors total + k - 1) / k
  unfolding super_fields
  bitmap_blocks_lem =
      let (_, few, some_sector) = bitmap_size_bounds total hi in
      let e : (bitmap_size_sectors total + k + 2 ^ 32 - 1) % 2 ^ 32
          ≡ bitmap_size_sectors total + k - 1 =
        omega arith in
      ap (λ (n : ℕ). n / k) e

  -- The bitmap's blocks hold its sectors, with less than a block to spare.
  bitmap_area :
      (bitmap_size_sectors total ≤ (super_fields total k).s_bitmap_blocks * k)
      × ((super_fields total k).s_bitmap_blocks * k < bitmap_size_sectors total + k)
  bitmap_area =
      let n : ℕ = bitmap_size_sectors total + k - 1 in
      let (_, _, some_sector) = bitmap_size_bounds total hi in
      let whole = div-add-mod' n k in
      let rest = mod-lt n {m = k} (omega arith) in rw bitmap_blocks_lem (omega arith, omega arith)

  fields_fit : FitsDrive total k (super_fields total k)
  unfolding super_fields
  fields_fit =
      let (covers, few, some_sector) = bitmap_size_bounds total hi in
      let (holds, spare) = bitmap_area in
      let whole = div-add-mod' total k in
      let rest = mod-lt total {m = k} (omega arith) in
      record {
        blocks_fit = omega arith;
        blocks_fill = omega arith;
        all_free = refl;
        bitmap_covers = omega arith;
        inode_table = omega arith;
        data_start = omega arith;
        data_inside = omega arith;
      }

-- From 2 to `most` sectors.
abbrev IsChoice : ℕ → Option ℕ → Type 0
IsChoice most o = (k : ℕ) × (o ≡ some k) × (2 ≤ k) × (k ≤ most)

choose :
    (most : ℕ) (b : Bool) (k : ℕ) (o : Option ℕ)
    → 2 ≤ k
    → k ≤ most
    → IsChoice most o
    → IsChoice most (if b then some k else o)
choose most true k o two le rest = (k, refl, two, le)
choose most false k o two le rest = rest

-- The chain of tests, but for the last.
chain :
    (total most : ℕ)
    → 32768 ≤ total
    → 64 ≤ most
    → IsChoice most (if ltb total 134217728 then some 64 else some 128)
    → IsChoice most (sectors_per_block total)
unfolding sectors_per_block
chain total most lo le last = rw (big_enough total lo) (
    choose most (ltb total 131072) 2 _ (omega arith) (omega arith) (
      choose most (ltb total 524288) 4 _ (omega arith) (omega arith) (
        choose most (ltb total 2097152) 8 _ (omega arith) (omega arith) (
          choose most (ltb total 8388608) 16 _ (omega arith) (omega arith)
            (choose most (ltb total 33554432) 32 _ (omega arith) (omega arith) last)))))
  where
    big_enough : (n : ℕ) → 32768 ≤ n → ltb n 32768 ≡ false
    big_enough n h = ground arith

-- A drive of at least 32768 sectors, and of at most 2 ^ 32 - 4096, gets a layout that fits it.
pub super_fields-FitsDrive :
    (total : ℕ)
    → 32768 ≤ total
    → total ≤ 2 ^ 32 - 4096
    → (k : ℕ) × (sectors_per_block total ≡ some k) × FitsDrive total k (super_fields total k)
super_fields-FitsDrive total lo hi =
    let (k, e, two, most) = chosen in (k, e, fields_fit total k lo hi two most)
  where
    chosen : IsChoice 128 (sectors_per_block total)
    chosen = chain total 128 lo (omega arith) (
        choose 128 (ltb total 134217728) 64 _ (omega arith) (omega arith)
          (128, refl, omega arith, omega arith))

-- A block of `k` sectors has 512 * k bytes, but the 16-bit field of a drive of 2 ^ 27 sectors or more
-- gets 0.
pub block_size_lem :
    (total : ℕ)
    → 32768 ≤ total
    → (k : ℕ) × (sectors_per_block total ≡ some k)
      × ((super_fields total k).s_block_size ≡ (if ltb total 134217728 then 512 * k else 0))
unfolding super_fields
block_size_lem total lo = elim (Bool-cases (ltb total 134217728)) [
  | inl e ↦
      let (k, c, two, most) =
        chain total 64 lo (omega arith) (rw e (64, refl, omega arith, omega arith)) in
      (k, c, rw e (omega arith))
  | inr e ↦ (128, largest e, rw e refl)
]
  where
    largest : ltb total 134217728 ≡ false → sectors_per_block total ≡ some 128
    largest e = unfold sectors_per_block in ground arith

-- On a drive of more than 2 ^ 32 - 4096 sectors the rounding wraps, and the bitmap has one block, whose
-- bits are too few.
pub bitmap_size_wraps :
    (total : ℕ)
    → 2 ^ 32 - 4096 < total
    → total < 2 ^ 32
    → ((super_fields total 128).s_bitmap_blocks ≡ 1)
      × ((super_fields total 128).s_bitmap_blocks * 128 * 4096 < total)
unfolding super_fields bitmap_size_sectors
bitmap_size_wraps total lo hi =
    let one : bitmap_size_sectors total ≡ 1 = unfold bitmap_size_sectors in ground arith in
    (rw one refl, rw one (omega arith))
