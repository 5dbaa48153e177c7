-- ===== src/Elixir/ReadMemory.antt =====
-- The memory that `elixir_read_bitmap` leaves, behind the read from the drive.
use binbows_dos.Common.{ℕ, ◌+◌, ◌-◌, ◌^◌, ◌≤◌, ◌<◌, ◌≡◌, ap, ◌∙◌, ◌⊎◌, List, arith}
use binbows_dos.Memory.{Memory, load32, store32}
use binbows_dos.Memory.Words.{store32-apart, load32-same, load32-store32, load32-store32_apart}
use binbows_dos.Alloc.{State, header_size}
use binbows_dos.Alloc.Span.{Span}
use binbows_dos.Alloc.Chain.{covers-Spaced}
use binbows_dos.Alloc.Kmalloc.{Holds, Granted}
use binbows_dos.Alloc.Payload.{Holds-same}
use binbows_dos.Alloc.Pair.{pair_room, off_both, pair_disjoint}
use binbows_dos.Ide.Read.{Loaded, disk_byte}
use binbows_dos.Elixir.{bitmap_bytes}
use binbows_dos.Elixir.Bitmap.{used_sectors}
use binbows_dos.Elixir.CountMemory.{
  count_bitmap_apart, count_bitmap_total, count_bitmap_used, count_bitmap_free,
}
use binbows_dos.Elixir.Disk.{count_bitmap}

-- The bytes of the bitmap on a drive, from sector 2 on.
abbrev pub disk_bitmap : (ℕ → ℕ) → ℕ → ℕ
disk_bitmap words j = disk_byte words (1024 + j)

-- The bitmap of `size` sectors with the bytes `f` is in memory: the structure at `bb` has the numbers of
-- sectors, of those in use and of the free ones, and the pointer to the bytes.
pub record BitmapAt (size : ℕ) (f : ℕ → ℕ) (bb bitmap : ℕ) (m : Memory) : Type 0 where
  pub total : load32 m (bb + 8) ≡ size
  pub used : load32 m (bb + 4) ≡ used_sectors size 0 f
  pub free : load32 m bb + load32 m (bb + 4) ≡ size
  pub pointer : load32 m (bb + 12) ≡ bitmap
  pub bytes : (j : ℕ) → j < bitmap_bytes size → m (bitmap + j) ≡ f j

-- The memory at the end, behind a read of `n` bytes to the second block.
module _ (lo hi size n bb_out : ℕ) (xs : List Span) (s : State) (y : Span) (ys : List Span)
    (s1 : State) (z : Span) (zs : List Span) (s2 : State) (g : Granted lo hi 16 xs s y ys s1)
    (k : Granted lo hi n ys s1 z zs s2) (some_bytes : 0 < bitmap_bytes size)
    (fits : bitmap_bytes size ≤ n) (few : n ≤ 2 ^ 32 - 8) (small : size + 7 < 2 ^ 32)
    (high : hi ≤ 2 ^ 32) (out : (bb_out + 4 ≤ lo) ⊎ (hi ≤ bb_out)) (words : ℕ → ℕ) (m : Memory)
    (loaded : Loaded words 1024
      (z.0 + header_size)
      n
      (store32 (y.0 + header_size + 12) (z.0 + header_size) s2.mem)
      m) where
  abbrev bb : ℕ
  bb = y.0 + header_size

  abbrev bitmap : ℕ
  bitmap = z.0 + header_size

  abbrev last : Memory
  last = store32 bb_out bb (count_bitmap size bb bitmap m)

  room : (16 ≤ y.1) × (n ≤ z.1)
  room = pair_room lo hi 16 n xs s y ys s1 z zs s2 g k (omega arith) few

  disjoint : (bb + 16 ≤ bitmap) ⊎ (bitmap + n ≤ bb)
  disjoint =
      pair_disjoint lo hi 16 n xs s y ys s1 z zs s2 g k (omega arith) few (omega arith)
        (omega arith)

  loaded_apart : (q : ℕ) → (q < bitmap) ⊎ (bitmap + n ≤ q) → m q ≡ store32 (bb + 12) bitmap s2.mem q
  unfolding Loaded
  loaded_apart q h = ground (arith, loaded q)

  loaded_byte : (j : ℕ) → j < n → m (bitmap + j) ≡ disk_bitmap words j
  unfolding Loaded
  loaded_byte j h =
      let from : bitmap + j - bitmap ≡ j = omega arith in
      ground (arith, loaded (bitmap + j), ap (λ i. disk_byte words (1024 + i)) from)

  -- Inside the region.
  out_apart : (q : ℕ) → lo ≤ q → q < hi → last q ≡ count_bitmap size bb bitmap m q
  out_apart q l u = store32-apart bb_out q bb _ (omega arith)

  pub last-BitmapAt : BitmapAt size (disk_bitmap words) bb bitmap last
  last-BitmapAt =
      let r = room in
      let apart : (bb_out + 4 ≤ bb) ⊎ (bb + 16 ≤ bb_out) =
        omega (arith, g.carved.low, g.carved.high) in
      let holds : (j : ℕ) → j < bitmap_bytes size → m (bitmap + j) ≡ disk_bitmap words j =
        λ j h. loaded_byte j (omega arith) in
      let narrow : (bb + 16 ≤ bitmap) ⊎ (bitmap + bitmap_bytes size ≤ bb) =
        omega (arith, disjoint) in
      let free = load32-store32_apart bb_out bb bb (count_bitmap size bb bitmap m) (omega arith) in
      let used =
        load32-store32_apart bb_out (bb + 4) bb (count_bitmap size bb bitmap m) (omega arith) in
      record {
        total =
            load32-store32_apart bb_out (bb + 8) bb _ (omega arith)
            ∙ count_bitmap_total size bb bitmap m (omega arith);
        used = used ∙ count_bitmap_used size bb bitmap m narrow (disk_bitmap words) holds small;
        free = omega (
          arith,
          free,
          used,
          count_bitmap_free size bb bitmap m narrow (disk_bitmap words) holds small,
        );
        pointer =
            load32-store32_apart bb_out (bb + 12) bb _ (omega arith)
            ∙ load32-same (bb + 12) m (count_bitmap size bb bitmap m)
                (λ q l u. count_bitmap_apart size bb bitmap m q (omega arith))
            ∙ load32-same (bb + 12) (store32 (bb + 12) bitmap s2.mem) m
                (λ q l u. loaded_apart q (omega (arith, disjoint)))
            ∙ load32-store32 (bb + 12) bitmap s2.mem (omega (arith, k.carved.high, high, r.1));
        bytes = λ j h.
            out_apart (bitmap + j) (omega (arith, k.carved.low)) (omega (arith, k.carved.high, r.1))
            ∙ count_bitmap_apart size bb bitmap m (bitmap + j) (omega (arith, narrow))
            ∙ holds j h;
      }

  pub last-Holds : Holds lo hi zs (record s2 { mem = last })
  last-Holds = Holds-same lo hi zs s2 last k.holds λ q c.
      let r = room in
      let inside = covers-Spaced lo hi q zs k.carved.spaced c in
      let (off_y, off_z) = off_both lo hi 16 n xs s y ys s1 z zs s2 g k (omega arith) few q c in
      out_apart q inside.0 inside.1
      ∙ count_bitmap_apart size bb bitmap m q (ground (arith, off_y, r))
      ∙ loaded_apart q (ground (arith, off_z, r))
      ∙ store32-apart (bb + 12) q bitmap s2.mem (ground (arith, off_y, r))
