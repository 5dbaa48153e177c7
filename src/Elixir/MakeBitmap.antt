-- ===== src/Elixir/MakeBitmap.antt =====
-- `create_bitmap`: the two blocks that it takes, and what is in them.
use binbows_dos.Common.{
  ℕ, ◌+◌, ◌^◌, ◌<◌, ◌≤◌, ◌≡◌, refl, ◌∙◌, ◌⊎◌, inl, Option, some, List, length, arith, ◌==◌, ne→==,
  lt→leb, false, true,
}
use binbows_dos.Memory.{IsBytes, load32}
use binbows_dos.Memory.Words.{load32-same}
use binbows_dos.Alloc.{State, header_size, request, kmalloc}
use binbows_dos.Alloc.Span.{Span, covers, in_span}
use binbows_dos.Alloc.FirstFit.{Carved, Below, Below-weaken}
use binbows_dos.Alloc.Kmalloc.{Holds, Granted, failed, granted, kmalloc-Allocated}
use binbows_dos.Alloc.Payload.{Holds-same}
use binbows_dos.Alloc.Release.{Released, apart-Carved, span-Carved}
use binbows_dos.Alloc.Pair.{pair_room, off_first, off_both, pair_disjoint, first_back}
use binbows_dos.Alloc.Bytes.{kmalloc-IsBytes}
use binbows_dos.Elixir.{bitmap_bytes, fill_bitmap, add_bitmap, create_bitmap}
use binbows_dos.Elixir.BitmapMemory.{
  bitmap_memory, bitmap_memory_apart, bitmap_memory-IsBytes, bitmap_memory_bitmap,
  bitmap_memory_total, bitmap_memory_clear,
}

-- Two blocks, the structure's `y` and the bitmap's `z`, are taken out of the free list `xs`.
pub record TwoBlocks (lo hi size : ℕ) (xs : List Span) (s : State) (y : Span) (ys : List Span)
    (z : Span) (zs : List Span) (s' : State) : Type 0 where
  pub first : Carved lo hi (request 16) xs y ys
  pub second : Carved lo hi (request (bitmap_bytes size)) ys z zs
  pub between : State
  pub behind_first : Holds lo hi ys between
  pub holds : Holds lo hi zs s'
  pub held_first : load32 s'.mem y.0 ≡ y.1
  pub held_second : load32 s'.mem z.0 ≡ z.1
  pub bitmap : load32 s'.mem (y.0 + header_size + 12) ≡ z.0 + header_size
  pub total : load32 s'.mem (y.0 + header_size + 8) ≡ size
  pub clear : (j : ℕ) → j < bitmap_bytes size → s'.mem (z.0 + header_size + j) ≡ 0
  pub frame : (q : ℕ) → covers q xs ≡ false → s'.mem q ≡ s.mem q
  pub interrupts : s'.interrupts ≡ s.interrupts
  pub kept_bytes : IsBytes s.mem → IsBytes s'.mem

module _ (lo hi size : ℕ) (xs : List Span) (s : State) (y : Span) (ys : List Span) (s1 : State)
    (z : Span) (zs : List Span) (s2 : State) (g : Granted lo hi 16 xs s y ys s1)
    (k : Granted lo hi (bitmap_bytes size) ys s1 z zs s2) (some_bytes : 0 < bitmap_bytes size)
    (few : bitmap_bytes size < 2 ^ 31) (small : size < 2 ^ 32) (high : hi ≤ 2 ^ 32) where
  abbrev filled : State
  filled = record s2 { mem = bitmap_memory size (y.0 + header_size) (z.0 + header_size) s2.mem }

  room : (16 ≤ y.1) × (bitmap_bytes size ≤ z.1)
  room = pair_room lo hi 16 (bitmap_bytes size) xs s y ys s1 z zs s2 g k (omega arith) (omega arith)

  off : (q : ℕ) → in_span q y ≡ true → in_span q z ≡ false
  off = off_first lo hi 16 (bitmap_bytes size) xs s y ys s1 z zs s2 g k (omega arith) (omega arith)

  disjoint :
      (y.0 + header_size + 16 ≤ z.0 + header_size)
      ⊎ (z.0 + header_size + bitmap_bytes size ≤ y.0 + header_size)
  disjoint =
      pair_disjoint lo hi 16 (bitmap_bytes size) xs s y ys s1 z zs s2 g k (omega arith)
        (omega arith) (omega arith) some_bytes

  fill_apart : (q : ℕ) → in_span q y ≡ false → in_span q z ≡ false → filled.mem q ≡ s2.mem q
  fill_apart q e f =
      let r = room in
      bitmap_memory_apart size (y.0 + header_size) (z.0 + header_size) s2.mem q (ground arith)
        (ground arith)

  filled-TwoBlocks :
      (fuel fuel' : ℕ)
      → kmalloc fuel 16 s ≡ some (y.0 + header_size, s1)
      → kmalloc fuel' (bitmap_bytes size) s1 ≡ some (z.0 + header_size, s2)
      → TwoBlocks lo hi size xs s y ys z zs filled
  filled-TwoBlocks fuel fuel' e e' =
      let r = room in
      record {
        first = g.carved;
        second = k.carved;
        between = s1;
        behind_first = g.holds;
        holds = Holds-same lo hi zs s2 filled.mem k.holds (λ q c.
            let (off_y, off_z) =
              off_both lo hi 16 (bitmap_bytes size) xs s y ys s1 z zs s2 g k (omega arith)
                (omega arith) q c in
            fill_apart q off_y off_z);
        held_first =
            load32-same y.0 s2.mem filled.mem (λ q l u.
              bitmap_memory_apart size (y.0 + header_size) (z.0 + header_size) s2.mem q
                (inl (omega arith)) (ground (arith, off q, r)))
            ∙ load32-same y.0 s1.mem s2.mem
                (λ q l u. k.frame q (span-Carved lo hi 16 xs y ys g.carved q (ground arith)))
            ∙ g.held;
        held_second =
            load32-same z.0 s2.mem filled.mem (λ q l u.
              bitmap_memory_apart size (y.0 + header_size) (z.0 + header_size) s2.mem q
                (ground (arith, off q, r)) (inl (omega arith)))
            ∙ k.held;
        bitmap =
            bitmap_memory_bitmap size (y.0 + header_size) (z.0 + header_size) s2.mem disjoint
              (omega (arith, k.carved.high, high, r.1));
        total =
            bitmap_memory_total size (y.0 + header_size) (z.0 + header_size) s2.mem disjoint small;
        clear = bitmap_memory_clear size (y.0 + header_size) (z.0 + header_size) s2.mem disjoint;
        frame = λ q out.
            let (out_y, free) = apart-Carved lo hi 16 xs y ys g.carved q out in
            let (out_z, _) = apart-Carved lo hi (bitmap_bytes size) ys z zs k.carved q free in
            fill_apart q out_y out_z ∙ k.frame q free ∙ g.frame q out;
        interrupts = k.interrupts ∙ g.interrupts;
        kept_bytes = λ h.
            bitmap_memory-IsBytes size (y.0 + header_size) (z.0 + header_size) s2.mem (
              kmalloc-IsBytes fuel' (bitmap_bytes size) (z.0 + header_size) s1 s2 e'
                (kmalloc-IsBytes fuel 16 (y.0 + header_size) s s1 e h));
      }

-- What the two blocks take at most.
abbrev pub bitmap_space : ℕ → ℕ
bitmap_space size = request (bitmap_bytes size) + (request 16 + 24)

-- The ends of `create_bitmap` on a drive with sectors: no free block has room for both, and none is
-- kept, or two are.
pub data BitmapMade (lo hi size : ℕ) (xs : List Span) (s : State) (r : Option (ℕ × State))
    : Type 0 where
  no_bitmap :
      (s' : State)
      → r ≡ some (0, s')
      → Below (bitmap_space size) xs
      → Released lo hi xs s s'
      → BitmapMade lo hi size xs s r
  two_blocks :
      (y : Span) (ys : List Span) (z : Span) (zs : List Span) (s' : State)
      → r ≡ some (y.0 + header_size, s')
      → TwoBlocks lo hi size xs s y ys z zs s'
      → BitmapMade lo hi size xs s r

pub Released-refl :
    (lo hi : ℕ) (xs : List Span) (s : State) → Holds lo hi xs s → Released lo hi xs s s
Released-refl lo hi xs s h = record { holds = h; frame = λ q e. refl; interrupts = refl }

module _ (lo hi fuel : ℕ) (xs : List Span) (s : State) (sizes : ℕ → ℕ) (drive : ℕ)
    (h : Holds lo hi xs s) (enough : length xs < fuel) where
  add_bitmap-BitmapMade :
      (y : Span) (ys : List Span) (s1 : State)
      → 0 < sizes drive
      → sizes drive + 7 < 2 ^ 32
      → kmalloc fuel 16 s ≡ some (y.0 + header_size, s1)
      → Granted lo hi 16 xs s y ys s1
      → BitmapMade lo hi (sizes drive) xs s (add_bitmap fuel (sizes drive) (y.0 + header_size) s1)
  unfolding add_bitmap fill_bitmap
  add_bitmap-BitmapMade y ys s1 some_sectors small e g =
      let some_bytes : 0 < bitmap_bytes (sizes drive) = omega arith in
      elim (kmalloc-Allocated lo hi (bitmap_bytes (sizes drive)) ys s1 fuel g.holds some_bytes
        (omega (arith, g.carved.shorter))) [
          | failed few e' ↦
              let (s', done, released) =
                first_back lo hi 16 fuel 12 0 xs s y ys s1 g h enough (omega arith) (omega arith) in
              no_bitmap s' (rw (e', done) refl)
                (g.carved.room (request (bitmap_bytes (sizes drive))) few) released
          | granted z zs s2 e' k ↦
              let ne : (z.0 + header_size == 0) ≡ false =
                ne→== (z.0 + header_size) 0 (λ w. omega arith) in
              two_blocks y ys z zs
                (filled lo hi (sizes drive) xs s y ys s1 z zs s2 g k some_bytes (omega arith)
                  (omega arith) h.high)
                (rw (e', ne) refl)
                (filled-TwoBlocks lo hi (sizes drive) xs s y ys s1 z zs s2 g k some_bytes
                  (omega arith) (omega arith) h.high fuel fuel e e')
        ]

  -- Given fuel for the blocks of the free list, `create_bitmap` on one of the four drives, with
  -- sectors, returns: NULL with the free list as it was, or with the two blocks that it has taken,
  -- the bitmap cleared and the structure pointing to it.
  pub create_bitmap-BitmapMade :
      drive < 4
      → 0 < sizes drive
      → sizes drive + 7 < 2 ^ 32
      → BitmapMade lo hi (sizes drive) xs s (create_bitmap fuel sizes drive s)
  unfolding create_bitmap
  create_bitmap-BitmapMade valid some_sectors small =
      elim (kmalloc-Allocated lo hi 16 xs s fuel h (omega arith) enough) [
        | failed few e ↦
            no_bitmap s
              (rw (lt→leb 4 drive valid, ne→== (sizes drive) 0 (λ z. omega arith), e) refl)
              (Below-weaken (request 16) (bitmap_space (sizes drive)) xs (omega arith) few)
              (Released-refl lo hi xs s h)
        | granted y ys s1 e g ↦
            let ne : (y.0 + header_size == 0) ≡ false =
              ne→== (y.0 + header_size) 0 (λ z. omega arith) in
            rw (lt→leb 4 drive valid, ne→== (sizes drive) 0 (λ z. omega arith), e, ne)
              (add_bitmap-BitmapMade y ys s1 some_sectors small e g)
      ]
