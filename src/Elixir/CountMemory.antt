-- ===== src/Elixir/CountMemory.antt =====
-- The memory that `elixir_read_bitmap` writes once the bitmap is read.
use binbows_dos.Common.{ℕ, zero, suc, ◌+◌, ◌/◌, ◌%◌, ◌^◌, ◌<◌, ◌≤◌, ◌≡◌, refl, ap, ◌∙◌, ◌⊎◌, arith}
use binbows_dos.Memory.{Memory, load32, store32}
use binbows_dos.Memory.Words.{store32-apart, load32-store32, load32-store32_apart}
use binbows_dos.Elixir.{bitmap_bytes, count_loop}
use binbows_dos.Elixir.Bitmap.{sector_bit, used_sectors, count_loop_lem}
use binbows_dos.Elixir.Disk.{count_bitmap}

-- The count looks at the bytes of its sectors only.
pub used_sectors_same :
    (n i : ℕ) (f g : ℕ → ℕ)
    → ((j : ℕ) → j < (i + n + 7) / 8 → f j ≡ g j)
    → used_sectors n i f ≡ used_sectors n i g
unfolding used_sectors sector_bit
used_sectors_same zero i f g same = refl
used_sectors_same (suc n) i f g same =
    let rest = used_sectors_same n (i + 1) f g (λ j h. same j (omega arith)) in
    rw (same (i / 8) (omega arith)) (ap (λ k. g (i / 8) / 2 ^ (i % 8) % 2 + k) rest)

module _ (size bb bitmap : ℕ) (m : Memory) where
  abbrev cleared : Memory
  cleared = store32 (bb + 4) 0 (store32 bb 0 (store32 (bb + 8) size m))

  abbrev counts : ℕ × ℕ
  counts = count_loop size 0 (λ i. cleared (bitmap + i)) (0, 0)

  pub count_bitmap_apart :
      (q : ℕ) → (q < bb) ⊎ (bb + 12 ≤ q) → count_bitmap size bb bitmap m q ≡ m q
  unfolding count_bitmap
  count_bitmap_apart q h =
      store32-apart (bb + 4) q _ _ (omega arith)
      ∙ store32-apart bb q _ _ (omega arith)
      ∙ store32-apart (bb + 4) q _ _ (omega arith)
      ∙ store32-apart bb q _ _ (omega arith)
      ∙ store32-apart (bb + 8) q _ m (omega arith)

  pub count_bitmap_total : size < 2 ^ 32 → load32 (count_bitmap size bb bitmap m) (bb + 8) ≡ size
  unfolding count_bitmap
  count_bitmap_total small =
      load32-store32_apart (bb + 4) (bb + 8) _ _ (omega arith)
      ∙ load32-store32_apart bb (bb + 8) _ _ (omega arith)
      ∙ load32-store32_apart (bb + 4) (bb + 8) _ _ (omega arith)
      ∙ load32-store32_apart bb (bb + 8) _ _ (omega arith)
      ∙ load32-store32 (bb + 8) size m small

  -- The bitmap lies apart from the structure, and has the bytes `f`.
  module _ (disjoint : (bb + 16 ≤ bitmap) ⊎ (bitmap + bitmap_bytes size ≤ bb)) (f : ℕ → ℕ)
      (holds : (j : ℕ) → j < bitmap_bytes size → m (bitmap + j) ≡ f j)
      (small : size + 7 < 2 ^ 32) where
    used_lem : counts.0 ≡ used_sectors size 0 f
    used_lem =
        (count_loop_lem size (λ i. cleared (bitmap + i))).0
        ∙ used_sectors_same size 0 (λ i. cleared (bitmap + i)) f
            (λ j h.
              store32-apart (bb + 4) (bitmap + j) _ _ (omega arith)
              ∙ store32-apart bb (bitmap + j) _ _ (omega arith)
              ∙ store32-apart (bb + 8) (bitmap + j) _ m (omega arith)
              ∙ holds j (omega arith))

    sum_lem : counts.0 + counts.1 ≡ size
    sum_lem = (count_loop_lem size (λ i. cleared (bitmap + i))).1

    pub count_bitmap_used : load32 (count_bitmap size bb bitmap m) (bb + 4) ≡ used_sectors size 0 f
    unfolding count_bitmap
    count_bitmap_used = load32-store32 (bb + 4) counts.0 _ (omega (arith, sum_lem)) ∙ used_lem

    pub count_bitmap_free :
        load32 (count_bitmap size bb bitmap m) bb + load32 (count_bitmap size bb bitmap m) (bb + 4)
        ≡ size
    unfolding count_bitmap
    count_bitmap_free =
        let used : load32 (count_bitmap size bb bitmap m) (bb + 4) ≡ counts.0 =
          load32-store32 (bb + 4) counts.0 _ (omega (arith, sum_lem)) in
        let free : load32 (count_bitmap size bb bitmap m) bb ≡ counts.1 =
          load32-store32_apart (bb + 4) bb _ _ (omega arith)
          ∙ load32-store32 bb counts.1 _ (omega (arith, sum_lem)) in
        rw (used, free) (omega (arith, sum_lem))
