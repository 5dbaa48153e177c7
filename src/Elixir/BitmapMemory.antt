-- ===== src/Elixir/BitmapMemory.antt =====
-- The memory that `create_bitmap` writes.
use binbows_dos.Common.{ℕ, ◌+◌, ◌^◌, ◌<◌, ◌≤◌, ◌≡◌, ◌∙◌, ◌⊎◌, arith}
use binbows_dos.Memory.{Memory, IsBytes, load32, store32, memset}
use binbows_dos.Memory.Fill.{memset_lem}
use binbows_dos.Memory.Words.{store32-apart, load32-same, load32-store32, load32-store32_apart}
use binbows_dos.Alloc.Bytes.{store32-IsBytes, memset-IsBytes}
use binbows_dos.Elixir.{bitmap_bytes}

-- The memory after the writes to the structure at `bb` and to the bitmap.
abbrev pub bitmap_memory : ℕ → ℕ → ℕ → Memory → Memory
bitmap_memory size bb bitmap m = store32 (bb + 4) 0 (
    store32 bb size
      (store32 (bb + 8) size (memset bitmap 0 (bitmap_bytes size) (store32 (bb + 12) bitmap m))))

module _ (size bb bitmap : ℕ) (m : Memory) where
  memset_apart :
      (q : ℕ) (m1 : Memory)
      → (q < bitmap) ⊎ (bitmap + bitmap_bytes size ≤ q)
      → memset bitmap 0 (bitmap_bytes size) m1 q ≡ m1 q
  memset_apart q m1 h = ground (arith, memset_lem bitmap 0 (bitmap_bytes size) m1 q)

  pub bitmap_memory_apart :
      (q : ℕ)
      → (q < bb) ⊎ (bb + 16 ≤ q)
      → (q < bitmap) ⊎ (bitmap + bitmap_bytes size ≤ q)
      → bitmap_memory size bb bitmap m q ≡ m q
  bitmap_memory_apart q h k =
      store32-apart (bb + 4) q _ _ (omega arith)
      ∙ store32-apart bb q _ _ (omega arith)
      ∙ store32-apart (bb + 8) q _ _ (omega arith)
      ∙ memset_apart q _ k
      ∙ store32-apart (bb + 12) q _ m (omega arith)

  pub bitmap_memory-IsBytes : IsBytes m → IsBytes (bitmap_memory size bb bitmap m)
  bitmap_memory-IsBytes h = store32-IsBytes _ _ _ (
      store32-IsBytes _ _ _
        (store32-IsBytes _ _ _ (memset-IsBytes _ 0 _ _ (store32-IsBytes _ _ m h))))

  -- The two blocks do not meet.
  module _ (disjoint : (bb + 16 ≤ bitmap) ⊎ (bitmap + bitmap_bytes size ≤ bb)) where
    pub bitmap_memory_bitmap :
        bitmap < 2 ^ 32 → load32 (bitmap_memory size bb bitmap m) (bb + 12) ≡ bitmap
    bitmap_memory_bitmap small =
        load32-store32_apart (bb + 4) (bb + 12) _ _ (omega arith)
        ∙ load32-store32_apart bb (bb + 12) _ _ (omega arith)
        ∙ load32-store32_apart (bb + 8) (bb + 12) _ _ (omega arith)
        ∙ load32-same (bb + 12) _ _ (λ q l u. memset_apart q _ (omega arith))
        ∙ load32-store32 (bb + 12) bitmap m small

    pub bitmap_memory_total :
        size < 2 ^ 32 → load32 (bitmap_memory size bb bitmap m) (bb + 8) ≡ size
    bitmap_memory_total small =
        load32-store32_apart (bb + 4) (bb + 8) _ _ (omega arith)
        ∙ load32-store32_apart bb (bb + 8) _ _ (omega arith)
        ∙ load32-store32 (bb + 8) size _ small

    pub bitmap_memory_clear :
        (j : ℕ) → j < bitmap_bytes size → bitmap_memory size bb bitmap m (bitmap + j) ≡ 0
    bitmap_memory_clear j h =
        store32-apart (bb + 4) (bitmap + j) _ _ (omega arith)
        ∙ store32-apart bb (bitmap + j) _ _ (omega arith)
        ∙ store32-apart (bb + 8) (bitmap + j) _ _ (omega arith)
        ∙ ground (
          arith,
          memset_lem bitmap 0 (bitmap_bytes size) (store32 (bb + 12) bitmap m) (bitmap + j),
        )
