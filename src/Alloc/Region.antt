-- ===== src/Alloc/Region.antt =====
-- `init_allocator_region`: the free list that the other operations start from.
use binbows_dos.Common.{
  ℕ, ◌+◌, ◌-◌, ◌^◌, ◌%◌, ◌*◌, ◌/◌, ◌≤◌, ◌<◌, ◌≡◌, refl, inr, [], ◌∷◌, arith, ◌∙◌, le→leb, lt→leb,
}
use binbows_dos.Memory.Words.{load32-store32, load32-store32_apart}
use binbows_dos.Alloc.{State, header_size, align_size, align_up, init_allocator_region}
use binbows_dos.Alloc.Align.{align_up_eight}
use binbows_dos.Alloc.Kmalloc.{Holds}

-- The first multiple of 8 from `base` on.
abbrev pub aligned : ℕ → ℕ
aligned base = (base + 7) / 8 * 8

module _ (base size : ℕ) (s : State) (low : 24 ≤ base) (fits : base + size ≤ 2 ^ 32)
    (base_small : base ≤ 2 ^ 32 - 8) where
  align_base : align_up base align_size ≡ aligned base
  align_base = omega (arith, align_up_eight base)

  offset_eq : (aligned base + 2 ^ 32 - base) % 2 ^ 32 ≡ aligned base - base
  offset_eq = omega arith

  -- A region in which something is left behind the first aligned header becomes the one free block;
  -- the list that held before is dropped.
  pub init-Holds :
      header_size + (aligned base - base) < size
      → Holds base
          (base + size)
          ((aligned base, base + size - aligned base - header_size) ∷ [])
          (init_allocator_region base size s)
  unfolding init_allocator_region
  init-Holds large =
      let n : ℕ = base + size - aligned base - header_size in
      let room : (header_size + (aligned base - base)) % 2 ^ 32
          ≡ header_size + (aligned base - base) =
        omega arith in
      let size_eq : ((size + 2 ^ 32 - (aligned base - base)) % 2 ^ 32 + 2 ^ 32 - header_size)
            % 2 ^ 32
          ≡ n =
        omega arith in
      rw
        (
          align_base,
          offset_eq,
          room,
          lt→leb size (header_size + (aligned base - base)) large,
          size_eq,
        )
        (record {
          low = low;
          high = fits;
          spaced = (omega arith, omega arith, tt);
          chain = (
            refl,
            omega arith,
            load32-store32_apart (aligned base + 4) (aligned base) 0 _ (inr (omega arith))
                ∙ load32-store32 (aligned base) n s.mem (omega arith),
            load32-store32 (aligned base + 4) 0 _ (omega arith),
          );
          aligned = (omega arith, tt);
        })

  -- A region that holds no more than the header is refused, and nothing changes.
  init_small : size ≤ header_size + (aligned base - base) → init_allocator_region base size s ≡ s
  unfolding init_allocator_region
  init_small small =
      let room : (header_size + (aligned base - base)) % 2 ^ 32
          ≡ header_size + (aligned base - base) =
        omega arith in
      rw (align_base, offset_eq, room, le→leb size (header_size + (aligned base - base)) small) refl
