-- ===== src/Elixir/Small.antt =====
-- `create_super` on a drive that is too small.
use binbows_dos.Common.{
  ℕ, ◌+◌, ◌<◌, ◌≡◌, refl, ◌⊎◌, inl, inr, none, some, ◌>>=◌, List, All, length, arith, ap, fun_ext,
  ◌==◌, if◌then◌else◌, ne→==, lt→leb, false,
}
use binbows_dos.Memory.{memset}
use binbows_dos.Memory.Fill.{memset_lem}
use binbows_dos.Alloc.{State, kmalloc, header_size, request}
use binbows_dos.Alloc.Align.{request_bounds}
use binbows_dos.Alloc.Span.{Span}
use binbows_dos.Alloc.Room.{Carved-Below}
use binbows_dos.Alloc.Kmalloc.{Holds, Granted, Allocated, failed, granted, kmalloc-Allocated}
use binbows_dos.Elixir.{sectors_per_block, super_block_size, fill_super, create_super}

module _ (lo hi : ℕ) (xs : List Span) (s : State) (sizes : ℕ → ℕ) (drive : ℕ) where
  -- `kmalloc` has cleared the block, so that `memset` changes nothing.
  cleared_again :
      (y : Span) (ys : List Span) (s1 : State)
      → Granted lo hi super_block_size xs s y ys s1
      → memset (y.0 + header_size) 0 super_block_size s1.mem ≡ s1.mem
  cleared_again y ys s1 g = fun_ext (λ q. ground (
    arith,
    memset_lem (y.0 + header_size) 0 super_block_size s1.mem q,
    g.cleared q,
    (request_bounds super_block_size (omega arith)).0,
  ))

  small_fill :
      (y : Span) (ys : List Span) (s1 : State)
      → sizes drive < 32768
      → Granted lo hi super_block_size xs s y ys s1
      → fill_super (sizes drive) (y.0 + header_size) s1 ≡ (0, s1)
  unfolding fill_super
  small_fill y ys s1 small g =
      let e : sectors_per_block (sizes drive) ≡ none = unfold sectors_per_block in ground arith in
      rw (fill_super, e) (ap (λ m. (0, record s1 { mem = m })) (cleared_again y ys s1 g))

  -- Given fuel for the blocks of the free list, on one of the four drives and with fewer than 32768
  -- sectors, `create_super` returns NULL: with the state as it was if every free block is too small
  -- for a superblock, and otherwise with the block that it took still out of the free list.
  pub create_super-Granted :
      (fuel : ℕ)
      → Holds lo hi xs s
      → length xs < fuel
      → drive < 4
      → sizes drive < 32768
      → (All (λ (x : Span). x.1 < request super_block_size) xs
          × (create_super fuel sizes drive s ≡ some (0, s)))
        ⊎ ((y : Span) × (ys : List Span) × (s1 : State) × (¬ All
              (λ (x : Span). x.1 < request super_block_size)
              xs)
            × (create_super fuel sizes drive s ≡ some (0, s1))
            × Granted lo hi super_block_size xs s y ys s1)
  unfolding create_super
  create_super-Granted fuel holds enough valid small =
      rw (lt→leb 4 drive valid)
        (ends (kmalloc-Allocated lo hi super_block_size xs s fuel holds (omega arith) enough))
    where
      ends :
          Allocated lo hi super_block_size xs s (kmalloc fuel super_block_size s)
          → (All (λ (x : Span). x.1 < request super_block_size) xs
              × ((do
                (sb, s) ← kmalloc fuel super_block_size s
                some (if sb == 0 then (0, s) else fill_super (sizes drive) sb s))
                  ≡ some (0, s)))
            ⊎ ((y : Span) × (ys : List Span) × (s1 : State) × (¬ All
                  (λ (x : Span). x.1 < request super_block_size)
                  xs)
                × ((do
                  (sb, s) ← kmalloc fuel super_block_size s
                  some (if sb == 0 then (0, s) else fill_super (sizes drive) sb s))
                    ≡ some (0, s1))
                × Granted lo hi super_block_size xs s y ys s1)
      ends (failed few e) = inl (few, rw e refl)
      ends (granted y ys s1 e g) =
          let ne : (y.0 + header_size == 0) ≡ false =
            ne→== (y.0 + header_size) 0 (λ z. omega arith) in
          inr (
            y,
            ys,
            s1,
            Carved-Below lo hi (request super_block_size) xs y ys g.carved,
            rw (e, ne) (ap some (small_fill y ys s1 small g)),
            g,
          )
