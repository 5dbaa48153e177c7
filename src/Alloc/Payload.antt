-- ===== src/Alloc/Payload.antt =====
-- What the user of a block that `kmalloc` granted may write, and that `kfree` then undoes the grant.
use binbows_dos.Common.{
  ℕ, ◌+◌, ◌≤◌, ◌<◌, ◌≡◌, ◌⊎◌, inl, true, false, some, List, arith, ◌∙◌, length,
}
use binbows_dos.Memory.{Memory}
use binbows_dos.Memory.Words.{load32-same}
use binbows_dos.Alloc.{State, header_size, kfree}
use binbows_dos.Alloc.Span.{Span, covers, in_span}
use binbows_dos.Alloc.Chain.{Seg-same, covers-Apart, covers-Spaced}
use binbows_dos.Alloc.Kmalloc.{Holds, Granted}
use binbows_dos.Alloc.Kfree.{Live, Granted-Live, kfree-Freed}
use mathlib.Core.Path.{subst}

-- The free list does not see a change of the memory outside its blocks.
pub Holds-same :
    (lo hi : ℕ) (xs : List Span) (s : State) (m : Memory)
    → Holds lo hi xs s
    → ((q : ℕ) → covers q xs ≡ true → m q ≡ s.mem q)
    → Holds lo hi xs (record s { mem = m })
Holds-same lo hi xs s m h same = record {
  low = h.low;
  high = h.high;
  spaced = h.spaced;
  chain = Seg-same s.mem m s.free_list_head 0 xs same h.chain;
  aligned = h.aligned;
}

-- `m` is the memory of a state with changes in the payload of the block `y` only, and outside the
-- region.
pub record Filled (lo hi : ℕ) (y : Span) (m m' : Memory) : Type 0 where
  pub spared :
      (q : ℕ)
      → lo ≤ q
      → q < hi
      → (q < y.0 + header_size) ⊎ (y.0 + header_size + y.1 ≤ q)
      → m' q ≡ m q

module _ (lo hi size : ℕ) (xs : List Span) (s : State) (y : Span) (ys : List Span) (s1 : State)
    (g : Granted lo hi size xs s y ys s1) (m : Memory) (f : Filled lo hi y s1.mem m) where
  spared_free : (q : ℕ) → covers q ys ≡ true → m q ≡ s1.mem q
  spared_free q c =
      let outside : in_span q y ≡ false = covers-Apart q y ys g.carved.apart c in
      let inside = covers-Spaced lo hi q ys g.carved.spaced c in
      f.spared q inside.0 inside.1 (ground (arith, outside))

  pub Granted-filled : Holds lo hi ys (record s1 { mem = m })
  Granted-filled = Holds-same lo hi ys s1 m g.holds spared_free

  filled-Live : Holds lo hi xs s → Live lo hi ys (record s1 { mem = m }) y
  filled-Live h =
      let live = Granted-Live lo hi size xs s y ys s1 h g in
      record {
        low = live.low;
        high = live.high;
        aligned = live.aligned;
        apart = live.apart;
        held =
            load32-same y.0 s1.mem m (λ q l u.
              f.spared q (omega (arith, g.carved.low)) (omega (arith, g.carved.high))
                (inl (omega arith)))
            ∙ live.held;
      }

  -- `kfree` gives a granted block back, whatever was written to its payload.
  pub kfree-filled :
      (fuel : ℕ)
      → Holds lo hi xs s
      → length xs < fuel
      → (s2 : State) × (kfree fuel (y.0 + header_size) (record s1 { mem = m }) ≡ some s2)
        × Holds lo hi xs s2
        × (s2.interrupts ≡ s.interrupts)
  kfree-filled fuel h enough =
      let (s2, done, freed) =
        kfree-Freed lo hi y.0 y.1 fuel ys (record s1 { mem = m }) Granted-filled (filled-Live h)
          (omega (arith, g.carved.shorter)) in
      (
        s2,
        done,
        subst (λ t. Holds lo hi t s2) g.carved.restored freed.holds,
        freed.interrupts ∙ g.interrupts,
      )
