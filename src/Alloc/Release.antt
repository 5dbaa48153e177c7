-- ===== src/Alloc/Release.antt =====
-- Blocks that were granted one after the other and are given back in the opposite order.
use binbows_dos.Common.{ℕ, ◌+◌, ◌<◌, ◌≡◌, true, false, some, List, arith, length}
use binbows_dos.Memory.{load32}
use binbows_dos.Alloc.{State, header_size, request, kfree}
use binbows_dos.Alloc.Align.{request_lem}
use binbows_dos.Alloc.Span.{Span, covers, in_span}
use binbows_dos.Alloc.FirstFit.{Carved}
use binbows_dos.Alloc.Chain.{covers-Apart}
use binbows_dos.Alloc.Kmalloc.{Holds}
use binbows_dos.Alloc.Kfree.{kfree-Freed}
use mathlib.Core.Path.{subst}

-- The block is free again: the free list is `xs`, and its spans are the only bytes that may have
-- changed.
pub record Released (lo hi : ℕ) (xs : List Span) (s s' : State) : Type 0 where
  pub holds : Holds lo hi xs s'
  pub frame : (q : ℕ) → covers q xs ≡ false → s'.mem q ≡ s.mem q
  pub interrupts : s'.interrupts ≡ s.interrupts

module _ (lo hi size : ℕ) (xs : List Span) (y : Span) (ys : List Span)
    (c : Carved lo hi (request size) xs y ys) where
  -- What is neither in the block nor free behind it was not free before.
  pub apart-Carved : (q : ℕ) → covers q xs ≡ false → (in_span q y ≡ false) × (covers q ys ≡ false)
  apart-Carved q e = ground (arith, c.same_cover q)

  pub span-Carved : (q : ℕ) → in_span q y ≡ true → covers q ys ≡ false
  span-Carved q e = ground (arith, covers-Apart q y ys c.apart)

  -- A block whose header still holds its size may be given back in any state whose free list is the
  -- one behind its grant.
  pub kfree-Carved :
      (fuel : ℕ) (s s1 : State)
      → Holds lo hi xs s
      → Holds lo hi ys s1
      → load32 s1.mem y.0 ≡ y.1
      → length xs < fuel
      → (s' : State) × (kfree fuel (y.0 + header_size) s1 ≡ some s') × Released lo hi xs s1 s'
  kfree-Carved fuel s s1 h h1 held enough =
      let (s', done, freed) =
        kfree-Freed lo hi y.0 y.1 fuel ys s1 h1
          (record {
            low = c.low;
            high = c.high;
            aligned = (c.aligned (request_lem size).1 h.aligned).0;
            apart = c.apart;
            held = held;
          })
          (omega (arith, c.shorter)) in
      (
        s',
        done,
        record {
          holds = subst (λ t. Holds lo hi t s') c.restored freed.holds;
          frame = λ q out.
              let (off, free) = apart-Carved q out in freed.frame q free (ground (arith, off));
          interrupts = freed.interrupts;
        },
      )
