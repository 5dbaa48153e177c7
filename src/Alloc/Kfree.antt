-- ===== src/Alloc/Kfree.antt =====
-- `kfree` against its specification on the spans of the free list, and `kfree` after `kmalloc`.
use binbows_dos.Common.{
  ℕ, ◌+◌, ◌-◌, ◌^◌, ◌%◌, ◌≤◌, ◌<◌, ◌≡◌, ◌≢◌, refl, ◌⊎◌, Bool, ◌||◌, true, false, Option, some, List,
  arith, ◌∙◌, length, ne→==,
}
use binbows_dos.Memory.{load32}
use binbows_dos.Alloc.{State, header_size, kfree, kmalloc, save_and_cli, restore_flags}
use binbows_dos.Alloc.Span.{
  Span, covers, Apart, insert_span, insert_span-Spaced, insert_span-IsAligned,
}
use binbows_dos.Alloc.Kmalloc.{
  Holds, restore_flags_lem, Granted, Allocated, failed, granted, kmalloc-Allocated,
}
use binbows_dos.Alloc.Align.{request_lem}
use mathlib.Core.Path.{subst}
use binbows_dos.Alloc.Insert.{insert-Linked}

-- The span is free again: the free list, and what has not changed.
pub record Freed (lo hi : ℕ) (xs : List Span) (s : State) (y : Span) (s' : State) : Type 0 where
  pub holds : Holds lo hi (insert_span y xs) s'
  pub frame :
      (q : ℕ) → covers q xs ≡ false → (q < y.0) ⊎ (y.0 + header_size ≤ q) → s'.mem q ≡ s.mem q
  pub interrupts : s'.interrupts ≡ s.interrupts

-- A block that a pointer may stand in front of: it lies in the region, is aligned, overlaps no free
-- block, and its header holds its size.
pub record Live (lo hi : ℕ) (xs : List Span) (s : State) (y : Span) : Type 0 where
  pub low : lo ≤ y.0
  pub high : y.0 + header_size + y.1 ≤ hi
  pub aligned : y.0 % 8 ≡ 0
  pub apart : Apart y xs
  pub held : load32 s.mem y.0 ≡ y.1

flag_kept : (b c : Bool) {f : Bool} → f ≡ (b || c) → c ≡ false → f ≡ b
flag_kept true c e h = e
flag_kept false c e h = e ∙ h

-- Given fuel for the blocks of the free list, `kfree` of a live block's payload returns, and the
-- free list then stands for the old spans with the block's put in its place and joined with its
-- neighbours; it is sorted, coalesced and aligned as before. Only free bytes and the block's header
-- are written, and the interrupt flag is as before.
pub kfree-Freed :
    (lo hi a n fuel : ℕ) (xs : List Span) (s : State)
    → Holds lo hi xs s
    → Live lo hi xs s (a, n)
    → length xs < fuel
    → (s' : State) × (kfree fuel (a + header_size) s ≡ some s') × Freed lo hi xs s (a, n) s'
unfolding kfree save_and_cli
kfree-Freed lo hi a n fuel xs s h live enough =
    let masked : State = record s { interrupts = false } in
    let h' : Holds lo hi xs masked = record {
      low = h.low;
      high = h.high;
      spaced = h.spaced;
      chain = h.chain;
      aligned = h.aligned;
    } in
    let block : (a + header_size + 2 ^ 32 - header_size) % 2 ^ 32 ≡ a = omega arith in
    let (s1, done, linked) =
      insert-Linked lo hi a n fuel xs masked h' live.low live.high live.held live.apart enough in
    let (same_mem, same_head, flag) = restore_flags_lem s.interrupts s1 in
    (
      restore_flags s.interrupts s1,
      rw (ne→== (a + header_size) 0 (omega arith), block, done) refl,
      record {
        holds = record {
          low = h.low;
          high = h.high;
          spaced = insert_span-Spaced lo hi a n xs live.low live.high h.spaced live.apart;
          chain = rw (same_mem, same_head) linked.chain;
          aligned = insert_span-IsAligned (a, n) xs live.aligned h.aligned;
        };
        frame = λ q c out. rw same_mem (linked.frame q c out);
        interrupts = flag_kept s.interrupts s1.interrupts flag linked.interrupts;
      },
    )

-- A block that `kmalloc` granted is live.
pub Granted-Live :
    (lo hi size : ℕ) (xs : List Span) (s : State) (y : Span) (ys : List Span) (s' : State)
    → Holds lo hi xs s
    → Granted lo hi size xs s y ys s'
    → Live lo hi ys s' y
Granted-Live lo hi size xs s y ys s' h g = record {
  low = g.carved.low;
  high = g.carved.high;
  aligned = (g.carved.aligned (request_lem size).1 h.aligned).0;
  apart = g.carved.apart;
  held = g.held;
}

-- What a call of `kmalloc` that does not return NULL has granted.
kmalloc-Granted :
    (lo hi size p : ℕ) (xs : List Span) (s s1 : State) (r : Option (ℕ × State))
    → Allocated lo hi size xs s r
    → r ≡ some (p, s1)
    → p ≢ 0
    → (y : Span) × (ys : List Span) × (p ≡ y.0 + header_size) × Granted lo hi size xs s y ys s1
kmalloc-Granted lo hi size p xs s s1 r (failed small e) e' ne = absurd (ne (ground arith))
kmalloc-Granted lo hi size p xs s s1 r (granted y ys s' e g) e' ne =
    let same : s' ≡ s1 = ground arith in
    (y, ys, ground arith, subst (λ t. Granted lo hi size xs s y ys t) same g)

-- Freeing a block that `kmalloc` has just returned undoes the call: the free list stands for the
-- very spans that it stood for before, and the interrupt flag is as before.
pub kfree-kmalloc :
    (lo hi size p fuel : ℕ) (xs : List Span) (s s1 : State)
    → Holds lo hi xs s
    → 0 < size
    → length xs < fuel
    → kmalloc fuel size s ≡ some (p, s1)
    → p ≢ 0
    → (s2 : State) × (kfree fuel p s1 ≡ some s2)
      × Holds lo hi xs s2
      × (s2.interrupts ≡ s.interrupts)
kfree-kmalloc lo hi size p fuel xs s s1 h pos enough e ne =
    let (y, ys, at, g) =
      kmalloc-Granted lo hi size p xs s s1 _ (kmalloc-Allocated lo hi size xs s fuel h pos enough) e
        ne in
    let live = Granted-Live lo hi size xs s y ys s1 h g in
    let (s2, done, freed) =
      kfree-Freed lo hi y.0 y.1 fuel ys s1 g.holds live (omega (arith, g.carved.shorter)) in
    (
      s2,
      rw at done,
      subst (λ t. Holds lo hi t s2) g.carved.restored freed.holds,
      freed.interrupts ∙ g.interrupts,
    )
