-- ===== src/Alloc/Search.antt =====
-- The loop of `kmalloc` takes the first block that fits, as `first_fit` does among the spans.
use binbows_dos.Common.{
  ℕ, zero, suc, ◌+◌, ◌^◌, ◌≤◌, ◌<◌, ◌≡◌, ◌≢◌, refl, inl, inr, Option, none, some, List, [], ◌∷◌,
  arith, leb, Bool-cases, ◌∙◌, length, ne→==,
}
use binbows_dos.Memory.{load32}
use binbows_dos.Memory.Words.{load32-same}
use binbows_dos.Alloc.{
  State, Slot, head_slot, next_slot, get_slot, header_size, search_loop, take_block,
}
use binbows_dos.Alloc.Span.{Span, Spaced}
use binbows_dos.Alloc.Chain.{Chain, not-covers-Spaced, SlotBelow, KeepsHead}
use binbows_dos.Alloc.FirstFit.{carve_addr, skip, first_fit}
use binbows_dos.Alloc.Take.{Taken, take_block-Taken}

-- How the loop ends, by what `first_fit` finds.
abbrev pub Searched :
    Slot → State → List Span → Option (Span × List Span) → Option (ℕ × State) → Type 0
Searched cur s xs none r = r ≡ some (0, s)
Searched cur s xs (some (y, ys)) r =
    (s' : State) × (r ≡ some (y.0, s')) × (y.0 ≢ 0) × Taken cur s xs y ys s'

module _ (s : State) (lo hi a n : ℕ) (xs : List Span) (sp : Spaced lo hi ((a, n) ∷ xs)) where
  -- A block behind `(a, n)` leaves what stands in front of its `next` field alone.
  kept_below :
      (y : Span) (ys : List Span) (s' : State)
      → Taken (next_slot a) s xs y ys s'
      → (p : ℕ) → p ≤ a
      → load32 s'.mem p ≡ load32 s.mem p
  kept_below y ys s' t p h =
      load32-same p s.mem s'.mem
        (λ q l u. t.frame q (not-covers-Spaced _ hi q xs sp.2 (omega arith)) (inl (omega arith)))

  slot_kept :
      (cur : Slot) (y : Span) (ys : List Span) (s' : State)
      → SlotBelow cur lo
      → Taken (next_slot a) s xs y ys s'
      → get_slot s' cur ≡ get_slot s cur
  slot_kept head_slot y ys s' below t = t.keeps_head
  slot_kept (next_slot b) y ys s' below t = kept_below y ys s' t (b + 4) (omega arith)

  head_kept :
      (cur : Slot) (y : Span) (ys : List Span) (s' : State)
      → Taken (next_slot a) s xs y ys s'
      → KeepsHead cur s s'
  head_kept head_slot y ys s' t = tt
  head_kept (next_slot b) y ys s' t = t.keeps_head

module _ (cur : Slot) (s : State) (lo hi a n : ℕ) (xs : List Span) (below : SlotBelow cur lo)
    (sp : Spaced lo hi ((a, n) ∷ xs)) (chain : Chain s.mem (get_slot s cur) ((a, n) ∷ xs)) where
  Taken-skip :
      (y : Span) (ys : List Span) (s' : State)
      → Taken (next_slot a) s xs y ys s'
      → Taken cur s ((a, n) ∷ xs) y ((a, n) ∷ ys) s'
  Taken-skip y ys s' t = record {
    chain = (
      slot_kept s lo hi a n xs sp cur y ys s' below t ∙ chain.0,
      chain.1,
      kept_below s lo hi a n xs sp y ys s' t a (omega arith) ∙ chain.2,
      t.chain,
    );
    held = t.held;
    frame = λ q c out. t.frame q (ground arith) (ground arith);
    keeps_head = head_kept s lo hi a n xs sp cur y ys s' t;
    interrupts = t.interrupts;
  }

  Searched-skip :
      (o : Option (Span × List Span)) (r : Option (ℕ × State))
      → Searched (next_slot a) s xs o r
      → Searched cur s ((a, n) ∷ xs) (skip (a, n) o) r
  unfolding skip
  Searched-skip none r h = h
  Searched-skip (some (y, ys)) r (s', e, ne, t) = (s', e, ne, Taken-skip y ys s' t)

pub search_loop-Searched :
    (fuel : ℕ) (cur : Slot) (s : State) (lo hi size : ℕ) (xs : List Span)
    → hi ≤ 2 ^ 32
    → 24 ≤ lo
    → SlotBelow cur lo
    → Spaced lo hi xs
    → Chain s.mem (get_slot s cur) xs
    → length xs < fuel
    → Searched cur s xs (first_fit size xs) (search_loop fuel cur size s)
unfolding search_loop first_fit
search_loop-Searched zero cur s lo hi size xs small req below sp chain enough = absurd (omega arith)
search_loop-Searched (suc fuel) cur s lo hi size [] small req below sp chain enough = rw chain refl
search_loop-Searched (suc fuel) cur s lo hi size ((a, n) ∷ xs) small req below sp chain enough =
    rw (chain.0, ne→== a 0 chain.1, chain.2)
      (elim (Bool-cases (leb size n)) [
        | inl e ↦ rw e (
          take_block cur a size s,
          rw carve_addr,
          rw carve_addr chain.1,
          take_block-Taken cur s lo hi size a n xs small below sp chain req (ground arith),
        )
        | inr e ↦ rw e (
            Searched-skip cur s lo hi a n xs below sp chain (first_fit size xs) _ (
              search_loop-Searched fuel (next_slot a) s (a + header_size + n + 1) hi size xs small
                (omega arith) (omega arith) sp.2 chain.3 (omega arith)))
      ])
