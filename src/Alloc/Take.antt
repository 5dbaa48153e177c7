-- ===== src/Alloc/Take.antt =====
-- `take_block`: the block at `*current` leaves the free list, whole or in part.
use binbows_dos.Common.{
  ℕ, ◌+◌, ◌-◌, ◌%◌, ◌^◌, ◌≤◌, ◌<◌, ◌≡◌, ◌≢◌, refl, inl, inr, ◌⊎◌, false, List, [], ◌∷◌, arith, leb,
  Bool-cases, ◌∙◌,
}
use binbows_dos.Memory.{Memory, load32}
use binbows_dos.Memory.Words.{load32-store32, load32-store32_apart, store32-apart}
use binbows_dos.Alloc.{
  State, Slot, head_slot, next_slot, get_slot, set_slot, header_size, min_alloc_size, take_block,
  set_size, set_next, next_at,
}
use binbows_dos.Alloc.Span.{Span, covers, Spaced}
use binbows_dos.Alloc.Chain.{
  Chain, Seg-same, covers-Spaced, OutSlot, SlotBelow, KeepsHead, get_slot-set_slot, set_slot-apart,
  load32-set_slot, set_slot-KeepsHead, set_slot-interrupts, OutSlot-below,
}
use binbows_dos.Alloc.FirstFit.{carve}

-- After `y` has been taken from the spans `xs` at the slot, `ys` is left there, the block's header
-- holds its size, and only free bytes and the slot have been written.
pub record Taken (cur : Slot) (s : State) (xs : List Span) (y : Span) (ys : List Span) (s' : State)
    : Type 0 where
  pub chain : Chain s'.mem (get_slot s' cur) ys
  pub held : load32 s'.mem y.0 ≡ y.1
  pub frame : (q : ℕ) → covers q xs ≡ false → OutSlot cur q → s'.mem q ≡ s.mem q
  pub keeps_head : KeepsHead cur s s'
  pub interrupts : s'.interrupts ≡ s.interrupts

get_slot-set_size :
    (cur : Slot) (a v : ℕ) (s : State)
    → SlotBelow cur a
    → get_slot (set_size a v s) cur ≡ get_slot s cur
get_slot-set_size head_slot a v s h = refl
get_slot-set_size (next_slot b) a v s h = load32-store32_apart a (b + 4) v s.mem (inr (omega arith))

SlotBelow-weaken : (cur : Slot) (lo a : ℕ) → SlotBelow cur lo → lo ≤ a → SlotBelow cur a
SlotBelow-weaken head_slot lo a h l = tt
SlotBelow-weaken (next_slot b) lo a h l = omega arith

set_size-KeepsHead :
    (cur : Slot) (a v w : ℕ) (s s' : State)
    → s'.free_list_head ≡ s.free_list_head
    → KeepsHead cur s (set_size a v (set_slot cur w s'))
set_size-KeepsHead head_slot a v w s s' e = tt
set_size-KeepsHead (next_slot b) a v w s s' e = e

module _ (cur : Slot) (s : State) (lo hi size a n : ℕ) (xs : List Span) (small : hi ≤ 2 ^ 32)
    (below : SlotBelow cur lo) (sp : Spaced lo hi ((a, n) ∷ xs)) (at : get_slot s cur ≡ a)
    (pos : a ≢ 0) (held : load32 s.mem a ≡ n) (rest : Chain s.mem (load32 s.mem (a + 4)) xs)
    (next_small : load32 s.mem (a + 4) < 2 ^ 32) where
  take_whole : Taken cur s ((a, n) ∷ xs) (a, n) xs (set_slot cur (next_at s a) s)
  take_whole = record {
    chain = rw (get_slot-set_slot s cur (next_at s a) next_small) (
        Seg-same s.mem _ (next_at s a) 0 xs
          (λ q c.
            let r = covers-Spaced _ hi q xs sp.2 c in
            set_slot-apart s cur (next_at s a) q (OutSlot-below cur lo q below (omega arith)))
          rest);
    held = load32-set_slot s cur (next_at s a) lo a below (omega arith) ∙ held;
    frame = λ q c out. set_slot-apart s cur (next_at s a) q out;
    keeps_head = set_slot-KeepsHead s cur (next_at s a);
    interrupts = set_slot-interrupts s cur (next_at s a);
  }

  module _ (fits : size + 24 ≤ n) where
    -- The states that the writes of the split pass through.
    abbrev new_block : ℕ
    new_block = a + header_size + size

    abbrev s1 : State
    s1 = set_size new_block (n - size - header_size) s

    abbrev s2 : State
    s2 = set_next new_block (next_at s a) s1

    abbrev s3 : State
    s3 = set_slot cur new_block s2

    abbrev s4 : State
    s4 = set_size a size s3

    split_apart :
        (q : ℕ)
        → OutSlot cur q
        → (q < a) ⊎ ((a + 4 ≤ q) × (q < new_block)) ⊎ (new_block + 8 ≤ q)
        → s4.mem q ≡ s.mem q
    split_apart q out h =
        store32-apart a q size s3.mem (ground arith)
        ∙ set_slot-apart s2 cur new_block q out
        ∙ store32-apart (new_block + 4) q (next_at s a) s1.mem (ground arith)
        ∙ store32-apart new_block q (n - size - header_size) s.mem (ground arith)

    load_split : (b : ℕ) → (new_block ≤ b) → load32 s4.mem b ≡ load32 s2.mem b
    load_split b h =
        load32-store32_apart a b size s3.mem (inl (omega arith))
        ∙ load32-set_slot s2 cur new_block lo b below (omega arith)

    next_split : load32 s4.mem (new_block + 4) ≡ next_at s a
    next_split =
        load_split (new_block + 4) (omega arith)
        ∙ load32-store32 (new_block + 4) (next_at s a) s1.mem next_small

    take_split : Taken cur s ((a, n) ∷ xs) (a, size) ((new_block, n - size - header_size) ∷ xs) s4
    take_split = record {
      chain = (
        get_slot-set_size cur a size s3 (SlotBelow-weaken cur lo a below sp.0)
            ∙ get_slot-set_slot s2 cur new_block (omega arith),
        omega arith,
        load_split new_block (omega arith)
            ∙ load32-store32_apart (new_block + 4) new_block (next_at s a) s1.mem
                (inr (omega arith))
            ∙ load32-store32 new_block (n - size - header_size) s.mem (omega arith),
        (rw next_split (
            Seg-same s.mem s4.mem (next_at s a) 0 xs
              (λ q c.
                let r = covers-Spaced _ hi q xs sp.2 c in
                split_apart q (OutSlot-below cur lo q below (omega arith)) (omega arith))
              rest)),
      );
      held = load32-store32 a size s3.mem (omega arith);
      frame = λ q c out. split_apart q out (ground arith);
      keeps_head = set_size-KeepsHead cur a size new_block s s2 refl;
      interrupts = set_slot-interrupts s2 cur new_block;
    }

-- A pointer of the chain is an address or 0.
pub Chain-lt :
    (m : Memory) (p lo hi : ℕ) (xs : List Span)
    → hi ≤ 2 ^ 32
    → Spaced lo hi xs
    → Chain m p xs
    → p < 2 ^ 32
Chain-lt m p lo hi [] h sp c = omega arith
Chain-lt m p lo hi ((a, n) ∷ xs) h sp c = omega arith

-- `take_block` does to the chain in memory what `carve` does to its spans.
pub take_block-Taken :
    (cur : Slot) (s : State) (lo hi size a n : ℕ) (xs : List Span)
    → hi ≤ 2 ^ 32
    → SlotBelow cur lo
    → Spaced lo hi ((a, n) ∷ xs)
    → Chain s.mem (get_slot s cur) ((a, n) ∷ xs)
    → 24 ≤ lo
    → size ≤ n
    → Taken cur s
        ((a, n) ∷ xs)
        (carve size (a, n) xs).0
        (carve size (a, n) xs).1
        (take_block cur a size s)
unfolding take_block carve
take_block-Taken cur s lo hi size a n xs small below sp (at, pos, held, rest) req fits =
    let next_small = Chain-lt s.mem (next_at s a) _ hi xs small sp.2 rest in
    let room : (size + header_size + min_alloc_size) % 2 ^ 32
        ≡ size + header_size + min_alloc_size =
      omega arith in
    rw (room, held)
      (elim (Bool-cases (leb (size + header_size + min_alloc_size) n)) [
        | inl e ↦
            let big : size + 24 ≤ n = ground arith in
            let new_eq : (a + header_size + size) % 2 ^ 32 ≡ a + header_size + size = omega arith in
            let left_eq : (n + 2 ^ 32 + 2 ^ 32 - size - header_size) % 2 ^ 32
                ≡ n - size - header_size =
              omega arith in
            let next_kept =
              load32-store32_apart (a + header_size + size) (a + 4) (n - size - header_size) s.mem
                (inr (omega arith)) in
            rw (e, new_eq, left_eq, next_kept)
              (take_split cur s lo hi size a n xs small below sp at pos held rest next_small big)
        | inr e ↦
            rw e (take_whole cur s lo hi size a n xs small below sp at pos held rest next_small)
      ])
