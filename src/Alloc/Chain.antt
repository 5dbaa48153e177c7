-- ===== src/Alloc/Chain.antt =====
-- When the memory holds a given list of spans, and what keeps it so. (`Seg` and `Chain` relate the
-- pointers of the free list of src/mem.c to its spans.)
use binbows_dos.Common.{
  ℕ, ◌+◌, ◌≤◌, ◌<◌, ◌^◌, ◌≡◌, ◌≢◌, refl, ◌⊎◌, inl, inr, true, false, List, [], ◌∷◌, ◌++◌, arith,
}
use binbows_dos.Memory.{Memory, load32}
use binbows_dos.Memory.Words.{load32-same, load32-store32, load32-store32_apart, store32-apart}
use binbows_dos.Alloc.{State, Slot, head_slot, next_slot, get_slot, set_slot, header_size}
use binbows_dos.Alloc.Span.{Span, in_span, covers, Spaced, Apart}

-- From `p` the `next` fields lead through the blocks of `xs` to `q`.
abbrev pub Seg : Memory → ℕ → List Span → ℕ → Type 0
Seg m p [] q = p ≡ q
Seg m p ((a, n) ∷ xs) q = (p ≡ a) × (a ≢ 0) × (load32 m a ≡ n) × Seg m (load32 m (a + 4)) xs q

abbrev pub Chain : Memory → ℕ → List Span → Type 0
Chain m p xs = Seg m p xs 0

pub covers-Spaced :
    (lo hi q : ℕ) (xs : List Span) → Spaced lo hi xs → covers q xs ≡ true → (lo ≤ q) × (q < hi)
covers-Spaced lo hi q [] s h = cc
covers-Spaced lo hi q ((a, n) ∷ xs) s h =
    ground (arith, covers-Spaced (a + header_size + n + 1) hi q xs)

pub not-covers-Spaced :
    (lo hi q : ℕ) (xs : List Span) → Spaced lo hi xs → q < lo → covers q xs ≡ false
not-covers-Spaced lo hi q [] s h = refl
not-covers-Spaced lo hi q ((a, n) ∷ xs) s h =
    ground (arith, not-covers-Spaced (a + header_size + n + 1) hi q xs)

pub covers-Apart :
    (q : ℕ) (y : Span) (xs : List Span) → Apart y xs → covers q xs ≡ true → in_span q y ≡ false
covers-Apart q y [] s h = cc
covers-Apart q (a, n) ((b, m) ∷ xs) s h = ground (arith, covers-Apart q (a, n) xs)

-- A segment survives any change that spares its spans.
pub Seg-same :
    (m m' : Memory) (p r : ℕ) (xs : List Span)
    → ((q : ℕ) → covers q xs ≡ true → m' q ≡ m q)
    → Seg m p xs r
    → Seg m' p xs r
Seg-same m m' p r [] same s = s
Seg-same m m' p r ((a, n) ∷ xs) same (at, ne, size, rest) =
    let size_same = load32-same a m m' (λ q lo hi. same q (ground arith)) in
    let next_same = load32-same (a + 4) m m' (λ q lo hi. same q (ground arith)) in
    (
      at,
      ne,
      rw size_same size,
      rw next_same (Seg-same m m' (load32 m (a + 4)) r xs (λ q c. same q (ground arith)) rest),
    )

pub Seg-append :
    (m : Memory) (p q r : ℕ) (xs ys : List Span)
    → Seg m p xs q
    → Seg m q ys r
    → Seg m p (xs ++ ys) r
Seg-append m p q r [] ys s t = rw s t
Seg-append m p q r ((a, n) ∷ xs) ys (at, ne, size, rest) t =
    (at, ne, size, Seg-append m (load32 m (a + 4)) q r xs ys rest t)

-- The byte `q` is not part of the cell that the slot names.
abbrev pub OutSlot : Slot → ℕ → Type 0
OutSlot head_slot q = Unit
OutSlot (next_slot b) q = (q < b + 4) ⊎ (b + 8 ≤ q)

-- The cell that the slot names lies below `lo`.
abbrev pub SlotBelow : Slot → ℕ → Type 0
SlotBelow head_slot lo = Unit
SlotBelow (next_slot b) lo = b + 8 ≤ lo

-- Writes through a slot in memory keep `free_list_head`.
abbrev pub KeepsHead : Slot → State → State → Type 0
KeepsHead head_slot s s' = Unit
KeepsHead (next_slot b) s s' = s'.free_list_head ≡ s.free_list_head

module _ (s : State) where
  pub get_slot-set_slot : (cur : Slot) (v : ℕ) → v < 2 ^ 32 → get_slot (set_slot cur v s) cur ≡ v
  get_slot-set_slot head_slot v h = refl
  get_slot-set_slot (next_slot b) v h = load32-store32 (b + 4) v s.mem h

  pub set_slot-apart : (cur : Slot) (v q : ℕ) → OutSlot cur q → (set_slot cur v s).mem q ≡ s.mem q
  set_slot-apart head_slot v q h = refl
  set_slot-apart (next_slot b) v q h = store32-apart (b + 4) q v s.mem (omega arith)

  pub load32-set_slot :
      (cur : Slot) (v lo q : ℕ)
      → SlotBelow cur lo
      → lo ≤ q
      → load32 (set_slot cur v s).mem q ≡ load32 s.mem q
  load32-set_slot head_slot v lo q h l = refl
  load32-set_slot (next_slot b) v lo q h l =
      load32-store32_apart (b + 4) q v s.mem (inl (omega arith))

  pub set_slot-KeepsHead : (cur : Slot) (v : ℕ) → KeepsHead cur s (set_slot cur v s)
  set_slot-KeepsHead head_slot v = tt
  set_slot-KeepsHead (next_slot b) v = refl

  pub set_slot-interrupts : (cur : Slot) (v : ℕ) → (set_slot cur v s).interrupts ≡ s.interrupts
  set_slot-interrupts head_slot v = refl
  set_slot-interrupts (next_slot b) v = refl

pub OutSlot-below : (cur : Slot) (lo q : ℕ) → SlotBelow cur lo → lo ≤ q → OutSlot cur q
OutSlot-below head_slot lo q h l = tt
OutSlot-below (next_slot b) lo q h l = inr (omega arith)
