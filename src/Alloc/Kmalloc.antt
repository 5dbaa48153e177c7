-- ===== src/Alloc/Kmalloc.antt =====
-- `kmalloc` against its specification on the spans of the free list.
use binbows_dos.Common.{
  ℕ, ◌+◌, ◌^◌, ◌%◌, ◌≤◌, ◌<◌, ◌≡◌, ◌≢◌, refl, inl, inr, Bool, true, false, Option, none, some, List,
  [], ◌∷◌, arith, ◌==◌, Bool-cases, ◌∙◌, length, ne→==, ◌>>=◌, ap, ◌||◌, All,
}
use binbows_dos.Memory.{load32, memset_page}
use binbows_dos.Memory.Words.{load32-same}
use binbows_dos.Memory.Fill.{memset_page_lem}
use binbows_dos.Alloc.{
  State, head_slot, header_size, request, save_and_cli, restore_flags, finish, kmalloc,
}
use binbows_dos.Alloc.Align.{request_lem}
use binbows_dos.Alloc.Span.{Span, covers, Spaced, IsAligned}
use binbows_dos.Alloc.Chain.{Chain, Seg-same, covers-Apart}
use binbows_dos.Alloc.FirstFit.{first_fit, Carved, first_fit-Carved, first_fit-none}
use binbows_dos.Alloc.Take.{Taken}
use binbows_dos.Alloc.Search.{Searched, search_loop-Searched}

-- The free list of the state stands for the spans `xs`, between `lo` and `hi`: sorted, with no two
-- overlapping or adjacent, and each at a multiple of 8.
pub record Holds (lo hi : ℕ) (xs : List Span) (s : State) : Type 0 where
  pub low : 24 ≤ lo
  pub high : hi ≤ 2 ^ 32
  pub spaced : Spaced lo hi xs
  pub chain : Chain s.mem s.free_list_head xs
  pub aligned : IsAligned xs

-- A block of at least `request size` bytes was taken: its header and cleared payload, the free list
-- that is left, and what has not changed.
pub record Granted (lo hi size : ℕ) (xs : List Span) (s : State) (y : Span) (ys : List Span)
    (s' : State) : Type 0 where
  pub carved : Carved lo hi (request size) xs y ys
  pub holds : Holds lo hi ys s'
  pub held : load32 s'.mem y.0 ≡ y.1
  pub cleared :
      (q : ℕ) → y.0 + header_size ≤ q → q < y.0 + header_size + request size → s'.mem q ≡ 0
  pub frame : (q : ℕ) → covers q xs ≡ false → s'.mem q ≡ s.mem q
  pub interrupts : s'.interrupts ≡ s.interrupts

-- The two ends of a call of `kmalloc`: NULL if every free block is too small, or a block.
pub data Allocated (lo hi size : ℕ) (xs : List Span) (s : State) (r : Option (ℕ × State))
    : Type 0 where
  failed : All (λ (x : Span). x.1 < request size) xs → r ≡ some (0, s) → Allocated lo hi size xs s r
  granted :
      (y : Span) (ys : List Span) (s' : State)
      → r ≡ some (y.0 + header_size, s')
      → Granted lo hi size xs s y ys s'
      → Allocated lo hi size xs s r

pub restore_flags_lem :
    (b : Bool) (s : State)
    → ((restore_flags b s).mem ≡ s.mem)
      × ((restore_flags b s).free_list_head ≡ s.free_list_head)
      × ((restore_flags b s).interrupts ≡ (b || s.interrupts))
unfolding restore_flags
restore_flags_lem true s = (refl, refl, refl)
restore_flags_lem false s = (refl, refl, refl)

pub restore_flags_undo :
    (s : State) → restore_flags s.interrupts (record s { interrupts = false }) ≡ s
unfolding restore_flags
restore_flags_undo s = ground arith

module _ (lo hi size : ℕ) (xs : List Span) (s : State) where
  abbrev masked : State
  masked = record s { interrupts = false }

  finish_null : finish s.interrupts (request size) (0, masked) ≡ (0, s)
  unfolding finish
  finish_null = ap (λ t. (0, t)) (restore_flags_undo s)

  finish_block :
      (y : Span) (ys : List Span) (s1 : State)
      → Holds lo hi xs s
      → Carved lo hi (request size) xs y ys
      → y.0 ≢ 0
      → Taken head_slot masked xs y ys s1
      → (s' : State) × (finish s.interrupts (request size) (y.0, s1) ≡ (y.0 + header_size, s'))
        × Granted lo hi size xs s y ys s'
  unfolding finish
  finish_block y ys s1 holds c ne t =
      let need = request_lem size in
      let (same_mem, same_head, flag) = restore_flags_lem s.interrupts s1 in
      let result : (y.0 + header_size) % 2 ^ 32 ≡ y.0 + header_size = omega arith in
      let cleared = memset_page_lem (y.0 + header_size) 0 (request size) s1.mem in
      let (at, al) = c.aligned need.1 holds.aligned in
      (
        record (restore_flags s.interrupts s1) {
          mem = memset_page (y.0 + header_size) 0 (request size) s1.mem;
        },
        rw (ne→== y.0 0 ne, result, same_mem) refl,
        record {
          carved = c;
          holds = record {
            low = holds.low;
            high = holds.high;
            spaced = c.spaced;
            chain = rw same_head (
                Seg-same s1.mem _ s1.free_list_head 0 ys
                  (λ q cv. ground (arith, cleared q, covers-Apart q y ys c.apart cv)) t.chain);
            aligned = al;
          };
          held = load32-same y.0 s1.mem _ (λ q l u. ground (arith, cleared q)) ∙ t.held;
          cleared = λ q l u. ground (arith, cleared q);
          frame = λ q cv. ground (arith, cleared q, c.same_cover q, t.frame q cv tt);
          interrupts = ground arith;
        },
      )

  finish-Allocated :
      (o : Option (Span × List Span)) (r : Option (ℕ × State))
      → Holds lo hi xs s
      → first_fit (request size) xs ≡ o
      → Searched head_slot masked xs o r
      → Allocated lo hi size xs s (r >>= λ found. some (finish s.interrupts (request size) found))
  finish-Allocated none r holds e found =
      rw found (failed (first_fit-none (request size) xs e) (rw finish_null refl))
  finish-Allocated (some (y, ys)) r holds e (s1, ended, ne, t) =
      let c = first_fit-Carved lo hi (request size) xs y ys holds.spaced e in
      let (s', done, g) = finish_block y ys s1 holds c ne t in
      rw ended (granted y ys s' (ap some done) g)

  -- Given fuel for the blocks of the free list, `kmalloc` returns: NULL, and the state as it was, if
  -- every free block is too small for the request; otherwise the payload of a block taken out of
  -- the free list, aligned and cleared, with the free list in order, every byte outside the free
  -- blocks unchanged and the interrupt flag as before.
  pub kmalloc-Allocated :
      (fuel : ℕ)
      → Holds lo hi xs s
      → 0 < size
      → length xs < fuel
      → Allocated lo hi size xs s (kmalloc fuel size s)
  unfolding kmalloc save_and_cli
  kmalloc-Allocated fuel holds pos enough =
      rw (ne→== size 0 (omega arith)) (elim (Bool-cases (s.free_list_head == 0)) [
        | inl e ↦ rw e (failed (no_blocks xs holds.chain (ground arith)) refl)
        | inr e ↦ rw e (
            finish-Allocated (first_fit (request size) xs) _ holds refl (
              search_loop-Searched fuel head_slot masked lo hi (request size) xs holds.high
                holds.low tt holds.spaced holds.chain enough))
      ])
    where
      no_blocks :
          (zs : List Span)
          → Chain s.mem s.free_list_head zs
          → s.free_list_head ≡ 0
          → All (λ (x : Span). x.1 < request size) zs
      no_blocks [] c e = tt
      no_blocks (z ∷ zs) c e = absurd (c.1 (omega arith))
