-- ===== src/Alloc/Link.antt =====
-- `link_block`: a block is linked in at the head of the list or behind another block, and coalesced.
mod Split
pub use Split.*
use binbows_dos.Common.{
  ℕ, zero, suc, ◌+◌, ◌-◌, ◌^◌, ◌%◌, ◌≤◌, ◌<◌, ◌≡◌, ◌≢◌, refl, inl, inr, ◌⊎◌, Bool, true, false,
  Option, none, some, List, [], ◌∷◌, ◌++◌, arith, ◌==◌, Bool-cases, ◌∙◌, length, ne→==, All, ◌>>=◌,
  ap, sym, length-append,
}
use binbows_dos.Memory.{load32, store32}
use binbows_dos.Memory.Words.{load32-store32, load32-store32_apart, store32-apart, load32-same}
use binbows_dos.Alloc.{
  State, head_slot, next_slot, get_slot, next_at, set_next, header_size, merge_next, merge_prev,
  merge_back, link_block, find_place, insert_free_block_sorted, kfree, save_and_cli, restore_flags,
  set_slot,
}
use binbows_dos.Alloc.Span.{
  Span, covers, Spaced, Apart, IsAligned, join, insert_span, join-Spaced, insert_span-Spaced,
  insert_span-IsAligned,
}
use binbows_dos.Alloc.Chain.{Seg, Chain, Seg-same, Seg-append, covers-Spaced}
use binbows_dos.Alloc.Take.{Chain-lt}
use binbows_dos.Alloc.Kmalloc.{Holds, restore_flags_lem}
use binbows_dos.Alloc.Place.{
  before, after, attach, slot_after, before-append-after, before-lt, after-Spaced, join-cons,
  insert_span-attach, attach-append, slot_after-append, Last, empty, last, Last-of,
  find_place-slot_after, find_prev-last,
}
use binbows_dos.Alloc.Merge.{Merged, merge_next-Merged, merge_prev-Merged}

-- The block at `a` has been linked in: the spans that the list stands for, and what is unchanged.
pub record Linked (a : ℕ) (s : State) (xs ws : List Span) (s' : State) : Type 0 where
  pub chain : Chain s'.mem s'.free_list_head ws
  pub frame : (q : ℕ) → covers q xs ≡ false → (q < a) ⊎ (a + 8 ≤ q) → s'.mem q ≡ s.mem q
  pub interrupts : s'.interrupts ≡ s.interrupts

module _ (hi a n : ℕ) (zs : List Span) (s : State) (pos : a ≢ 0) (small : hi ≤ 2 ^ 32)
    (high : a + header_size + n ≤ hi) (clear : Spaced (a + header_size + n) hi zs)
    (held : load32 s.mem a ≡ n) where
  -- The block is the first of the list.
  pub link_first :
      (fuel : ℕ)
      → Chain s.mem s.free_list_head zs
      → (s' : State) × (link_block fuel head_slot a s ≡ some s') × Linked a s zs (join (a, n) zs) s'
  unfolding link_block merge_back
  link_first fuel chain =
      let s1 = set_next a s.free_list_head s in
      let s2 : State = record s1 { free_list_head = a } in
      let head_small = Chain-lt s.mem s.free_list_head _ hi zs small clear chain in
      let linked : Chain s2.mem a ((a, n) ∷ zs) = (
        refl,
        pos,
        load32-store32_apart (a + 4) a s.free_list_head s.mem (inr (omega arith)) ∙ held,
        rw (load32-store32 (a + 4) s.free_list_head s.mem head_small) (
            Seg-same s.mem s2.mem s.free_list_head 0 zs
              (λ q c.
                let r = covers-Spaced _ hi q zs clear c in
                store32-apart (a + 4) q s.free_list_head s.mem (inr (omega arith)))
              chain),
      ) in
      let m = merge_next-Merged hi a n zs s2 pos small clear linked in
      (
        merge_next a s2,
        refl,
        record {
          chain = rw m.head m.chain;
          frame = λ q c out.
              m.frame q out ∙ store32-apart (a + 4) q s.free_list_head s.mem (omega arith);
          interrupts = m.interrupts;
        },
      )

  -- The block goes behind the block at `c`.
  module _ (c k : ℕ) (pos' : c ≢ 0) (held' : load32 s.mem c ≡ k) (apart : c + header_size + k ≤ a)
      (rest : Chain s.mem (load32 s.mem (c + 4)) zs) where
    abbrev pub s1 : State
    s1 = set_next a (next_at s c) s

    abbrev pub s2 : State
    s2 = set_next c a s1

    pub linked_apart :
        (q : ℕ) → (q < a) ⊎ (a + 8 ≤ q) → (q < c + 4) ⊎ (c + 8 ≤ q) → s2.mem q ≡ s.mem q
    linked_apart q h h' =
        store32-apart (c + 4) q a s1.mem (omega arith)
        ∙ store32-apart (a + 4) q (next_at s c) s.mem (omega arith)

    linked-Chain : Chain s2.mem a ((a, n) ∷ zs)
    linked-Chain =
        let next_small = Chain-lt s.mem (next_at s c) _ hi zs small clear rest in
        (
          refl,
          pos,
          load32-store32_apart (c + 4) a a s1.mem (inl (omega arith))
              ∙ load32-store32_apart (a + 4) a (next_at s c) s.mem (inr (omega arith))
              ∙ held,
          rw
              (
                load32-store32_apart (c + 4) (a + 4) a s1.mem (inl (omega arith)),
                load32-store32 (a + 4) (next_at s c) s.mem next_small,
              )
              (Seg-same s.mem s2.mem (next_at s c) 0 zs
                (λ q cv.
                  let r = covers-Spaced _ hi q zs clear cv in
                  linked_apart q (inr (omega arith)) (inr (omega arith)))
                rest),
        )

    pub forward : Merged a s2 (join (a, n) zs) (merge_next a s2)
    forward = merge_next-Merged hi a n zs s2 pos small clear linked-Chain

    pub next_is : load32 (merge_next a s2).mem (c + 4) ≡ a
    next_is =
        load32-same (c + 4) s2.mem _ (λ q l u. forward.frame q (inl (omega arith)))
        ∙ load32-store32 (c + 4) a s1.mem (omega arith)

    both :
        (k' : ℕ) (ys : List Span)
        → join (a, n) zs ≡ (a, k') ∷ ys
        → Chain (merge_next a s2).mem c ((c, k) ∷ (a, k') ∷ ys)
    both k' ys e = (
      refl,
      pos',
      load32-same c s.mem _ (λ q l u.
            forward.frame q (inl (omega arith))
            ∙ linked_apart q (inl (omega arith)) (inl (omega arith)))
          ∙ held',
      rw next_is (rw e at forward.chain),
    )

    pub backward :
        Merged c (merge_next a s2) (join (c, k) (join (a, n) zs)) (merge_prev c a (merge_next a s2))
    backward =
        let (k', ys, e) = join-cons a n zs in
        let sp = join-Spaced (c + header_size + k) hi a n zs apart high clear in
        rw e (
          merge_prev-Merged hi c k a k' ys (merge_next a s2) pos' small (rw e at sp) (both k' ys e))
