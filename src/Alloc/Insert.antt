-- ===== src/Alloc/Insert.antt =====
-- `insert_free_block_sorted` against `insert_span`.
use binbows_dos.Common.{
  ℕ, ◌+◌, ◌^◌, ◌≤◌, ◌<◌, ◌≡◌, ◌≢◌, refl, inl, ◌⊎◌, some, List, [], ◌∷◌, ◌++◌, arith, ◌∙◌, length,
  ne→==, All, ap, sym, length-append,
}
use mathlib.Core.Path.{subst}
use binbows_dos.Memory.{load32}
use binbows_dos.Alloc.{
  State, head_slot, next_slot, next_at, set_next, header_size, merge_next, merge_prev, merge_back,
  link_block, insert_free_block_sorted,
}
use binbows_dos.Alloc.Span.{Span, Spaced, Apart, join, insert_span}
use binbows_dos.Alloc.Chain.{Seg, Chain, Seg-same, Seg-append}
use binbows_dos.Alloc.Kmalloc.{Holds}
use binbows_dos.Alloc.Place.{
  before, after, attach, slot_after, before-append-after, before-lt, after-Spaced,
  insert_span-attach, attach-append, slot_after-append, Last, empty, last, Last-of,
  find_place-slot_after, find_prev-last,
}
use binbows_dos.Alloc.Link.{
  Linked, link_first, linked_apart, forward, next_is, backward, row, Seg-split, covers_front-lt,
  not-covers-split, Apart-split, All-split,
}

-- The block goes behind the last of the spans in front.
link_last :
    (lo hi a n c k fuel : ℕ) (vs zs : List Span) (s : State)
    → hi ≤ 2 ^ 32
    → a ≢ 0
    → a + header_size + n ≤ hi
    → load32 s.mem a ≡ n
    → Spaced lo hi (row vs (c, k) zs)
    → Spaced (a + header_size + n) hi zs
    → All (λ (x : Span). x.0 < a) (vs ++ (c, k) ∷ [])
    → Apart (a, n) (row vs (c, k) zs)
    → Chain s.mem s.free_list_head (row vs (c, k) zs)
    → length vs < fuel
    → (s' : State) × (link_block fuel (next_slot c) a s ≡ some s')
      × Linked a s (row vs (c, k) zs) (attach (vs ++ (c, k) ∷ []) (join (a, n) zs)) s'
unfolding link_block merge_back
link_last lo hi a n c k fuel vs zs s small pos high held sp clear lt ap-all chain enough =
    let (seg, (pos', held', rest)) = Seg-split s.mem s.free_list_head c k 0 vs zs chain in
    let (vs-lt, c-lt) = All-split _ vs (c, k) lt in
    let side = Apart-split a n c k vs zs ap-all in
    let apart : c + header_size + k ≤ a = omega arith in
    let s2 = set_next c a (set_next a (next_at s c) s) in
    let spared = linked_apart hi a n zs s pos small high clear held c k pos' held' apart rest in
    let f = forward hi a n zs s pos small high clear held c k pos' held' apart rest in
    let b = backward hi a n zs s pos small high clear held c k pos' held' apart rest in
    let same = λ (q : ℕ) (o : (q < c) ⊎ (c + 8 ≤ q)) (o' : (q < a) ⊎ (a + 8 ≤ q)).
      b.frame q o ∙ f.frame q o' ∙ spared q o' (omega arith) in
    let at = next_is hi a n zs s pos small high clear held c k pos' held' apart rest in
    let front =
      Seg-same s.mem (merge_next a s2).mem s.free_list_head c vs
        (λ q cv.
          let l = covers_front-lt lo hi c k q vs zs sp cv in
          f.frame q (inl (omega arith)) ∙ spared q (inl (omega arith)) (inl (omega arith)))
        seg in
    let front' = subst (λ p. Seg (merge_next a s2).mem p vs c) (sym f.head) front in
    let found =
      find_prev-last fuel (merge_next a s2) (merge_next a s2).free_list_head c a vs front' vs-lt
        c-lt pos' at enough in
    (
      merge_prev c a (merge_next a s2),
      rw found refl,
      record {
        chain = rw (attach-append vs (join (a, n) zs) (c, k)) (
            subst
              (λ (p : ℕ).
                Chain (merge_prev c a (merge_next a s2)).mem p (vs ++ join (c, k) (join (a, n) zs)))
              (sym (b.head ∙ f.head))
              (Seg-append _ s.free_list_head c 0 vs _
                (Seg-same s.mem _ s.free_list_head c vs
                  (λ q cv.
                    let l = covers_front-lt lo hi c k q vs zs sp cv in
                    same q (inl l) (inl (omega arith)))
                  seg)
                b.chain));
        frame = λ q cv out. same q (ground (arith, not-covers-split q (c, k) vs zs cv)) out;
        interrupts = b.interrupts ∙ f.interrupts;
      },
    )

link-Linked :
    (lo hi a n fuel : ℕ) {us : List Span} (zs : List Span) (s : State)
    → Last us
    → hi ≤ 2 ^ 32
    → a ≢ 0
    → a + header_size + n ≤ hi
    → load32 s.mem a ≡ n
    → Spaced lo hi (us ++ zs)
    → Spaced (a + header_size + n) hi zs
    → All (λ (x : Span). x.0 < a) us
    → Apart (a, n) (us ++ zs)
    → Chain s.mem s.free_list_head (us ++ zs)
    → length us ≤ fuel
    → (s' : State) × (link_block fuel (slot_after head_slot us) a s ≡ some s')
      × Linked a s (us ++ zs) (attach us (join (a, n) zs)) s'
link-Linked lo hi a n fuel zs s empty small pos high held sp clear lt ap-all chain enough =
    unfold attach in link_first hi a n zs s pos small high clear held fuel chain
link-Linked lo hi a n fuel zs s (last vs (c, k)) small pos high held sp clear lt ap-all chain
      enough =
    rw (slot_after-append head_slot vs (c, k)) (
      link_last lo hi a n c k fuel vs zs s small pos high held sp clear lt ap-all chain
        (omega (arith, length-append vs ((c, k) ∷ []))))

-- `insert_free_block_sorted` links a block that overlaps no free one into its place and coalesces
-- it with its neighbours: the free list then stands for `insert_span` of the block's span.
pub insert-Linked :
    (lo hi a n fuel : ℕ) (xs : List Span) (s : State)
    → Holds lo hi xs s
    → lo ≤ a
    → a + header_size + n ≤ hi
    → load32 s.mem a ≡ n
    → Apart (a, n) xs
    → length xs < fuel
    → (s' : State) × (insert_free_block_sorted fuel a s ≡ some s')
      × Linked a s xs (insert_span (a, n) xs) s'
unfolding insert_free_block_sorted
insert-Linked lo hi a n fuel xs s h low high held apart enough =
    let e = before-append-after a xs in
    let pos : a ≢ 0 = omega arith in
    rw
      (
        ne→== a 0 pos,
        find_place-slot_after fuel s head_slot a xs h.chain enough,
        insert_span-attach lo hi a n xs h.spaced,
      )
      (subst
        (λ (t : List Span).
          (s' : State) × (link_block fuel (slot_after head_slot (before a xs)) a s ≡ some s')
          × Linked a s t (attach (before a xs) (join (a, n) (after a xs))) s')
        (sym e)
        (link-Linked lo hi a n fuel (after a xs) s (Last-of (before a xs)) h.high pos high held
          (rw (← e) h.spaced) (after-Spaced lo hi a n xs h.spaced apart) (before-lt a xs)
          (rw (← e) apart) (rw (← e) h.chain)
          (omega (arith, ap length e, length-append (before a xs) (after a xs)))))
