-- ===== src/Alloc/Pair.antt =====
-- Two blocks that were granted one after the other.
use binbows_dos.Common.{
  ℕ, ◌+◌, ◌-◌, ◌^◌, ◌<◌, ◌≤◌, ◌≡◌, ◌∙◌, ◌⊎◌, inl, true, false, some, List, length, arith,
}
use binbows_dos.Memory.{Memory, store32}
use binbows_dos.Memory.Words.{store32-apart, load32-same}
use binbows_dos.Alloc.{State, header_size, kfree}
use binbows_dos.Alloc.Align.{request_bounds}
use binbows_dos.Alloc.Span.{Span, covers, in_span}
use binbows_dos.Alloc.Chain.{covers-Apart}
use binbows_dos.Alloc.Kmalloc.{Holds, Granted}
use binbows_dos.Alloc.Payload.{Holds-same}
use binbows_dos.Alloc.Release.{Released, apart-Carved, span-Carved, kfree-Carved}

module _ (lo hi a b : ℕ) (xs : List Span) (s : State) (y : Span) (ys : List Span) (s1 : State)
    (z : Span) (zs : List Span) (s2 : State) (g : Granted lo hi a xs s y ys s1)
    (k : Granted lo hi b ys s1 z zs s2) (small : a ≤ 2 ^ 32 - 8) (small' : b ≤ 2 ^ 32 - 8) where
  pub pair_room : (a ≤ y.1) × (b ≤ z.1)
  pair_room =
      let r = request_bounds a small in
      let r' = request_bounds b small' in
      (omega (arith, g.carved.fits, r.0), omega (arith, k.carved.fits, r'.0))

  pub off_first : (q : ℕ) → in_span q y ≡ true → in_span q z ≡ false
  off_first q e =
      (apart-Carved lo hi b ys z zs k.carved q (span-Carved lo hi a xs y ys g.carved q e)).0

  -- What is in neither block is free behind both, if it was before.
  pub off_both : (q : ℕ) → covers q zs ≡ true → (in_span q y ≡ false) × (in_span q z ≡ false)
  off_both q c =
      let off : in_span q z ≡ false = covers-Apart q z zs k.carved.apart c in
      (ground (arith, k.carved.same_cover q, span-Carved lo hi a xs y ys g.carved q), off)

  pub pair_disjoint :
      (0 < a)
      → (0 < b)
      → (y.0 + header_size + a ≤ z.0 + header_size) ⊎ (z.0 + header_size + b ≤ y.0 + header_size)
  pair_disjoint pos pos' =
      let r = pair_room in ground (arith, off_first (y.0 + header_size), off_first z.0, r)

-- The first block goes back when the second was not granted, with a word in it written.
pub first_back :
    (lo hi size fuel at v : ℕ) (xs : List Span) (s : State) (y : Span) (ys : List Span) (s1 : State)
    → Granted lo hi size xs s y ys s1
    → Holds lo hi xs s
    → length xs < fuel
    → at + 4 ≤ size
    → size ≤ 2 ^ 32 - 8
    → (s' : State) × (kfree fuel
          (y.0 + header_size)
          (record s1 { mem = store32 (y.0 + header_size + at) v s1.mem })
        ≡ some s')
      × Released lo hi xs s s'
first_back lo hi size fuel at v xs s y ys s1 g h enough inside small =
    let room = request_bounds size small in
    let m : Memory = store32 (y.0 + header_size + at) v s1.mem in
    let spared : (q : ℕ) → in_span q y ≡ false → m q ≡ s1.mem q = λ q off.
      store32-apart (y.0 + header_size + at) q v s1.mem (ground (arith, g.carved.fits, room.0)) in
    let (s', done, released) =
      kfree-Carved lo hi size xs y ys g.carved fuel s (record s1 { mem = m }) h
        (Holds-same lo hi ys s1 m g.holds (λ q c. spared q (covers-Apart q y ys g.carved.apart c)))
        (load32-same y.0 s1.mem m
            (λ q l u. store32-apart (y.0 + header_size + at) q v s1.mem (inl (omega arith)))
          ∙ g.held)
        enough in
    (
      s',
      done,
      record {
        holds = released.holds;
        frame = λ q out.
            released.frame q out
            ∙ spared q (apart-Carved lo hi size xs y ys g.carved q out).0
            ∙ g.frame q out;
        interrupts = released.interrupts ∙ g.interrupts;
      },
    )
