-- ===== src/Elixir/GiveBack.antt =====
-- The release of the blocks of `elixir_format`.
use binbows_dos.Common.{ℕ, ◌+◌, ◌≤◌, ◌<◌, ◌≡◌, ◌∙◌, ◌⊎◌, inl, some, List, length, arith, false}
use binbows_dos.Memory.{Memory, load32}
use binbows_dos.Memory.Words.{load32-same}
use binbows_dos.Alloc.{State, header_size, kfree}
use binbows_dos.Alloc.Align.{request_bounds}
use binbows_dos.Alloc.Span.{Span, in_span}
use binbows_dos.Alloc.Chain.{covers-Apart}
use binbows_dos.Alloc.Kmalloc.{Holds, Granted}
use binbows_dos.Alloc.Payload.{Holds-same}
use binbows_dos.Alloc.Release.{Released, apart-Carved, span-Carved, kfree-Carved}
use binbows_dos.Elixir.{bitmap_bytes, super_block_size}
use binbows_dos.Elixir.MakeBitmap.{TwoBlocks}

-- The two blocks are given back in the order of `elixir_format`.
pub TwoBlocks-Released :
    (lo hi size fuel : ℕ) (xs : List Span) (s : State) (y : Span) (ys : List Span) (z : Span)
    (zs : List Span) (s' : State)
    → Holds lo hi xs s
    → length xs < fuel
    → TwoBlocks lo hi size xs s y ys z zs s'
    → (s3 : State) × (s4 : State) × (kfree fuel (z.0 + header_size) s' ≡ some s3)
      × (kfree fuel (y.0 + header_size) s3 ≡ some s4)
      × Released lo hi xs s s4
TwoBlocks-Released lo hi size fuel xs s y ys z zs s' h enough t =
    let (s3, done, rel) =
      kfree-Carved lo hi (bitmap_bytes size) ys z zs t.second fuel t.between s' t.behind_first
        t.holds t.held_second (omega (arith, t.first.shorter)) in
    let held : load32 s3.mem y.0 ≡ y.1 =
      load32-same y.0 s'.mem s3.mem
        (λ q l u. rel.frame q (span-Carved lo hi 16 xs y ys t.first q (ground arith)))
      ∙ t.held_first in
    let (s4, done', rel') =
      kfree-Carved lo hi 16 xs y ys t.first fuel s s3 h rel.holds held enough in
    (
      s3,
      s4,
      done,
      done',
      record {
        holds = rel'.holds;
        frame = λ q out.
            rel'.frame q out
            ∙ rel.frame q (apart-Carved lo hi 16 xs y ys t.first q out).1
            ∙ t.frame q out;
        interrupts = rel'.interrupts ∙ rel.interrupts ∙ t.interrupts;
      },
    )

-- The superblock's block is given back at the end.
module _ (lo hi fuel : ℕ) (xs : List Span) (s : State) (y : Span) (ys : List Span) (s1 : State)
    (g : Granted lo hi super_block_size xs s y ys s1) (m : Memory)
    (spared : (q : ℕ) → (q < y.0 + header_size) ⊎ (y.0 + header_size + 512 ≤ q) → m q ≡ s1.mem q)
    (h : Holds lo hi xs s) (enough : length xs < fuel) where
  abbrev pub made : State
  made = record s1 { mem = m }

  outside : (q : ℕ) → in_span q y ≡ false → m q ≡ s1.mem q
  outside q off =
      let room = request_bounds super_block_size (omega arith) in
      spared q (ground (arith, g.carved.fits, room.0))

  pub made-Holds : Holds lo hi ys made
  made-Holds =
      Holds-same lo hi ys s1 m g.holds (λ q c. outside q (covers-Apart q y ys g.carved.apart c))

  pub super_back :
      (s4 : State)
      → Released lo hi ys made s4
      → (s5 : State) × (kfree fuel (y.0 + header_size) s4 ≡ some s5) × Released lo hi xs s s5
  super_back s4 rel =
      let held : load32 s4.mem y.0 ≡ y.1 =
        load32-same y.0 m s4.mem (λ q l u.
          rel.frame q (span-Carved lo hi super_block_size xs y ys g.carved q (ground arith)))
        ∙ load32-same y.0 s1.mem m (λ q l u. spared q (inl (omega arith)))
        ∙ g.held in
      let (s5, done, rel') =
        kfree-Carved lo hi super_block_size xs y ys g.carved fuel s s4 h rel.holds held enough in
      (
        s5,
        done,
        record {
          holds = rel'.holds;
          frame = λ q out.
              let (off, free) = apart-Carved lo hi super_block_size xs y ys g.carved q out in
              rel'.frame q out ∙ rel.frame q free ∙ outside q off ∙ g.frame q out;
          interrupts = rel'.interrupts ∙ rel.interrupts ∙ g.interrupts;
        },
      )
