-- ===== src/Elixir/NewFile.antt =====
-- `create_file` against the allocator's specification.
use binbows_dos.Common.{
  ℕ, ◌+◌, ◌≤◌, ◌<◌, ◌≡◌, refl, ◌∙◌, ◌⊎◌, Option, some, List, length, arith, ◌==◌, ne→==, lt→leb,
  leb, ltb, ◌&&◌, false, if◌then◌else◌,
}
use binbows_dos.Memory.{Memory, write, store32}
use binbows_dos.Memory.Fill.{memset_lem}
use binbows_dos.Alloc.{State, header_size, request}
use binbows_dos.Alloc.Align.{request_bounds}
use binbows_dos.Alloc.Span.{Span, covers}
use binbows_dos.Alloc.FirstFit.{Carved, Below}
use binbows_dos.Alloc.Kmalloc.{Holds, failed, granted, kmalloc-Allocated}
use binbows_dos.Alloc.Payload.{Granted-filled}
use binbows_dos.Alloc.Release.{apart-Carved}
use binbows_dos.Elixir.Disk.{index_size, fill_index, create_file}

-- The bytes of a new `struct index`, whose type is 1.
fill_index_lem :
    (p q : ℕ) (m : Memory)
    → fill_index p m q
      ≡ (if leb p q && ltb q (p + index_size) then (if q == p + 1 then 1 else 0) else m q)
unfolding fill_index write store32
fill_index_lem p q m = ground (arith, memset_lem p 0 index_size m q)

-- The ends of `create_file`: NULL with nothing changed, if no free block is large enough; or a block
-- taken out of the free list, with the bytes of a new index.
pub data FileMade (lo hi : ℕ) (xs : List Span) (s : State) (r : Option (ℕ × State)) : Type 0 where
  no_file : r ≡ some (0, s) → Below (request index_size) xs → FileMade lo hi xs s r
  file_made :
      (y : Span) (ys : List Span) (s' : State)
      → r ≡ some (y.0 + header_size, s')
      → Carved lo hi (request index_size) xs y ys
      → Holds lo hi ys s'
      → ((j : ℕ) → j < index_size → s'.mem (y.0 + header_size + j) ≡ (if j == 1 then 1 else 0))
      → ((q : ℕ) → covers q xs ≡ false → s'.mem q ≡ s.mem q)
      → s'.interrupts ≡ s.interrupts
      → FileMade lo hi xs s r

-- On one of the four drives, with fuel for the free list, `create_file` returns: NULL with the state as
-- it was if no free block is large enough; else a block taken out of the free list whose 514 bytes
-- are 0 but for the type, which is 1, with every byte that was not free and the interrupt flag
-- unchanged.
pub create_file-FileMade :
    (lo hi fuel drive : ℕ) (xs : List Span) (s : State)
    → Holds lo hi xs s
    → length xs < fuel
    → drive < 4
    → FileMade lo hi xs s (create_file fuel drive s)
unfolding create_file
create_file-FileMade lo hi fuel drive xs s h enough valid =
    elim (kmalloc-Allocated lo hi index_size xs s fuel h (omega arith) enough) [
      | failed few e ↦ rw (lt→leb 4 drive valid, e) (no_file refl few)
      | granted y ys s1 e g ↦
          let p : ℕ = y.0 + header_size in
          let ne : (p == 0) ≡ false = ne→== p 0 (λ z. omega arith) in
          let room = (request_bounds index_size (omega arith)).0 in
          let off : (q : ℕ) → (q < p) ⊎ (p + index_size ≤ q) → fill_index p s1.mem q ≡ s1.mem q =
            λ q o. fill_index_lem p q s1.mem ∙ ground arith in
          rw (lt→leb 4 drive valid, e, ne)
            (file_made y ys (record s1 { mem = fill_index p s1.mem }) refl g.carved
              (Granted-filled lo hi index_size xs s y ys s1 g (fill_index p s1.mem)
                (record { spared = λ q l u o. off q (omega (arith, g.carved.fits, room)) }))
              (λ j few. fill_index_lem p (p + j) s1.mem ∙ ground arith)
              (λ q out.
                let (out_y, free) = apart-Carved lo hi index_size xs y ys g.carved q out in
                off q (ground (arith, out_y, g.carved.fits, room)) ∙ g.frame q out)
              g.interrupts)
    ]
