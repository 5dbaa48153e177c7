-- ===== src/Alloc/Room.antt =====
-- A free list from which a block can be taken holds a span that is large enough.
use binbows_dos.Common.{
  ℕ, ◌+◌, ◌<◌, sym, arith, List, [], ◌∷◌, All, ltb, ◌==◌, Bool-cases, inl, inr,
}
use binbows_dos.Alloc.{header_size}
use binbows_dos.Alloc.Span.{Span, join, insert_span}
use binbows_dos.Alloc.FirstFit.{Carved, Below}
use mathlib.Core.Path.{subst}

join-Below : (k : ℕ) (x : Span) (xs : List Span) → Below k (join x xs) → (x.1 < k) × Below k xs
unfolding join
join-Below k (a, n) [] h = h
join-Below k (a, n) ((b, m) ∷ xs) h = elim (Bool-cases (a + header_size + n == b)) [
  | inl e ↦ let h' = rw e at h in (omega arith, (omega arith, h'.1))
  | inr e ↦ rw e at h
]

insert_span-Below : (k : ℕ) (x : Span) (xs : List Span) → Below k (insert_span x xs) → x.1 < k
unfolding insert_span
insert_span-Below k x [] h = h.0
insert_span-Below k (a, n) ((b, m) ∷ xs) h = elim (Bool-cases (ltb b a)) [
  | inl e ↦
      insert_span-Below k (a, n) xs (join-Below k (b, m) (insert_span (a, n) xs) (rw e at h)).1
  | inr e ↦ (join-Below k (a, n) ((b, m) ∷ xs) (rw e at h)).0
]

pub Carved-Below :
    (lo hi size : ℕ) (xs : List Span) (y : Span) (ys : List Span)
    → Carved lo hi size xs y ys
    → ¬ All (λ (x : Span). x.1 < size) xs
Carved-Below lo hi size xs y ys c h =
    let few = insert_span-Below size y ys (subst (Below size) (sym c.restored) h) in
    omega (arith, c.fits)
