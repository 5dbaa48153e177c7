-- ===== src/Alloc/Link/Split.antt =====
-- Facts about spans `vs`, a span `(c, k)` and spans `zs`, in a row.
use binbows_dos.Common.{
  ℕ, ◌+◌, ◌≤◌, ◌<◌, ◌≡◌, ◌≢◌, ◌⊎◌, true, false, List, [], ◌∷◌, ◌++◌, arith, All,
}
use binbows_dos.Memory.{Memory, load32}
use binbows_dos.Alloc.{header_size}
use binbows_dos.Alloc.Span.{Span, covers, in_span, Spaced, Apart}
use binbows_dos.Alloc.Chain.{Seg}

abbrev pub row : List Span → Span → List Span → List Span
row vs y zs = (vs ++ y ∷ []) ++ zs

pub Seg-split :
    (m : Memory) (p c k r : ℕ) (vs zs : List Span)
    → Seg m p (row vs (c, k) zs) r
    → Seg m p vs c × ((c ≢ 0) × (load32 m c ≡ k) × Seg m (load32 m (c + 4)) zs r)
Seg-split m p c k r [] zs s = (s.0, (s.1, s.2, s.3))
Seg-split m p c k r ((b, l) ∷ vs) zs s =
    let t = Seg-split m (load32 m (b + 4)) c k r vs zs s.3 in ((s.0, s.1, s.2, t.0), t.1)

pub Spaced-split :
    (lo hi c k : ℕ) (vs zs : List Span)
    → Spaced lo hi (row vs (c, k) zs)
    → (lo ≤ c) × (c + header_size + k ≤ hi)
Spaced-split lo hi c k [] zs s = (s.0, s.1)
Spaced-split lo hi c k ((b, l) ∷ vs) zs s =
    let t = Spaced-split (b + header_size + l + 1) hi c k vs zs s.2 in (omega arith, t.1)

pub covers_front-lt :
    (lo hi c k q : ℕ) (vs zs : List Span)
    → Spaced lo hi (row vs (c, k) zs)
    → covers q vs ≡ true
    → q < c
covers_front-lt lo hi c k q [] zs s h = cc
covers_front-lt lo hi c k q ((b, l) ∷ vs) zs s h =
    let t = Spaced-split (b + header_size + l + 1) hi c k vs zs s.2 in
    ground (arith, covers_front-lt (b + header_size + l + 1) hi c k q vs zs)

pub not-covers-split :
    (q : ℕ) (y : Span) (vs zs : List Span) → covers q (row vs y zs) ≡ false → in_span q y ≡ false
not-covers-split q y [] zs h = ground arith
not-covers-split q y (v ∷ vs) zs h = not-covers-split q y vs zs (ground arith)

pub Apart-split :
    (a n c k : ℕ) (vs zs : List Span)
    → Apart (a, n) (row vs (c, k) zs)
    → (c + header_size + k ≤ a) ⊎ (a + header_size + n ≤ c)
Apart-split a n c k [] zs h = h.0
Apart-split a n c k (v ∷ vs) zs h = Apart-split a n c k vs zs h.1

pub All-split {ℓ κ} :
    {A : Type ℓ} (P : A → Type κ) (vs : List A) (y : A) → All P (vs ++ y ∷ []) → All P vs × P y
All-split P [] y h = (tt, h.0)
All-split P (v ∷ vs) y h = let t = All-split P vs y h.1 in ((h.0, t.0), t.1)
