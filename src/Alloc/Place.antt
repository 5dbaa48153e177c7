-- ===== src/Alloc/Place.antt =====
-- The place of a block in the free list: the spans before and after it, and what the two searches
-- of `insert_free_block_sorted` find.
use binbows_dos.Common.{
  ℕ, zero, suc, ◌+◌, ◌<◌, ◌≡◌, ◌≢◌, refl, inl, inr, some, List, [], ◌∷◌, ◌++◌, arith, ltb, ◌==◌,
  Bool-cases, ◌∙◌, length, ne→==, eq→==, All, if◌then◌else◌, ap,
}
use binbows_dos.Memory.{Memory}
use binbows_dos.Alloc.{
  State, Slot, next_slot, get_slot, next_at, header_size, find_place, find_prev,
}
use binbows_dos.Alloc.Span.{Span, Spaced, Apart, join, insert_span}
use binbows_dos.Alloc.Chain.{Seg, Chain}

-- The spans in front of the address `a`, and the others.
unfoldable pub before : ℕ → List Span → List Span
before a [] = []
before a ((b, m) ∷ xs) = if ltb b a then (b, m) ∷ before a xs else []

unfoldable pub after : ℕ → List Span → List Span
after a [] = []
after a ((b, m) ∷ xs) = if ltb b a then after a xs else (b, m) ∷ xs

-- The slot behind the spans.
abbrev pub slot_after : Slot → List Span → Slot
slot_after cur [] = cur
slot_after cur ((b, m) ∷ us) = slot_after (next_slot b) us

-- The last of the spans in front is joined with what follows.
unfoldable pub attach : List Span → List Span → List Span
attach [] ws = ws
attach (u ∷ []) ws = join u ws
attach (u ∷ v ∷ us) ws = u ∷ attach (v ∷ us) ws

pub before-append-after : (a : ℕ) (xs : List Span) → xs ≡ before a xs ++ after a xs
unfolding before after
before-append-after a [] = refl
before-append-after a ((b, m) ∷ xs) = elim (Bool-cases (ltb b a)) [
  | inl e ↦ rw e (ap (λ t. (b, m) ∷ t) (before-append-after a xs))
  | inr e ↦ rw e refl
]

pub before-lt : (a : ℕ) (xs : List Span) → All (λ (x : Span). x.0 < a) (before a xs)
unfolding before
before-lt a [] = tt
before-lt a ((b, m) ∷ xs) = elim (Bool-cases (ltb b a)) [
  | inl e ↦ rw e (ground arith, before-lt a xs)
  | inr e ↦ rw e tt
]

-- The spans after are clear of the block.
pub after-Spaced :
    (lo hi a n : ℕ) (xs : List Span)
    → Spaced lo hi xs
    → Apart (a, n) xs
    → Spaced (a + header_size + n) hi (after a xs)
unfolding after
after-Spaced lo hi a n [] sp ap = tt
after-Spaced lo hi a n ((b, m) ∷ xs) sp ap = elim (Bool-cases (ltb b a)) [
  | inl e ↦ rw e (after-Spaced (b + header_size + m + 1) hi a n xs sp.2 ap.1)
  | inr e ↦ rw e (ground arith, sp.1, sp.2)
]

-- `join` and `attach` keep the first address.
pub join-cons :
    (a n : ℕ) (xs : List Span) → (k : ℕ) × (ys : List Span) × (join (a, n) xs ≡ (a, k) ∷ ys)
unfolding join
join-cons a n [] = (n, [], refl)
join-cons a n ((b, m) ∷ xs) = elim (Bool-cases (a + header_size + n == b)) [
  | inl e ↦ (n + header_size + m, xs, rw e refl)
  | inr e ↦ (n, (b, m) ∷ xs, rw e refl)
]

attach-cons :
    (a n : ℕ) (us ws : List Span)
    → (k : ℕ) × (ys : List Span) × (attach ((a, n) ∷ us) ws ≡ (a, k) ∷ ys)
unfolding attach
attach-cons a n [] ws = join-cons a n ws
attach-cons a n (u ∷ us) ws = (n, attach (u ∷ us) ws, refl)

join-apart :
    (a n b m : ℕ) (xs ys : List Span)
    → xs ≡ (b, m) ∷ ys
    → a + header_size + n < b
    → join (a, n) xs ≡ (a, n) ∷ xs
unfolding join
join-apart a n b m xs ys e h = rw (e, ne→== (a + header_size + n) b (omega arith)) refl

join-attach :
    (lo hi a n : ℕ) (us ws rest : List Span)
    → Spaced lo hi ((a, n) ∷ us ++ rest)
    → join (a, n) (attach us ws) ≡ attach ((a, n) ∷ us) ws
unfolding attach
join-attach lo hi a n [] ws rest sp = refl
join-attach lo hi a n ((b, m) ∷ us) ws rest sp =
    let (k, ys, e) = attach-cons b m us ws in
    join-apart a n b k (attach ((b, m) ∷ us) ws) ys e (omega arith)

-- Putting a span in its place is joining it with what follows, and the last in front with that.
pub insert_span-attach :
    (lo hi a n : ℕ) (xs : List Span)
    → Spaced lo hi xs
    → insert_span (a, n) xs ≡ attach (before a xs) (join (a, n) (after a xs))
unfolding insert_span before after
insert_span-attach lo hi a n [] sp = unfold attach join in refl
insert_span-attach lo hi a n ((b, m) ∷ xs) sp = elim (Bool-cases (ltb b a)) [
  | inl e ↦ rw e (
      ap (join (b, m)) (insert_span-attach (b + header_size + m + 1) hi a n xs sp.2)
      ∙ join-attach lo hi b m (before a xs) (join (a, n) (after a xs)) (after a xs)
          (sp.0, sp.1, rw (← before-append-after a xs) sp.2))
  | inr e ↦ rw e (unfold attach in refl)
]

pub attach-append : (vs ws : List Span) (y : Span) → attach (vs ++ y ∷ []) ws ≡ vs ++ join y ws
unfolding attach
attach-append [] ws y = refl
attach-append (v ∷ []) ws y = refl
attach-append (v ∷ v' ∷ vs) ws y = ap (λ t. v ∷ t) (attach-append (v' ∷ vs) ws y)

pub slot_after-append :
    (cur : Slot) (vs : List Span) (y : Span) → slot_after cur (vs ++ y ∷ []) ≡ next_slot y.0
slot_after-append cur [] y = refl
slot_after-append cur ((b, m) ∷ vs) y = slot_after-append (next_slot b) vs y

-- A list is empty or has a last element.
pub data Last : List Span → Type 0 where
  empty : Last []
  last : (vs : List Span) (y : Span) → Last (vs ++ y ∷ [])

pub Last-of : (us : List Span) → Last us
Last-of [] = empty
Last-of (u ∷ us) = extend u (Last-of us)
  where
    extend : (u : Span) {us : List Span} → Last us → Last (u ∷ us)
    extend u empty = last [] u
    extend u (last vs y) = last (u ∷ vs) y

pub find_place-slot_after :
    (fuel : ℕ) (s : State) (cur : Slot) (a : ℕ) (xs : List Span)
    → Chain s.mem (get_slot s cur) xs
    → length xs < fuel
    → find_place fuel s cur a ≡ some (slot_after cur (before a xs))
unfolding find_place before
find_place-slot_after zero s cur a xs c h = absurd (omega arith)
find_place-slot_after (suc fuel) s cur a [] c h = rw c refl
find_place-slot_after (suc fuel) s cur a ((b, m) ∷ xs) c h =
    rw (c.0, ne→== b 0 c.1)
      (elim (Bool-cases (ltb b a)) [
        | inl e ↦ rw e (find_place-slot_after fuel s (next_slot b) a xs c.3 (omega arith))
        | inr e ↦ rw e refl
      ])

-- The pointer into spans that all lie below `a` lies below `a` too.
Seg-lt :
    (m : Memory) (p q a : ℕ) (vs : List Span)
    → Seg m p vs q
    → All (λ (x : Span). x.0 < a) vs
    → q < a
    → p < a
Seg-lt m p q a [] s h l = omega arith
Seg-lt m p q a (v ∷ vs) s h l = omega arith

pub find_prev-last :
    (fuel : ℕ) (s : State) (p c a : ℕ) (vs : List Span)
    → Seg s.mem p vs c
    → All (λ (x : Span). x.0 < a) vs
    → c < a
    → c ≢ 0
    → next_at s c ≡ a
    → length vs < fuel
    → find_prev fuel s p a ≡ some c
unfolding find_prev
find_prev-last zero s p c a vs seg lt ca ne at h = absurd (omega arith)
find_prev-last (suc fuel) s p c a [] seg lt ca ne at h =
    rw (seg, at, eq→== a a refl, ne→== c 0 ne) refl
find_prev-last (suc fuel) s p c a ((b, m) ∷ vs) seg lt ca ne at h =
    let next_lt = Seg-lt s.mem (next_at s b) c a vs seg.3 lt.1 ca in
    rw (seg.0, ne→== b 0 seg.1, ne→== (next_at s b) a (omega arith))
      (find_prev-last fuel s (next_at s b) c a vs seg.3 lt.1 ca ne at (omega arith))
