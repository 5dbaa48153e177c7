-- ===== src/Alloc/Span.antt =====
-- What a free list stands for: the spans (address and size) of its blocks, in order, and what
-- freeing a span does to them. A span `(a, n)` takes the `header_size + n` bytes from `a` on.
use binbows_dos.Common.{
  ℕ, ◌+◌, ◌≤◌, ◌≡◌, refl, ◌⊎◌, Bool, true, false, ◌&&◌, ◌||◌, List, [], ◌∷◌, arith, ltb, leb, ◌==◌,
  if◌then◌else◌, All, ◌%◌, Bool-cases, inl, inr, ap, ◌∙◌,
}
use binbows_dos.Alloc.{header_size}

abbrev pub Span : Type 0
Span = ℕ × ℕ

-- The byte `q` belongs to the span.
abbrev pub in_span : ℕ → Span → Bool
in_span q (a, n) = leb a q && ltb q (a + header_size + n)

abbrev pub covers : ℕ → List Span → Bool
covers q [] = false
covers q (x ∷ xs) = in_span q x || covers q xs

-- The spans lie between `lo` and `hi`, sorted by address, and a byte at least separates each from
-- the next: no two are adjacent.
abbrev pub Spaced : ℕ → ℕ → List Span → Type 0
Spaced lo hi [] = Unit
Spaced lo hi ((a, n) ∷ xs) =
    (lo ≤ a) × (a + header_size + n ≤ hi) × Spaced (a + header_size + n + 1) hi xs

-- The span overlaps none of the others.
abbrev pub Apart : Span → List Span → Type 0
Apart (a, n) xs = All (λ ((b, m) : Span). (b + header_size + m ≤ a) ⊎ (a + header_size + n ≤ b)) xs

abbrev pub IsAligned : List Span → Type 0
IsAligned xs = All (λ (x : Span). x.0 % 8 ≡ 0) xs

-- The bytes that the spans take, headers included.
abbrev pub footprint : List Span → ℕ
footprint [] = 0
footprint ((a, n) ∷ xs) = header_size + n + footprint xs

-- A span in front of the others takes in the first where the two are adjacent.
unfoldable pub join : Span → List Span → List Span
join x [] = x ∷ []
join (a, n) ((b, m) ∷ xs) =
    if a + header_size + n == b then (a, n + header_size + m) ∷ xs else (a, n) ∷ (b, m) ∷ xs

-- The span is put in its place and joined with its neighbours.
unfoldable pub insert_span : Span → List Span → List Span
unfolding join
insert_span x [] = x ∷ []
insert_span (a, n) ((b, m) ∷ xs) =
    if ltb b a then join (b, m) (insert_span (a, n) xs) else join (a, n) ((b, m) ∷ xs)

pub Spaced-weaken : (lo lo' hi : ℕ) (xs : List Span) → lo' ≤ lo → Spaced lo hi xs → Spaced lo' hi xs
Spaced-weaken lo lo' hi [] h s = tt
Spaced-weaken lo lo' hi (x ∷ xs) h s = (omega arith, s.1, s.2)

pub join-Spaced :
    (lo hi a n : ℕ) (xs : List Span)
    → lo ≤ a
    → a + header_size + n ≤ hi
    → Spaced (a + header_size + n) hi xs
    → Spaced lo hi (join (a, n) xs)
unfolding join
join-Spaced lo hi a n [] low high s = (low, high, tt)
join-Spaced lo hi a n ((b, m) ∷ xs) low high s = elim (Bool-cases (a + header_size + n == b)) [
  | inl e ↦ rw e (
    low,
    ground arith,
    Spaced-weaken (b + header_size + m + 1) (a + header_size + (n + header_size + m) + 1) hi xs
        (ground arith) s.2,
  )
  | inr e ↦ rw e (low, high, (ground arith, s.1, s.2))
]

-- Freeing keeps the list sorted and fully coalesced.
pub insert_span-Spaced :
    (lo hi a n : ℕ) (xs : List Span)
    → lo ≤ a
    → a + header_size + n ≤ hi
    → Spaced lo hi xs
    → Apart (a, n) xs
    → Spaced lo hi (insert_span (a, n) xs)
unfolding insert_span
insert_span-Spaced lo hi a n [] low high s h = (low, high, tt)
insert_span-Spaced lo hi a n ((b, m) ∷ xs) low high s h = elim (Bool-cases (ltb b a)) [
  | inl e ↦
      let end : ℕ = b + header_size + m in
      rw e (
        join-Spaced lo hi b m (insert_span (a, n) xs) s.0 s.1 (
          insert_span-Spaced end hi a n xs (ground arith) high
            (Spaced-weaken (end + 1) end hi xs (omega arith) s.2) h.1))
  | inr e ↦ rw e (join-Spaced lo hi a n ((b, m) ∷ xs) low high (ground arith, s.1, s.2))
]

pub footprint-join :
    (x : Span) (xs : List Span) → footprint (join x xs) ≡ header_size + x.1 + footprint xs
unfolding join
footprint-join (a, n) [] = omega arith
footprint-join (a, n) ((b, m) ∷ xs) = ground arith

-- Freeing adds the bytes of the span.
pub footprint-insert_span :
    (x : Span) (xs : List Span) → footprint (insert_span x xs) ≡ header_size + x.1 + footprint xs
unfolding insert_span
footprint-insert_span (a, n) [] = omega arith
footprint-insert_span (a, n) ((b, m) ∷ xs) =
    ground (arith, footprint-insert_span (a, n) xs, footprint-join (b, m) (insert_span (a, n) xs))

covers-join :
    (q : ℕ) (x : Span) (xs : List Span) → covers q (join x xs) ≡ (in_span q x || covers q xs)
unfolding join
covers-join q (a, n) [] = refl
covers-join q (a, n) ((b, m) ∷ xs) = ground arith

pub or_left_comm : (a b c : Bool) → (a || (b || c)) ≡ (b || (a || c))
or_left_comm true b c = ground arith
or_left_comm false b c = refl

-- A byte is free afterwards exactly when it was, or belongs to the span.
pub covers-insert_span :
    (q : ℕ) (x : Span) (xs : List Span) → covers q (insert_span x xs) ≡ (in_span q x || covers q xs)
unfolding insert_span
covers-insert_span q (a, n) [] = refl
covers-insert_span q (a, n) ((b, m) ∷ xs) = elim (Bool-cases (ltb b a)) [
  | inl e ↦ rw e (
      covers-join q (b, m) (insert_span (a, n) xs)
      ∙ ap (λ c. in_span q (b, m) || c) (covers-insert_span q (a, n) xs)
      ∙ or_left_comm (in_span q (b, m)) (in_span q (a, n)) (covers q xs))
  | inr e ↦ rw e (covers-join q (a, n) ((b, m) ∷ xs))
]

join-IsAligned : (x : Span) (xs : List Span) → x.0 % 8 ≡ 0 → IsAligned xs → IsAligned (join x xs)
unfolding join
join-IsAligned (a, n) [] h al = (h, tt)
join-IsAligned (a, n) ((b, m) ∷ xs) h al = ground arith

pub insert_span-IsAligned :
    (x : Span) (xs : List Span) → x.0 % 8 ≡ 0 → IsAligned xs → IsAligned (insert_span x xs)
unfolding insert_span
insert_span-IsAligned (a, n) [] h al = (h, tt)
insert_span-IsAligned (a, n) ((b, m) ∷ xs) h al =
    ground (arith, insert_span-IsAligned (a, n) xs, join-IsAligned (b, m) (insert_span (a, n) xs))
