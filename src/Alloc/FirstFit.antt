-- ===== src/Alloc/FirstFit.antt =====
-- What `kmalloc` does to the spans of the free list: the first that is large enough is taken, whole
-- or cut in two, where what is left holds a header and `min_alloc_size` bytes.
use binbows_dos.Common.{
  ℕ, ◌+◌, ◌-◌, ◌%◌, ◌≤◌, ◌<◌, ◌≡◌, refl, inl, inr, Bool, ◌||◌, Option, none, some, List, [], ◌∷◌,
  arith, leb, if◌then◌else◌, All, Bool-cases, length, le→ltb, lt→ltb, eq→==, ne→==, ap, ◌∙◌,
}
use mathlib.Core.Path.{subst}
use binbows_dos.Alloc.{header_size, min_alloc_size}
use binbows_dos.Alloc.Span.{
  Span, in_span, covers, Spaced, Apart, IsAligned, footprint, Spaced-weaken, or_left_comm,
  insert_span, join,
}

-- The span taken, and the spans left.
unfoldable pub carve : ℕ → Span → List Span → Span × List Span
carve s (a, n) xs =
    if leb (s + header_size + min_alloc_size) n
    then ((a, s), (a + header_size + s, n - s - header_size) ∷ xs)
    else ((a, n), xs)

unfoldable pub skip : Span → Option (Span × List Span) → Option (Span × List Span)
skip x none = none
skip x (some (y, ys)) = some (y, x ∷ ys)

unfoldable pub first_fit : ℕ → List Span → Option (Span × List Span)
unfolding carve skip
first_fit s [] = none
first_fit s ((a, n) ∷ xs) =
    if leb s n then some (carve s (a, n) xs) else skip (a, n) (first_fit s xs)

-- Every span is smaller than `k`.
abbrev pub Below : ℕ → List Span → Type 0
Below k xs = All (λ (x : Span). x.1 < k) xs

pub Below-weaken : (k k' : ℕ) (xs : List Span) → k ≤ k' → Below k xs → Below k' xs
Below-weaken k k' [] h b = tt
Below-weaken k k' (x ∷ xs) h b = (omega (arith, b.0), Below-weaken k k' xs h b.1)

-- The span `y` has been taken out of `xs` for a request of `s` bytes, and `ys` is left.
pub record Carved (lo hi s : ℕ) (xs : List Span) (y : Span) (ys : List Span) : Type 0 where
  pub fits : s ≤ y.1
  pub tight : y.1 < s + header_size + min_alloc_size
  pub low : lo ≤ y.0
  pub high : y.0 + header_size + y.1 ≤ hi
  pub spaced : Spaced lo hi ys
  pub apart : Apart y ys
  pub bytes : footprint xs ≡ header_size + y.1 + footprint ys
  pub same_cover : (q : ℕ) → covers q xs ≡ (in_span q y || covers q ys)
  pub shorter : length ys ≤ length xs
  pub room : (k : ℕ) → Below k ys → Below (k + (s + 24)) xs
  pub restored : insert_span y ys ≡ xs
  pub aligned : s % 8 ≡ 0 → IsAligned xs → (y.0 % 8 ≡ 0) × IsAligned ys

pub carve_addr : (s a n : ℕ) (xs : List Span) → (carve s (a, n) xs).0.0 ≡ a
unfolding carve
carve_addr s a n xs = ground arith

Spaced-Apart :
    (lo hi a n : ℕ) (xs : List Span) → a + header_size + n ≤ lo → Spaced lo hi xs → Apart (a, n) xs
Spaced-Apart lo hi a n [] h s = tt
Spaced-Apart lo hi a n ((b, m) ∷ xs) h s =
    (inr (omega arith), Spaced-Apart (b + header_size + m + 1) hi a n xs (omega arith) s.2)

-- What puts a span back: in front of what it was cut from, in front of the others, or behind one.
insert_cut :
    (a s n : ℕ) (xs : List Span)
    → s + 24 ≤ n
    → insert_span (a, s) ((a + header_size + s, n - s - header_size) ∷ xs) ≡ (a, n) ∷ xs
unfolding insert_span
insert_cut a s n xs h =
    rw (le→ltb (a + header_size + s) a (omega arith), eq→== (a + header_size + s) _ refl)
      (ap (λ (t : ℕ). (a, t) ∷ xs) (omega arith))

insert_front :
    (lo hi a n : ℕ) (xs : List Span)
    → a + header_size + n < lo
    → Spaced lo hi xs
    → insert_span (a, n) xs ≡ (a, n) ∷ xs
unfolding insert_span
insert_front lo hi a n [] h sp = refl
insert_front lo hi a n ((b, m) ∷ xs) h sp =
    rw (le→ltb b a (omega arith), ne→== (a + header_size + n) b (omega arith)) refl

insert_behind :
    (hi a n : ℕ) (xs : List Span) (y : Span) (ys : List Span)
    → a + header_size + n < y.0
    → Spaced (a + header_size + n + 1) hi xs
    → insert_span y ys ≡ xs
    → insert_span y ((a, n) ∷ ys) ≡ (a, n) ∷ xs
unfolding insert_span
insert_behind hi a n xs y ys h sp e = rw (lt→ltb a y.0 (omega arith), e) (join_front xs sp)
  where
    join_front :
        (zs : List Span) → Spaced (a + header_size + n + 1) hi zs → join (a, n) zs ≡ (a, n) ∷ zs
    join_front [] s = refl
    join_front ((b, m) ∷ zs) s = rw (ne→== (a + header_size + n) b (omega arith)) refl

-- A span is the two pieces that it is cut into.
cut_cover :
    (q a s n : ℕ) (c : Bool)
    → s + 24 ≤ n
    → (in_span q (a, n) || c)
      ≡ (in_span q (a, s) || (in_span q (a + header_size + s, n - s - header_size) || c))
cut_cover q a s n c h = ground arith

carve-Carved :
    (lo hi s a n : ℕ) (xs : List Span)
    → s ≤ n
    → Spaced lo hi ((a, n) ∷ xs)
    → Carved lo hi s ((a, n) ∷ xs) (carve s (a, n) xs).0 (carve s (a, n) xs).1
unfolding carve
carve-Carved lo hi s a n xs h sp = elim (Bool-cases (leb (s + header_size + min_alloc_size) n)) [
  | inl e ↦
      let big : s + 24 ≤ n = ground arith in
      rw e (record {
        fits = omega arith;
        tight = omega arith;
        low = sp.0;
        high = omega arith;
        spaced = (
          omega arith,
          omega arith,
          Spaced-weaken (a + header_size + n + 1) _ hi xs (omega arith) sp.2,
        );
        apart = (inr (omega arith), Spaced-Apart _ hi a s xs (omega arith) sp.2);
        bytes = omega arith;
        same_cover = λ q. cut_cover q a s n (covers q xs) big;
        shorter = omega arith;
        room = λ k b. (omega (arith, b.0), Below-weaken k (k + (s + 24)) xs (omega arith) b.1);
        restored = insert_cut a s n xs big;
        aligned = λ p al. (al.0, (omega arith, al.1));
      })
  | inr e ↦ rw e (record {
    fits = h;
    tight = ground arith;
    low = sp.0;
    high = sp.1;
    spaced = Spaced-weaken (a + header_size + n + 1) lo hi xs (omega arith) sp.2;
    apart = Spaced-Apart _ hi a n xs (omega arith) sp.2;
    bytes = refl;
    same_cover = λ q. refl;
    shorter = omega arith;
    room = λ k b. (ground arith, Below-weaken k (k + (s + 24)) xs (omega arith) b);
    restored = insert_front _ hi a n xs (omega arith) sp.2;
    aligned = λ p al. al;
  })
]

skip-eq-some :
    (x : Span) (o : Option (Span × List Span)) (y : Span) (ys : List Span)
    → skip x o ≡ some (y, ys)
    → (zs : List Span) × (o ≡ some (y, zs)) × (ys ≡ x ∷ zs)
unfolding skip
skip-eq-some x none y ys h = cc
skip-eq-some x (some (y', zs)) y ys h = (zs, ground arith, ground arith)

skip-Carved :
    (lo hi s a n : ℕ) (xs : List Span) (y : Span) (ys : List Span)
    → Spaced lo hi ((a, n) ∷ xs)
    → Carved (a + header_size + n + 1) hi s xs y ys
    → Carved lo hi s ((a, n) ∷ xs) y ((a, n) ∷ ys)
skip-Carved lo hi s a n xs y ys sp c = record {
  fits = c.fits;
  tight = c.tight;
  low = omega arith;
  high = c.high;
  spaced = (sp.0, sp.1, c.spaced);
  apart = (inl (omega arith), c.apart);
  bytes = omega arith;
  same_cover = λ q.
      ap (λ t. in_span q (a, n) || t) (c.same_cover q)
      ∙ or_left_comm (in_span q (a, n)) (in_span q y) (covers q ys);
  shorter = omega arith;
  room = λ k b. (omega (arith, b.0), c.room k b.1);
  restored = insert_behind hi a n xs y ys (omega arith) sp.2 c.restored;
  aligned = λ p al. let r = c.aligned p al.1 in (r.0, (al.0, r.1));
}

-- A successful search takes a span that is large enough, by less than a header and
-- `min_alloc_size` too large, and leaves a list that is sorted and coalesced as before, holds
-- exactly the other free bytes, and is aligned if the request is.
pub first_fit-Carved :
    (lo hi s : ℕ) (xs : List Span) (y : Span) (ys : List Span)
    → Spaced lo hi xs
    → first_fit s xs ≡ some (y, ys)
    → Carved lo hi s xs y ys
unfolding first_fit
first_fit-Carved lo hi s [] y ys sp h = cc
first_fit-Carved lo hi s ((a, n) ∷ xs) y ys sp h = elim (Bool-cases (leb s n)) [
  | inl e ↦
      let h' = rw e at h in
      taken (carve s (a, n) xs) (carve-Carved lo hi s a n xs (ground arith) sp) h'
  | inr e ↦
      (let h' = rw e at h in
        let (zs, found, split) = skip-eq-some (a, n) (first_fit s xs) y ys h' in
        rw split (
          skip-Carved lo hi s a n xs y zs sp
            (first_fit-Carved (a + header_size + n + 1) hi s xs y zs sp.2 found)))
]
  where
    taken :
        (r : Span × List Span)
        → Carved lo hi s ((a, n) ∷ xs) r.0 r.1
        → some r ≡ some (y, ys)
        → Carved lo hi s ((a, n) ∷ xs) y ys
    taken r c e =
        let e' : r ≡ (y, ys) = cc in
        subst (λ (t : Span × List Span). Carved lo hi s ((a, n) ∷ xs) t.0 t.1) e' c

skip-eq-none : (x : Span) (o : Option (Span × List Span)) → skip x o ≡ none → o ≡ none
unfolding skip
skip-eq-none x none h = refl
skip-eq-none x (some r) h = cc

-- The search fails only when every span is too small.
pub first_fit-none :
    (s : ℕ) (xs : List Span) → first_fit s xs ≡ none → All (λ (x : Span). x.1 < s) xs
unfolding first_fit
first_fit-none s [] h = tt
first_fit-none s ((a, n) ∷ xs) h = elim (Bool-cases (leb s n)) [
  | inl e ↦ let h' = rw e at h in cc
  | inr e ↦
      (let h' = rw e at h in
        (ground arith, first_fit-none s xs (skip-eq-none (a, n) (first_fit s xs) h')))
]
