-- ===== src/Memory/Compare.antt =====
-- `memcmp` orders two ranges by their first difference.
use binbows_dos.Common.{
  ℕ, zero, suc, ◌+◌, ◌<◌, ◌≡◌, refl, inl, inr, arith, ltb, ◌==◌, Bool-cases, ==_iff,
}
use binbows_dos.Common.Int.{ℤ, pos, negsuc}
use binbows_dos.Memory.{Memory, compare_loop, memcmp}

-- The ranges agree below the index `i`.
abbrev pub Agree : ℕ → ℕ → ℕ → Memory → Type 0
Agree s1 s2 i m = (j : ℕ) → j < i → m (s1 + j) ≡ m (s2 + j)

-- The result `r` of comparing `n` bytes: 0 for equal ranges, else -1 or 1 by the first difference.
pub data Compared (s1 s2 n : ℕ) (m : Memory) (r : ℤ) : Type 0 where
  same : Agree s1 s2 n m → r ≡ pos 0 → Compared s1 s2 n m r
  below :
      (i : ℕ)
      → i < n
      → Agree s1 s2 i m
      → m (s1 + i) < m (s2 + i)
      → r ≡ negsuc 0
      → Compared s1 s2 n m r
  above :
      (i : ℕ) → i < n → Agree s1 s2 i m → m (s2 + i) < m (s1 + i) → r ≡ pos 1 → Compared s1 s2 n m r

Agree-next :
    (s1 s2 i : ℕ) (m : Memory) → Agree s1 s2 i m → m (s1 + i) ≡ m (s2 + i) → Agree s1 s2 (i + 1) m
Agree-next s1 s2 i m old new j h = ground (arith, old j)

compare_loop-Compared :
    (left i s1 s2 : ℕ) (m : Memory) (n : ℕ)
    → i + left ≡ n
    → Agree s1 s2 i m
    → Compared s1 s2 n m (compare_loop left i s1 s2 m)
unfolding compare_loop
compare_loop-Compared zero i s1 s2 m n e h = same (λ j l. h j (omega arith)) refl
compare_loop-Compared (suc left) i s1 s2 m n e h = elim (Bool-cases (m (s1 + i) == m (s2 + i))) [
  | inl eq ↦ rw eq (
      compare_loop-Compared left (i + 1) s1 s2 m n (omega arith)
        (Agree-next s1 s2 i m h ((==_iff _ _).0 eq)))
  | inr ne ↦ rw ne (elim (Bool-cases (ltb (m (s1 + i)) (m (s2 + i)))) [
    | inl lt ↦ rw lt (below i (omega arith) h (ground arith) refl)
    | inr ge ↦ rw ge (above i (omega arith) h (ground arith) refl)
  ])
]

-- `memcmp` returns 0 when the `n` bytes agree, and otherwise -1 or 1 as the first byte that
-- differs is smaller in the first range or in the second.
pub memcmp-Compared : (s1 s2 n : ℕ) (m : Memory) → Compared s1 s2 n m (memcmp s1 s2 n m)
unfolding memcmp
memcmp-Compared s1 s2 n m = compare_loop-Compared n 0 s1 s2 m n (omega arith) (λ j h. elim h [ ])
