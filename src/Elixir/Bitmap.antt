-- ===== src/Elixir/Bitmap.antt =====
-- What the count over a bitmap counts.
use binbows_dos.Common.{
  ℕ, zero, suc, ◌+◌, ◌*◌, ◌/◌, ◌%◌, ◌^◌, ◌<◌, ◌≤◌, ◌≡◌, refl, bit_and, arith, ◌==◌, if◌then◌else◌,
  ap, ◌∙◌, sym, ◌⊎◌, inl, inr, Bool, true, false, Bool-cases, ==_iff, ne→==,
}
use native.Mathlib.Nat.{div-add-mod', mod-lt, one-le-pow}
use binbows_dos.Common.Bits.{bit_and_mask, bit_and_shifted}
use binbows_dos.Elixir.{is_used, count_loop}

-- The bit of sector `i`: 0 or 1.
unfoldable pub sector_bit : (ℕ → ℕ) → ℕ → ℕ
sector_bit bitmap i = bitmap (i / 8) / 2 ^ (i % 8) % 2

-- The sectors from `i` on, `n` of them, whose bit is set.
unfoldable pub used_sectors : ℕ → ℕ → (ℕ → ℕ) → ℕ
used_sectors zero i bitmap = 0
used_sectors (suc n) i bitmap = sector_bit bitmap i + used_sectors n (i + 1) bitmap

is_used_lem : (bitmap : ℕ → ℕ) (i : ℕ) → is_used bitmap i ≡ sector_bit bitmap i * 2 ^ (i % 8)
unfolding is_used sector_bit
is_used_lem bitmap i =
    let k : ℕ = i % 8 in
    let byte : ℕ = bitmap (i / 8) in
    let pos : 1 ≤ 2 ^ k = one-le-pow k 2 (omega arith) in
    let one_mul : 2 ^ k ≡ 1 * 2 ^ k = omega arith in
    ap (λ b. bit_and b (2 ^ k)) (sym (div-add-mod' byte (2 ^ k)))
    ∙ ap (bit_and (byte / 2 ^ k * 2 ^ k + byte % 2 ^ k)) one_mul
    ∙ bit_and_shifted k (byte / 2 ^ k) (byte % 2 ^ k) 1 (mod-lt byte pos)
    ∙ ap (λ (t : ℕ). t * 2 ^ k) (bit_and_mask 1 (byte / 2 ^ k))

-- One sector counts by its bit.
used_bit : (bitmap : ℕ → ℕ) (i : ℕ) → (if is_used bitmap i == 0 then 0 else 1) ≡ sector_bit bitmap i
used_bit bitmap i =
    let pos : 1 ≤ 2 ^ (i % 8) = one-le-pow (i % 8) 2 (omega arith) in
    elim (two (sector_bit bitmap i) (small i)) [
      | inl e ↦
          let unused : is_used bitmap i ≡ 0 =
            is_used_lem bitmap i ∙ ap (λ (t : ℕ). t * 2 ^ (i % 8)) e ∙ omega arith in
          rw (unused, e) refl
      | inr e ↦
          let used : is_used bitmap i ≡ 2 ^ (i % 8) =
            is_used_lem bitmap i ∙ ap (λ (t : ℕ). t * 2 ^ (i % 8)) e ∙ omega arith in
          rw (used, e, ne→== (2 ^ (i % 8)) 0 (λ z. omega arith)) refl
    ]
  where
    two : (b : ℕ) → b < 2 → (b ≡ 0) ⊎ (b ≡ 1)
    two b h = elim (Bool-cases (b == 0)) [
      | inl e ↦ inl ((==_iff b 0).0 e)
      | inr e ↦ inr (ground arith)
    ]

    small : (j : ℕ) → sector_bit bitmap j < 2
    small j = unfold sector_bit in omega arith

-- One round of the count adds the bit to `used`, and the rest of 1 to `free`.
round_counts :
    (b : Bool) (used free : ℕ)
    → ◌≡◌ {A = ℕ × ℕ}
        (if b then (used, free + 1) else (used + 1, free))
        (used + (if b then 0 else 1), free + (if b then 1 else 0))
round_counts true used free = ap (λ u. (u, free + 1)) (omega arith)
round_counts false used free = ap (λ f. (used + 1, f)) (omega arith)

count_loop_round :
    (left i : ℕ) (bitmap : ℕ → ℕ) (used free : ℕ)
    → count_loop (suc left) i bitmap (used, free)
      ≡ count_loop left (i + 1) bitmap (
        used + (if is_used bitmap i == 0 then 0 else 1),
        free + (if is_used bitmap i == 0 then 1 else 0),
      )
unfolding count_loop
count_loop_round left i bitmap used free =
    ap (count_loop left (i + 1) bitmap) (round_counts (is_used bitmap i == 0) used free)

one_sector : (b : Bool) → (if b then 0 else 1) + (if b then 1 else 0) ≡ 1
one_sector true = refl
one_sector false = refl

count_loop_from :
    (left i : ℕ) (bitmap : ℕ → ℕ) (used free : ℕ)
    → ((count_loop left i bitmap (used, free)).0 ≡ used + used_sectors left i bitmap)
      × ((count_loop left i bitmap (used, free)).0 + (count_loop left i bitmap (used, free)).1
          ≡ used + free + left)
unfolding used_sectors
count_loop_from zero i bitmap used free = unfold count_loop in (omega arith, omega arith)
count_loop_from (suc left) i bitmap used free =
    let unused : Bool = is_used bitmap i == 0 in
    let rest =
      count_loop_from left (i + 1) bitmap (used + (if unused then 0 else 1))
        (free + (if unused then 1 else 0)) in
    rw (count_loop_round left i bitmap used free)
      (omega (arith, rest.0, used_bit bitmap i), omega (arith, rest.1, one_sector unused))

-- The count over `size` sectors gives the number of those whose bit is set, and with the free ones all
-- sectors.
pub count_loop_lem :
    (size : ℕ) (bitmap : ℕ → ℕ)
    → ((count_loop size 0 bitmap (0, 0)).0 ≡ used_sectors size 0 bitmap)
      × ((count_loop size 0 bitmap (0, 0)).0 + (count_loop size 0 bitmap (0, 0)).1 ≡ size)
count_loop_lem size bitmap =
    let counts = count_loop_from size 0 bitmap 0 0 in
    (omega (arith, counts.0), omega (arith, counts.1))
