-- ===== src/Common/Bits.antt =====
-- `&` and `|` at variables: masks and disjoint fields as arithmetic, at every width.
use Prim.Native.Nat.{
  ℕ, zero, suc, ◌+◌, ◌-◌, ◌*◌, ◌/◌, ◌%◌, ◌^◌, ◌≤◌, ◌<◌, min, max, digits, bitwise, bit_and, bit_or,
  bit_and-bitwise, bit_or-bitwise,
}
use mathlib.Core.Path.{◌≡◌, refl, ap, sym}
use mathlib.Core.Logic.{inl, inr}
use binbows_dos.Common.Tests.{◌==◌, ==_iff, Bool-cases}
use native.Mathlib.Nat.{pow-suc, one-le-pow, div-add-mod', mod-lt}
use native.Mathlib.Omega.{arith}

-- `bit_and` and `bit_or` mean `digits`, a recursion on the first operand's binary digits with
-- fuel; `top` is what is left of the second when the first has run out.
module _ (top : ℕ → ℕ) (digit : ℕ → ℕ → ℕ) where
  digits-zero : (fuel y : ℕ) → digits top digit fuel 0 y ≡ top y
  digits-zero zero y = refl
  digits-zero (suc fuel) y = refl

  -- All fuel from the first operand on gives the same.
  enough_digits :
      (fuel x y fuel' : ℕ)
      → x ≤ fuel
      → x ≤ fuel'
      → digits top digit fuel x y ≡ digits top digit fuel' x y
  enough_digits zero x y fuel' h h' =
      let e : x ≡ 0 = omega arith in rw e (sym (digits-zero fuel' y))
  enough_digits (suc fuel) zero y fuel' h h' = sym (digits-zero fuel' y)
  enough_digits (suc fuel) (suc x) y zero h h' = absurd (omega arith)
  enough_digits (suc fuel) (suc x) y (suc fuel') h h' =
      ap (λ t. t * 2 + digit (suc x % 2) (y % 2))
        (enough_digits fuel (suc x / 2) (y / 2) fuel' (omega arith) (omega arith))

  lowest_digit :
      (x y : ℕ)
      → bitwise top digit (suc x) y
        ≡ bitwise top digit (suc x / 2) (y / 2) * 2 + digit (suc x % 2) (y % 2)
  lowest_digit x y =
      ap (λ t. t * 2 + digit (suc x % 2) (y % 2))
        (enough_digits x (suc x / 2) (y / 2) (suc x / 2) (omega arith) (omega arith))

-- The lowest digit of a disjunction and of a conjunction.
pub bit_or_step : (x y : ℕ) → bit_or x y ≡ bit_or (x / 2) (y / 2) * 2 + max (x % 2) (y % 2)
bit_or_step zero y = omega (arith, bit_or-bitwise 0 y, bit_or-bitwise 0 (y / 2))
bit_or_step (suc x) y =
    rw (bit_or-bitwise (suc x) y, bit_or-bitwise (suc x / 2) (y / 2))
      (lowest_digit (λ t. t) max x y)

pub bit_and_step : (x y : ℕ) → bit_and x y ≡ bit_and (x / 2) (y / 2) * 2 + min (x % 2) (y % 2)
bit_and_step zero y = omega (arith, bit_and-bitwise 0 y, bit_and-bitwise 0 (y / 2))
bit_and_step (suc x) y =
    rw (bit_and-bitwise (suc x) y, bit_and-bitwise (suc x / 2) (y / 2))
      (lowest_digit (λ t. 0) min x y)

-- A bound on the operand is the fuel of an induction on its digits.
bit_and-zero_below : (bound x : ℕ) → x ≤ bound → bit_and x 0 ≡ 0
bit_and-zero_below zero x h = let e : x ≡ 0 = omega arith in rw e refl
bit_and-zero_below (suc bound) x h = elim (Bool-cases (x == 0)) [
  | inl e ↦ rw ((==_iff x 0).0 e) refl
  | inr e ↦ ground (arith, bit_and_step x 0, bit_and-zero_below bound (x / 2) (ground arith))
]

pub bit_and-zero : (x : ℕ) → bit_and x 0 ≡ 0
bit_and-zero x = bit_and-zero_below x x (omega arith)

bit_or-zero_below : (bound x : ℕ) → x ≤ bound → bit_or x 0 ≡ x
bit_or-zero_below zero x h = let e : x ≡ 0 = omega arith in rw e refl
bit_or-zero_below (suc bound) x h = elim (Bool-cases (x == 0)) [
  | inl e ↦ rw ((==_iff x 0).0 e) refl
  | inr e ↦ ground (arith, bit_or_step x 0, bit_or-zero_below bound (x / 2) (ground arith))
]

pub bit_or-zero : (x : ℕ) → bit_or x 0 ≡ x
bit_or-zero x = bit_or-zero_below x x (omega arith)

mul-pow-suc : (q k : ℕ) → q * 2 ^ suc k ≡ 2 * (q * 2 ^ k)
mul-pow-suc q k = omega (arith, ap (λ (t : ℕ). q * t) (pow-suc 2 k))

-- Below the mask's lowest one nothing is kept.
pub bit_and_shifted :
    (k q r m : ℕ) → r < 2 ^ k → bit_and (q * 2 ^ k + r) (m * 2 ^ k) ≡ bit_and q m * 2 ^ k
bit_and_shifted zero q r m h = ground arith
bit_and_shifted (suc k) q r m h = ground (
  arith,
  bit_and_step (q * 2 ^ suc k + r) (m * 2 ^ suc k),
  mul-pow-suc q k,
  mul-pow-suc m k,
  mul-pow-suc (bit_and q m) k,
  pow-suc 2 k,
  bit_and_shifted k q (r / 2) m (omega (arith, pow-suc 2 k)),
)

-- Two fields that do not overlap are joined by a sum.
pub bit_or_fields : (k q r : ℕ) → r < 2 ^ k → bit_or (q * 2 ^ k) r ≡ q * 2 ^ k + r
bit_or_fields zero q r h = ground (arith, bit_or-zero q)
bit_or_fields (suc k) q r h = ground (
  arith,
  bit_or_step (q * 2 ^ suc k) r,
  mul-pow-suc q k,
  pow-suc 2 k,
  bit_or_fields k q (r / 2) (omega (arith, pow-suc 2 k)),
)

-- A mask of `k` ones drops what stands above.
bit_and_low : (k q r : ℕ) → r < 2 ^ k → bit_and (q * 2 ^ k + r) (2 ^ k - 1) ≡ r
bit_and_low zero q r h = ground (arith, bit_and-zero (q * 1 + r))
bit_and_low (suc k) q r h = ground (
  arith,
  bit_and_step (q * 2 ^ suc k + r) (2 ^ suc k - 1),
  mul-pow-suc q k,
  pow-suc 2 k,
  bit_and_low k q (r / 2) (omega (arith, pow-suc 2 k)),
)

-- A mask of `k` ones is the remainder by `2 ^ k`.
pub bit_and_mask : (k a : ℕ) → bit_and a (2 ^ k - 1) ≡ a % 2 ^ k
bit_and_mask k a =
    let pos : 1 ≤ 2 ^ k = one-le-pow k 2 (omega arith) in
    rw (← div-add-mod' a (2 ^ k))
      (ground (arith, bit_and_low k (a / 2 ^ k) (a % 2 ^ k) (mod-lt a pos), div-add-mod' a (2 ^ k)))

bit_or_comm_below : (bound x y : ℕ) → x ≤ bound → bit_or x y ≡ bit_or y x
bit_or_comm_below zero x y h =
    let e : x ≡ 0 = omega arith in rw e (omega (arith, bit_or-bitwise 0 y, bit_or-zero y))
bit_or_comm_below (suc bound) x y h = elim (Bool-cases (x == 0)) [
  | inl e ↦ rw ((==_iff x 0).0 e) (omega (arith, bit_or-bitwise 0 y, bit_or-zero y))
  | inr e ↦ ground (
    arith,
    bit_or_step x y,
    bit_or_step y x,
    bit_or_comm_below bound (x / 2) (y / 2) (ground arith),
  )
]

pub bit_or_comm : (x y : ℕ) → bit_or x y ≡ bit_or y x
bit_or_comm x y = bit_or_comm_below x x y (omega arith)
