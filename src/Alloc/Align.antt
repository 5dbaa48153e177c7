-- ===== src/Alloc/Align.antt =====
-- `align_up` and the size that `kmalloc` looks for, as arithmetic.
use binbows_dos.Common.{ℕ, ◌+◌, ◌-◌, ◌*◌, ◌/◌, ◌%◌, ◌^◌, ◌≤◌, ◌<◌, ◌≡◌, bit_and, arith}
use binbows_dos.Common.Bits.{bit_and_shifted, bit_and_mask}
use binbows_dos.Alloc.{align_up, request, align_size}

-- The mask of `align_up` by 8 rounds a word down to a multiple of 8.
bit_and_align : (x : ℕ) → x < 2 ^ 32 → bit_and x 0xffff_fff8 ≡ x / 8 * 8
bit_and_align x h =
    let e : x / 8 * 2 ^ 3 + x % 8 ≡ x = omega arith in
    rw (← e) (
      omega (
        arith,
        bit_and_shifted 3 (x / 8) (x % 8) (2 ^ 29 - 1) (omega arith),
        bit_and_mask 29 (x / 8),
      ))

pub align_up_eight : (size : ℕ) → align_up size align_size ≡ (size + 7) % 2 ^ 32 / 8 * 8
unfolding align_up
align_up_eight size =
    omega (arith, bit_and_align (((size + 8) % 2 ^ 32 + 2 ^ 32 - 1) % 2 ^ 32) (omega arith))

-- Away from the wrap at 2 ^ 32, `kmalloc` looks for the least multiple of 8 that is at least 16
-- and holds the size asked for.
pub request_bounds :
    (size : ℕ)
    → size ≤ 2 ^ 32 - 8
    → (size ≤ request size)
      × (16 ≤ request size)
      × (request size % 8 ≡ 0)
      × ((n : ℕ) → size ≤ n → 16 ≤ n → n % 8 ≡ 0 → request size ≤ n)
unfolding request
request_bounds size h = (
  ground (arith, align_up_eight size),
  ground (arith, align_up_eight size),
  ground (arith, align_up_eight size),
  λ n a b c. ground (arith, align_up_eight size),
)

-- Within 7 of the top of `size_t` the rounding wraps, and a block of 16 bytes is looked for.
pub request_wraps : (size : ℕ) → 2 ^ 32 - 8 < size → size < 2 ^ 32 → request size ≡ 16
unfolding request
request_wraps size lo hi = ground (arith, align_up_eight size)

pub request_lem :
    (size : ℕ) → (16 ≤ request size) × (request size % 8 ≡ 0) × (request size < 2 ^ 32)
unfolding request
request_lem size = (
  ground (arith, align_up_eight size),
  ground (arith, align_up_eight size),
  ground (arith, align_up_eight size),
)
