-- ===== src/Memory/Copy.antt =====
-- `memmove` copies between ranges that may overlap, `memcpy` between ranges that do not.
use binbows_dos.Common.{ℕ, zero, suc, ◌+◌, ◌-◌, ◌≤◌, ◌≡◌, ◌⊎◌, ◌&&◌, arith, leb, ltb, if◌then◌else◌}
use binbows_dos.Memory.{Memory, write, copy_up, copy_down, memcpy, memmove}

-- What a copy of `n` bytes leaves at the address `q`.
abbrev pub copied : (dest src n : ℕ) → Memory → Memory
copied dest src n m q = if leb dest q && ltb q (dest + n) then m (src + (q - dest)) else m q

-- Upwards the source byte is not yet overwritten, if the destination lies below or clear above.
copy_up_lem :
    (left i dest src : ℕ) (m : Memory) (q : ℕ)
    → (dest ≤ src) ⊎ (src + i + left ≤ dest)
    → copy_up left i dest src m q
      ≡ (if leb (dest + i) q && ltb q (dest + i + left) then m (src + (q - dest)) else m q)
unfolding copy_up write
copy_up_lem zero i dest src m q h = ground arith
copy_up_lem (suc left) i dest src m q h =
    ground (arith, copy_up_lem left (i + 1) dest src (write (dest + i) (m (src + i)) m) q)

copy_down_lem :
    (n dest src : ℕ) (m : Memory) (q : ℕ)
    → src ≤ dest
    → copy_down n dest src m q ≡ copied dest src n m q
unfolding copy_down write
copy_down_lem zero dest src m q h = ground arith
copy_down_lem (suc n) dest src m q h =
    ground (arith, copy_down_lem n dest src (write (dest + n) (m (src + n)) m) q)

-- Wherever the two ranges lie, `memmove` leaves the source's old bytes in the destination, and
-- every other byte as it was.
pub memmove_lem :
    (dest src n : ℕ) (m : Memory) (q : ℕ) → memmove dest src n m q ≡ copied dest src n m q
unfolding memmove
memmove_lem dest src n m q =
    ground (arith, copy_up_lem n 0 dest src m q, copy_down_lem n dest src m q)

-- Where the two ranges do not overlap, `memcpy` does what `memmove` does.
memcpy-memmove :
    (dest src n : ℕ) (m : Memory) (q : ℕ)
    → (dest + n ≤ src) ⊎ (src + n ≤ dest)
    → memcpy dest src n m q ≡ memmove dest src n m q
unfolding memcpy
memcpy-memmove dest src n m q h =
    ground (arith, copy_up_lem n 0 dest src m q, memmove_lem dest src n m q)
