-- ===== src/Memory.antt =====
-- Byte memory, and `memset_page`, `memcpy`, `memset`, `memmove` and `memcmp` of src/mem.c.
-- A memory gives each address its byte; a `size_t` field or a pointer is four bytes, the low one
-- first (-m32). Each `for` loop is a recursion on the rounds left, with its index `i`.
pub mod Words
pub mod Fill
pub mod Copy
pub mod Compare
mod Tests
use binbows_dos.Common.{
  ℕ, ◌<◌, zero, suc, ◌+◌, ◌*◌, ◌/◌, ◌%◌, ltb, ◌==◌, if◌then◌else◌, true, false,
}
use binbows_dos.Common.Int.{ℤ, pos, negsuc}

abbrev pub Memory : Type 0
Memory = ℕ → ℕ

-- Each address holds a byte.
abbrev pub IsBytes : Memory → Type 0
IsBytes m = (q : ℕ) → m q < 256

-- `*p = v` of a byte `v` at the address `a`.
unfoldable pub write : ℕ → ℕ → Memory → Memory
write a v m q = if a == q then v else m q

-- A read of a 32-bit field at `a`.
unfoldable pub load32 : Memory → ℕ → ℕ
load32 m a = m a + m (a + 1) * 0x100 + m (a + 2) * 0x1_0000 + m (a + 3) * 0x100_0000

-- A write of a 32-bit field at `a`.
unfoldable pub store32 : ℕ → ℕ → Memory → Memory
unfolding write
store32 a v m =
    write (a + 3) (v / 0x100_0000 % 256)
      (write (a + 2) (v / 0x1_0000 % 256) (write (a + 1) (v / 0x100 % 256) (write a (v % 256) m)))

-- The loop of `memset` and `memset_page` at index `i`, with the cast of the value to `uint8_t`.
fill_loop : ℕ → ℕ → ℕ → ℕ → Memory → Memory
fill_loop zero i p value m = m
fill_loop (suc left) i p value m = fill_loop left (i + 1) p value (write (p + i) (value % 256) m)

-- The C function returns `s` beside the effect.
unfoldable pub memset : ℕ → ℕ → ℕ → Memory → Memory
unfolding fill_loop write
memset s c n m = fill_loop n 0 s c m

unfoldable pub memset_page : ℕ → ℕ → ℕ → Memory → Memory
unfolding fill_loop write
memset_page ptr value size m = fill_loop size 0 ptr value m

-- The ascending loop of `memcpy` and `memmove` at index `i`.
copy_up : ℕ → ℕ → ℕ → ℕ → Memory → Memory
copy_up zero i dest src m = m
copy_up (suc left) i dest src m = copy_up left (i + 1) dest src (write (dest + i) (m (src + i)) m)

-- The descending loop of `memmove`: `i` is the rounds left, and index `i - 1` is copied.
copy_down : ℕ → ℕ → ℕ → Memory → Memory
copy_down zero dest src m = m
copy_down (suc i) dest src m = copy_down i dest src (write (dest + i) (m (src + i)) m)

unfoldable pub memcpy : ℕ → ℕ → ℕ → Memory → Memory
unfolding copy_up write
memcpy dest src n m = copy_up n 0 dest src m

unfoldable pub memmove : ℕ → ℕ → ℕ → Memory → Memory
unfolding copy_up copy_down write
memmove dest src n m =
    if ltb dest src
    then copy_up n 0 dest src m
    else (if ltb src dest then copy_down n dest src m else m)

-- The loop of `memcmp` at index `i`; `negsuc 0` is -1.
compare_loop : ℕ → ℕ → ℕ → ℕ → Memory → ℤ
compare_loop zero i s1 s2 m = pos 0
compare_loop (suc left) i s1 s2 m =
    let rest = compare_loop left (i + 1) s1 s2 m in
    if m (s1 + i) == m (s2 + i)
    then rest
    else (if ltb (m (s1 + i)) (m (s2 + i)) then negsuc 0 else pos 1)

unfoldable pub memcmp : ℕ → ℕ → ℕ → Memory → ℤ
unfolding compare_loop
memcmp s1 s2 n m = compare_loop n 0 s1 s2 m
