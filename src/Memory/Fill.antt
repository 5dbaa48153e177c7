-- ===== src/Memory/Fill.antt =====
-- `memset` and `memset_page` set exactly the bytes of their range.
use binbows_dos.Common.{ℕ, zero, suc, ◌+◌, ◌%◌, ◌≡◌, ◌&&◌, arith, leb, ltb, if◌then◌else◌}
use binbows_dos.Memory.{Memory, write, fill_loop, memset, memset_page}

fill_loop_lem :
    (left i p value : ℕ) (m : Memory) (q : ℕ)
    → fill_loop left i p value m q
      ≡ (if leb (p + i) q && ltb q (p + i + left) then value % 256 else m q)
unfolding fill_loop write
fill_loop_lem zero i p value m q = ground arith
fill_loop_lem (suc left) i p value m q =
    ground (arith, fill_loop_lem left (i + 1) p value (write (p + i) (value % 256) m) q)

-- After `memset s c n` the bytes from `s` up to `s + n` hold `c` cut to a byte, and no other byte
-- has changed.
pub memset_lem :
    (s c n : ℕ) (m : Memory) (q : ℕ)
    → memset s c n m q ≡ (if leb s q && ltb q (s + n) then c % 256 else m q)
unfolding memset
memset_lem s c n m q = ground (arith, fill_loop_lem n 0 s c m q)

pub memset_page_lem :
    (s c n : ℕ) (m : Memory) (q : ℕ)
    → memset_page s c n m q ≡ (if leb s q && ltb q (s + n) then c % 256 else m q)
unfolding memset_page
memset_page_lem s c n m q = ground (arith, fill_loop_lem n 0 s c m q)
