-- ===== src/Memory/Words.antt =====
-- A 32-bit field reads back what was stored, and keeps its value under writes beside it.
use binbows_dos.Common.{ℕ, ◌+◌, ◌≤◌, ◌<◌, ◌^◌, ◌≡◌, ◌⊎◌, ◌≢◌, arith}
use binbows_dos.Memory.{Memory, write, load32, store32}

pub write_self : (a v : ℕ) (m : Memory) → write a v m a ≡ v
unfolding write
write_self a v m = ground arith

pub write-apart : (a q v : ℕ) (m : Memory) → a ≢ q → write a v m q ≡ m q
unfolding write
write-apart a q v m h = ground arith

pub store32-apart : (a q v : ℕ) (m : Memory) → (q < a) ⊎ (a + 4 ≤ q) → store32 a v m q ≡ m q
unfolding store32
store32-apart a q v m h = ground arith

pub load32-store32 : (a v : ℕ) (m : Memory) → v < 2 ^ 32 → load32 (store32 a v m) a ≡ v
unfolding load32 store32
load32-store32 a v m h = ground arith

-- Equal bytes give equal fields.
pub load32-same :
    (a : ℕ) (m m' : Memory) → ((q : ℕ) → a ≤ q → q < a + 4 → m' q ≡ m q) → load32 m' a ≡ load32 m a
unfolding load32
load32-same a m m' same = ground (arith, same a, same (a + 1), same (a + 2), same (a + 3))

pub load32-store32_apart :
    (a b v : ℕ) (m : Memory) → (a + 4 ≤ b) ⊎ (b + 4 ≤ a) → load32 (store32 a v m) b ≡ load32 m b
load32-store32_apart a b v m h =
    load32-same b m (store32 a v m) λ q lo hi. store32-apart a q v m (omega arith)
