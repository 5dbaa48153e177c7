-- ===== src/Elixir/Superblock.antt =====
-- `create_super` on a drive that is large enough: what it puts into its block.
use binbows_dos.Common.{ℕ, ◌+◌, ◌/◌, ◌%◌, ◌<◌, ◌≤◌, ◌≡◌, refl, ◌∙◌, ◌⊎◌, some, arith}
use binbows_dos.Memory.{Memory, IsBytes, write, store32, memset}
use binbows_dos.Memory.Fill.{memset_lem}
use binbows_dos.Memory.Words.{store32-apart, write-apart}
use binbows_dos.Alloc.{State}
use binbows_dos.Alloc.Bytes.{store32-IsBytes, memset-IsBytes}
use binbows_dos.Elixir.{
  SuperBlock, store16, store_super, super_fields, sectors_per_block, super_block_size, fill_super,
}

-- The first 512 bytes from `sb` on are those of `m'`.
unfoldable pub Shifted : ℕ → Memory → Memory → Type 0
Shifted sb m m' = (j : ℕ) → j < super_block_size → m (sb + j) ≡ m' j

write-Shifted :
    (sb a v : ℕ) (m m' : Memory) → Shifted sb m m' → Shifted sb (write (sb + a) v m) (write a v m')
unfolding Shifted write
write-Shifted sb a v m m' h j few = ground (arith, h j few)

store16-Shifted :
    (sb b a v : ℕ) (m m' : Memory)
    → b ≡ sb + a
    → Shifted sb m m'
    → Shifted sb (store16 b v m) (store16 a v m')
unfolding Shifted store16 write
store16-Shifted sb b a v m m' e h j few = ground (arith, h j few)

store32-Shifted :
    (sb a v : ℕ) (m m' : Memory)
    → Shifted sb m m'
    → Shifted sb (store32 (sb + a) v m) (store32 a v m')
unfolding Shifted store32
store32-Shifted sb a v m m' h j few = ground (arith, h j few)

store_super-Shifted :
    (sb : ℕ) (f : SuperBlock) (m m' : Memory)
    → Shifted sb m m'
    → Shifted sb (store_super sb f m) (store_super 0 f m')
unfolding store_super
store_super-Shifted sb f m m' h = write-Shifted sb 37 _ _ _ (
    write-Shifted sb 36 _ _ _ (
      store32-Shifted sb 12 _ _ _ (
        store32-Shifted sb 16 _ _ _ (
          store32-Shifted sb 2 _ _ _ (
            store32-Shifted sb 32 _ _ _ (
              store32-Shifted sb 28 _ _ _ (
                store32-Shifted sb 24 _ _ _ (
                  store32-Shifted sb 20 _ _ _ (
                    store32-Shifted sb 8 _ _ _ (
                      store16-Shifted sb (sb + 6) 6 _ _ _ refl
                        (store16-Shifted sb sb 0 _ _ _ (omega arith) h)))))))))))

store16-apart : (a q v : ℕ) (m : Memory) → (q < a) ⊎ (a + 2 ≤ q) → store16 a v m q ≡ m q
unfolding store16 write
store16-apart a q v m h = ground arith

store_super-apart :
    (sb q : ℕ) (f : SuperBlock) (m : Memory)
    → (q < sb) ⊎ (sb + 512 ≤ q)
    → store_super sb f m q ≡ m q
unfolding store_super
store_super-apart sb q f m h =
    write-apart (sb + 37) q _ _ (λ e. omega arith)
    ∙ write-apart (sb + 36) q _ _ (λ e. omega arith)
    ∙ store32-apart (sb + 12) q _ _ (omega arith)
    ∙ store32-apart (sb + 16) q _ _ (omega arith)
    ∙ store32-apart (sb + 2) q _ _ (omega arith)
    ∙ store32-apart (sb + 32) q _ _ (omega arith)
    ∙ store32-apart (sb + 28) q _ _ (omega arith)
    ∙ store32-apart (sb + 24) q _ _ (omega arith)
    ∙ store32-apart (sb + 20) q _ _ (omega arith)
    ∙ store32-apart (sb + 8) q _ _ (omega arith)
    ∙ store16-apart (sb + 6) q _ _ (omega arith)
    ∙ store16-apart sb q _ m (omega arith)

write-IsBytes : (a v : ℕ) (m : Memory) → IsBytes m → IsBytes (write a (v % 256) m)
unfolding write
write-IsBytes a v m h q = ground (arith, h q)

store16-IsBytes : (a v : ℕ) (m : Memory) → IsBytes m → IsBytes (store16 a v m)
unfolding store16
store16-IsBytes a v m h = write-IsBytes (a + 1) (v / 256) _ (write-IsBytes a v m h)

store_super-IsBytes :
    (sb : ℕ) (f : SuperBlock) (m : Memory) → IsBytes m → IsBytes (store_super sb f m)
unfolding store_super
store_super-IsBytes sb f m h = write-IsBytes _ _ _ (
    write-IsBytes _ _ _ (
      store32-IsBytes _ _ _ (
        store32-IsBytes _ _ _ (
          store32-IsBytes _ _ _ (
            store32-IsBytes _ _ _ (
              store32-IsBytes _ _ _ (
                store32-IsBytes _ _ _ (
                  store32-IsBytes _ _ _ (
                    store32-IsBytes _ _ _ (store16-IsBytes _ _ _ (store16-IsBytes _ _ _ h)))))))))))

-- The bytes of the structure of a drive with blocks of `per_block` sectors.
abbrev pub super_bytes : ℕ → ℕ → Memory
super_bytes size per_block = store_super 0 (super_fields size per_block) (λ q. 0)

-- What `create_super` leaves: the block holds the structure's bytes, and nothing else has changed.
pub record SuperMade (size per_block sb : ℕ) (m m' : Memory) : Type 0 where
  pub bytes : Shifted sb m' (super_bytes size per_block)
  pub spared : (q : ℕ) → (q < sb) ⊎ (sb + 512 ≤ q) → m' q ≡ m q
  pub kept_bytes : IsBytes m → IsBytes m'

pub fill_super-SuperMade :
    (size per_block sb : ℕ) (s : State)
    → sectors_per_block size ≡ some per_block
    → (m' : Memory) × (fill_super size sb s ≡ (sb, record s { mem = m' }))
      × SuperMade size per_block sb s.mem m'
unfolding fill_super Shifted
fill_super-SuperMade size per_block sb s e =
    let m1 = memset sb 0 super_block_size s.mem in
    (
      store_super sb (super_fields size per_block) m1,
      rw (fill_super, e) refl,
      record {
        bytes =
            store_super-Shifted sb (super_fields size per_block) m1 (λ q. 0)
              (λ j few. ground (arith, memset_lem sb 0 super_block_size s.mem (sb + j)));
        spared = λ q o.
            store_super-apart sb q (super_fields size per_block) m1 o
            ∙ ground (arith, memset_lem sb 0 super_block_size s.mem q);
        kept_bytes =
            λ h. store_super-IsBytes sb _ m1 (memset-IsBytes sb 0 super_block_size s.mem h);
      },
    )
