-- ===== src/Ide/NextFree/Scan.antt =====
-- `find_next_free_lba` on a drive that follows the interface.
use binbows_dos.Common.{ℕ, ◌+◌, ◌-◌, ◌*◌, ◌<◌, ◌≤◌, ◌≡◌, ◌⊎◌, Bool, true, false}
use binbows_dos.Memory.{Memory}
use binbows_dos.Ide.Ata.{Ata}
use binbows_dos.Ide.Read.{disk_byte}
use binbows_dos.Ide.NextFree.{uint32_max}

-- All bytes of a sector are 0.
unfoldable pub Zero : (ℕ → ℕ) → ℕ → Type 0
Zero words lba = (j : ℕ) → j < 512 → disk_byte words (lba * 512 + j) ≡ 0

-- What the scan knows of the sectors below `lba`.
Scanned : (ℕ → ℕ) → ℕ → Bool → ℕ → Type 0
Scanned words lba false last = (l : ℕ) → l < lba → Zero words l
Scanned words lba true last =
    (last < lba) × (¬ Zero words last) × ((l : ℕ) → last < l → l < lba → Zero words l)

-- The sectors from `n` on are clear and the one before is not; or the last sector is not clear.
unfoldable pub NextFree : (ℕ → ℕ) → ℕ → ℕ → Type 0
NextFree words size n =
    ((n < size) × ((l : ℕ) → n ≤ l → l < size → Zero words l) × ((n ≡ 0) ⊎ (¬ Zero words (n - 1))))
    ⊎ ((n ≡ uint32_max) × (¬ Zero words (size - 1)))

-- The ends of the search: all sectors can be read, and `n` is the next free one; or one cannot, and
-- `n` is UINT32_MAX.
abbrev pub Searched : (ℕ → Bool) → (ℕ → ℕ) → ℕ → ℕ → Type 0
Searched sound words size n =
    (((l : ℕ) → l < size → sound l ≡ true) × NextFree words size n)
    ⊎ ((n ≡ uint32_max) × (l : ℕ) × (l < size) × (sound l ≡ false))
