-- ===== src/Ide/NextFree.antt =====
-- `find_next_free_lba` (ide_rw.c).
pub mod Scan
use binbows_dos.Common.{
  ℕ, zero, suc, ◌+◌, ◌-◌, ◌^◌, Bool, true, false, not, Option, none, some, ◌>>=◌, leb, ◌==◌,
  if◌then◌else◌,
}
use binbows_dos.Memory.{Memory}
use binbows_dos.Io.{Bus}
use binbows_dos.Ide.{Channels, Devices, ide_read_sectors}

-- `UINT32_MAX`
abbrev pub uint32_max : ℕ
uint32_max = 2 ^ 32 - 1

-- The loop over the buffer, which ends at the first byte that is not 0.
unfoldable pub all_zero : ℕ → ℕ → ℕ → Memory → Bool
all_zero zero i buf m = true
all_zero (suc left) i buf m =
    let rest = all_zero left (i + 1) buf m in if m (buf + i) == 0 then rest else false

-- The result behind the loop, for `seen_used` and `last_used_lba`.
unfoldable pub next_free : ℕ → Bool → ℕ → ℕ
next_free size seen_used last_used_lba =
    if not seen_used then 0 else if last_used_lba == size - 1 then uint32_max else last_used_lba + 1

-- The array `buf` of the function stands at an address.
module _ (bus : Bus) (polls : ℕ) (channels : Channels) (devices : Devices) (drive buf : ℕ) where
  -- The loop over the sectors, with the rounds left.
  unfoldable pub scan_loop :
      ℕ → ℕ → Bool → ℕ → Memory → bus.Device → Option (ℕ × Memory × bus.Device)
  scan_loop zero lba seen_used last_used_lba m d =
      some (next_free (devices drive).size seen_used last_used_lba, m, d)
  scan_loop (suc left) lba seen_used last_used_lba m d = do
    (err, m1, d1) ← ide_read_sectors bus polls channels devices drive 1 lba buf m d
    let zeros = all_zero 512 0 buf m1
    let rest =
        scan_loop left (lba + 1) (if zeros then seen_used else true)
          (if zeros then last_used_lba else lba) m1 d1
    if err == 0 then rest else some (uint32_max, m1, d1)

  unfoldable pub find_next_free_lba : Memory → bus.Device → Option (ℕ × Memory × bus.Device)
  find_next_free_lba m d =
      if leb 4 drive
      then some (uint32_max, m, d)
      else if (devices drive).reserved == 0
      then some (uint32_max, m, d)
      else if (devices drive).size == 0
      then some (uint32_max, m, d)
      else scan_loop (devices drive).size 0 false 0xffff_ffff m d
