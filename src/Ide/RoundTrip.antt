-- ===== src/Ide/RoundTrip.antt =====
-- Sectors that are written read back.
use binbows_dos.Common.{
  ℕ, ◌+◌, ◌-◌, ◌*◌, ◌/◌, ◌%◌, ◌<◌, ◌≡◌, ap, ◌==◌, arith, Bool-cases, inl, inr, ==_iff,
}
use binbows_dos.Memory.{IsBytes, Memory}
use binbows_dos.Ide.Ata.{Ata}
use binbows_dos.Ide.Read.{disk_byte}
use binbows_dos.Ide.Write.{Stored, word_at}

-- A byte of a sector that was stored.
pub disk_byte-Stored :
    (words words' : ℕ → ℕ → ℕ) (u lba n buf : ℕ) (m : Memory) (j : ℕ)
    → IsBytes m
    → Stored words u (lba * 256) (n * 256) buf m words'
    → j < n * 512
    → disk_byte (words' u) (lba * 512 + j) ≡ m (buf + j)
unfolding disk_byte Stored
disk_byte-Stored words words' u lba n buf m j bytes stored h =
    let q : ℕ = (lba * 512 + j) / 2 in
    let a : ℕ = buf + (q - lba * 256) * 2 in
    let word : words' u q ≡ word_at m a = ground (arith, stored u q) in
    elim (Bool-cases ((lba * 512 + j) % 2 == 0)) [
      | inl e ↦
          let at : a ≡ buf + j = omega (arith, (==_iff ((lba * 512 + j) % 2) 0).0 e) in
          rw e (omega (arith, word, bytes a, bytes (a + 1), ap m at))
      | inr e ↦
          let at : a + 1 ≡ buf + j = ground arith in
          rw e (omega (arith, word, bytes a, bytes (a + 1), ap m at))
    ]
