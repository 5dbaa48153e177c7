-- ===== src/Ide/Write.antt =====
-- `ide_write_sectors_counted` on a drive that follows the interface.
use binbows_dos.Common.{
  ℕ, zero, suc, ◌+◌, ◌-◌, ◌*◌, ◌<◌, ◌≤◌, ◌≡◌, refl, ap, ◌∙◌, true, false, some, ◌&&◌, ltb, leb,
  ◌==◌, if◌then◌else◌, arith,
}
use binbows_dos.Memory.{IsBytes, Memory}
use binbows_dos.Io.{Bus, outsw}
use binbows_dos.Ide.{Channel, write_loop}
use binbows_dos.Ide.Ata.{View, Ata, Prompt, put_word}
use binbows_dos.Ide.Command.{At, At-cast, At-advance}
use binbows_dos.Ide.Polling.{ide_polling-Ready}
use binbows_dos.Ide.Sector.{At-Ready}

-- The 16-bit word at an address.
abbrev pub word_at : Memory → ℕ → ℕ
word_at m a = m a + m (a + 1) * 256

-- The drives hold `words'`, which is `words` with `n` words of drive `u`, from word `p` on, taken
-- from memory at the address `a`.
unfoldable pub Stored : (ℕ → ℕ → ℕ) → ℕ → ℕ → ℕ → ℕ → Memory → (ℕ → ℕ → ℕ) → Type 0
Stored words u p n a m words' =
    (i q : ℕ)
    → words' i q
      ≡ (if i == u && (leb p q && ltb q (p + n)) then word_at m (a + (q - p) * 2) else words i q)

pub Stored-none : (words : ℕ → ℕ → ℕ) (u p a : ℕ) (m : Memory) → Stored words u p 0 a m words
unfolding Stored
Stored-none words u p a m i q = ground arith

-- The words with one replaced.
abbrev with_word : (ℕ → ℕ → ℕ) → ℕ → ℕ → ℕ → ℕ → ℕ → ℕ
with_word words u p w i q = if i == u && q == p then w else words i q

Stored-word :
    (words : ℕ → ℕ → ℕ) (u p n a : ℕ) (m : Memory) (words' : ℕ → ℕ → ℕ)
    → Stored (with_word words u p (word_at m a)) u (p + 1) n (a + 2) m words'
    → Stored words u p (n + 1) a m words'
unfolding Stored
Stored-word words u p n a m words' h i q = ground (arith, h i q)

pub Stored-append :
    (words words' words'' : ℕ → ℕ → ℕ) (u p n k a : ℕ) (m : Memory)
    → Stored words u p n a m words'
    → Stored words' u (p + n) k (a + n * 2) m words''
    → Stored words u p (n + k) a m words''
unfolding Stored
Stored-append words words' words'' u p n k a m h h' i q = ground (arith, h i q, h' i q)

pub Stored-cast :
    (words words' : ℕ → ℕ → ℕ) (u p p' n n' a a' : ℕ) (m : Memory)
    → p ≡ p'
    → n ≡ n'
    → a ≡ a'
    → Stored words u p n a m words'
    → Stored words u p' n' a' m words'
Stored-cast words words' u p p' n n' a a' m e f g h = rw (← e, ← f, ← g) h

At-put_word :
    {words : ℕ → ℕ → ℕ} {u p left latency : ℕ} {v : View} (w : ℕ)
    → At words u p left true latency v
    → At (with_word words u p w) u p left true latency (put_word w v)
At-put_word {words} {u} {v} w at = record {
  same_words =
      ap (λ (f : ℕ → ℕ → ℕ). with_word f v.unit v.pos w) at.same_words
      ∙ ap (λ i. with_word words i v.pos w) at.same_unit
      ∙ ap (λ q. with_word words u q w) at.same_pos;
  same_unit = at.same_unit;
  same_pos = at.same_pos;
  same_left = at.same_left;
  same_writing = at.same_writing;
  soon = at.soon;
  over = at.over;
  chosen = at.chosen;
  no_err = at.no_err;
  no_df = at.no_df;
}

module _ (bus : Bus) (ch : Channel) (latency : ℕ) (ata : Ata bus ch latency) (u : ℕ) (m : Memory)
    (bytes : IsBytes m) (prompt : Prompt bus ch latency ata) where
  -- The words of one sector.
  outsw-Stored :
      (words : ℕ → ℕ → ℕ) (count k p addr : ℕ) (d : bus.Device)
      → At words u p (count + k * 256) true latency (ata.view d)
      → count ≤ 256
      → (0 < count → (ata.view d).busy ≡ 0)
      → (words' : ℕ → ℕ → ℕ) × Stored words u p count addr m words'
        × At words' u
            (p + count)
            (k * 256)
            true
            latency
            (ata.view (outsw bus ch.base addr count m d))
  unfolding outsw
  outsw-Stored words zero k p addr d at small idle =
      (words, Stored-none words u p addr m, At-cast (omega arith) (omega arith) at)
  outsw-Stored words (suc count) k p addr d at small idle =
      let w : ℕ = word_at m addr in
      let more : At words u p (suc (count + k * 256)) true latency (ata.view d) =
        At-cast refl (omega arith) at in
      let after =
        ata.write_word w d (idle (omega arith)) at.same_writing (omega (arith, at.same_left))
          (omega (arith, bytes addr, bytes (addr + 1))) in
      let (next, still) =
        At-advance (ata.delay d) (ata.delay_le d)
          (λ writes z. prompt d at.same_writing (omega (arith, more.same_left))) after
          (At-put_word w more) in
      let (words', stored, end) =
        outsw-Stored (with_word words u p w) count k (p + 1) (addr + 2) (bus.write_word ch.base w d)
          next (omega arith) (λ some_left. still (λ e. omega arith)) in
      (
        words',
        rw (← add_one count) (Stored-word words u p count addr m words' stored),
        At-cast (omega arith) refl end,
      )
    where
      add_one : (n : ℕ) → n + 1 ≡ suc n
      add_one n = omega arith

  pub write_loop-Stored :
      (words : ℕ → ℕ → ℕ) (fuel left i p addr : ℕ) (d : bus.Device)
      → At words u p (left * 256) true latency (ata.view d)
      → latency < fuel
      → (d' : bus.Device) × (words' : ℕ → ℕ → ℕ) × (write_loop bus fuel ch addr left i m d
          ≡ some d')
        × Stored words u p (left * 256) (addr + i * 512) m words'
        × At words' u (p + left * 256) 0 true latency (ata.view d')
  unfolding write_loop
  write_loop-Stored words fuel zero i p addr d at enough = (
    d,
    words,
    refl,
    Stored-none words u p (addr + i * 512) m,
    At-cast (omega arith) (omega arith) at,
  )
  write_loop-Stored words fuel (suc left) i p addr d at enough =
      let (d1, polled, settled) =
        ide_polling-Ready bus ch latency ata fuel false d (omega (arith, at.soon)) in
      let (at1, idle) = At-Ready settled at in
      let (words1, stored, at2) =
        outsw-Stored words 256 left p (addr + i * 512) d1 (At-cast refl (omega arith) at1)
          (omega arith) (λ _. idle) in
      let (d', words', done, rest, end) =
        write_loop-Stored words1 fuel left (i + 1) (p + 256) addr _ at2 enough in
      (
        d',
        words',
        rw polled done,
        Stored-cast words words' u p p _ _ (addr + i * 512) (addr + i * 512) m refl (omega arith)
            refl
            (Stored-append words words1 words' u p 256 (left * 256) (addr + i * 512) m stored
              (Stored-cast words1 words' u _ _ _ _ _ _ m refl refl (omega arith) rest)),
        At-cast (omega arith) refl end,
      )
