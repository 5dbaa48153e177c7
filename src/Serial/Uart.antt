-- ===== src/Serial/Uart.antt =====
-- What the routines rely on of the serial port's device, and what they send to it.
use binbows_dos.Common.{
  ℕ, zero, suc, ◌+◌, ◌≤◌, ◌<◌, ◌≡◌, ◌≢◌, refl, sym, ap, ◌∙◌, bit_and, Option, some, ◌>>=◌, List, [],
  ◌∷◌, ◌++◌, ◌%◌, ◌==◌, Bool-cases, inl, inr, ==_iff, ==→ne, ne→==, eq→==, arith,
}
use binbows_dos.Io.{Bus, out_byte}
use binbows_dos.Serial.{com1_port, serial_is_transmit_empty, serial_write, write_chars}
use mathlib.Core.List.{append-nil, append_assoc}

-- The bytes that are sent for the characters.
abbrev pub bytes : List ℕ → List ℕ
bytes [] = []
bytes (c ∷ cs) = c % 256 ∷ bytes cs

bytes-append : (t t' : List ℕ) → bytes (t ++ t') ≡ bytes t ++ bytes t'
bytes-append [] t' = refl
bytes-append (c ∷ t) t' = ap (λ u. c % 256 ∷ u) (bytes-append t t')

-- The transmitter: the bytes that it has taken, and for how many reads of the line's status it is
-- still busy. A byte takes it `latency` reads at most.
pub record Uart (bus : Bus) (latency : ℕ) : Type 0 where
  pub sent : bus.Device → List ℕ
  pub busy : bus.Device → ℕ
  pub busy_le : (d : bus.Device) → busy d ≤ latency
  pub busy_status :
      (d : bus.Device)
      → 0 < busy d
      → (bit_and (bus.read (com1_port + 5) d).0 0x20 ≡ 0)
        × (busy (bus.read (com1_port + 5) d).1 + 1 ≡ busy d)
        × (sent (bus.read (com1_port + 5) d).1 ≡ sent d)
  pub ready_status :
      (d : bus.Device)
      → busy d ≡ 0
      → (bit_and (bus.read (com1_port + 5) d).0 0x20 ≢ 0)
        × (busy (bus.read (com1_port + 5) d).1 ≡ 0)
        × (sent (bus.read (com1_port + 5) d).1 ≡ sent d)
  pub transmit :
      (v : ℕ) (d : bus.Device)
      → v < 256
      → busy d ≡ 0
      → sent (bus.write com1_port v d) ≡ sent d ++ v ∷ []

module _ (bus : Bus) (latency : ℕ) (uart : Uart bus latency) where
  -- The computation ends, and has sent the text.
  abbrev pub Sends : List ℕ → bus.Device → Option bus.Device → Type 0
  Sends t d o = (d' : bus.Device) × (o ≡ some d') × (uart.sent d' ≡ uart.sent d ++ bytes t)

  wait_ends :
      (fuel c : ℕ) (d : bus.Device)
      → uart.busy d < fuel
      → Sends (c ∷ []) d (serial_write bus fuel c d)
  unfolding serial_write serial_is_transmit_empty
  wait_ends zero c d h = absurd (omega arith)
  wait_ends (suc fuel) c d h =
      let d1 = (bus.read (com1_port + 5) d).1 in
      elim (Bool-cases (uart.busy d == 0)) [
        | inl e ↦
            let (ready, idle, same) = uart.ready_status d ((==_iff (uart.busy d) 0).0 e) in
            (
              out_byte bus com1_port c d1,
              rw (ne→== _ 0 ready) refl,
              uart.transmit (c % 256) d1 (omega arith) idle ∙ ap (λ t. t ++ c % 256 ∷ []) same,
            )
        | inr e ↦
            let (bsy, less, same) = uart.busy_status d (omega (arith, ==→ne (uart.busy d) 0 e)) in
            let (d', done, sent) = wait_ends fuel c d1 (omega arith) in
            (d', rw (eq→== _ 0 bsy) done, sent ∙ ap (λ t. t ++ c % 256 ∷ []) same)
      ]

  module _ (fuel : ℕ) (enough : latency < fuel) where
    pub serial_write-Sends : (c : ℕ) (d : bus.Device) → Sends (c ∷ []) d (serial_write bus fuel c d)
    serial_write-Sends c d = wait_ends fuel c d (omega (arith, uart.busy_le d))

    -- One text after the other.
    pub sent_joined :
        (t t' u : List ℕ) (d d1 d2 : bus.Device)
        → uart.sent d1 ≡ uart.sent d ++ bytes t
        → uart.sent d2 ≡ uart.sent d1 ++ bytes t'
        → t ++ t' ≡ u
        → uart.sent d2 ≡ uart.sent d ++ bytes u
    sent_joined t t' u d d1 d2 sent sent' e =
        sent'
        ∙ ap (λ v. v ++ bytes t') sent
        ∙ append_assoc (uart.sent d) (bytes t) (bytes t')
        ∙ ap (λ v. uart.sent d ++ v) (sym (bytes-append t t') ∙ ap bytes e)

    pub Sends-then :
        (t t' : List ℕ) (d : bus.Device) (o : Option bus.Device)
        (k : bus.Device → Option bus.Device)
        → Sends t d o
        → ((d1 : bus.Device) → Sends t' d1 (k d1))
        → Sends (t ++ t') d (o >>= k)
    Sends-then t t' d o k (d1, done, sent) next =
        let (d2, done', sent') = next d1 in
        (d2, rw done done', sent_joined t t' (t ++ t') d d1 d2 sent sent' refl)

    pub write_chars-Sends : (t : List ℕ) (d : bus.Device) → Sends t d (write_chars bus fuel t d)
    unfolding write_chars
    write_chars-Sends [] d = (d, refl, sym (append-nil (uart.sent d)))
    write_chars-Sends (c ∷ t) d =
        Sends-then (c ∷ []) t d _ _ (serial_write-Sends c d) (write_chars-Sends t)
