-- ===== src/Serial.antt =====
-- The serial port of src/serial.c on the bus. `unsigned long` has 32 bits (-m32).
pub mod Uart
pub mod Text
pub mod Printf
mod Tests
use binbows_dos.Common.{
  ℕ, zero, suc, ◌+◌, ◌-◌, ◌/◌, ◌%◌, ◌^◌, bit_and, Bool, true, false, ◌||◌, Option, none, some,
  ◌>>=◌, List, [], ◌∷◌, leb, ◌==◌, if◌then◌else◌,
}
use binbows_dos.Io.{Bus, out_byte}
use binbows_dos.Vga.{Arg, word_arg, text_arg, text_of, digit_char}

abbrev pub com1_port : ℕ
com1_port = 0x3f8

-- `while (num && i < (int)sizeof(buf)-1) { buf[i++] = …; num /= base; }` with the room left in the
-- buffer, whose last character comes first.
unfoldable pub buffer_digits : ℕ → Bool → ℕ → ℕ → List ℕ → List ℕ
buffer_digits zero upper base num buf = buf
buffer_digits (suc room) upper base num buf =
    let rest = buffer_digits room upper base (num / base) (digit_char upper (num % base) ∷ buf) in
    if num == 0 then buf else rest

module _ (bus : Bus) where
  unfoldable pub serial_received : bus.Device → ℕ × bus.Device
  serial_received d = let (status, d1) = bus.read (com1_port + 5) d in (bit_and status 0x01, d1)

  -- The wait for a byte, on fuel.
  unfoldable pub serial_read : ℕ → bus.Device → Option (ℕ × bus.Device)
  serial_read zero d = none
  serial_read (suc fuel) d =
      let (received, d1) = serial_received d in
      let rest = serial_read fuel d1 in if received == 0 then rest else some (bus.read com1_port d1)

  unfoldable pub serial_is_transmit_empty : bus.Device → ℕ × bus.Device
  serial_is_transmit_empty d =
      let (status, d1) = bus.read (com1_port + 5) d in (bit_and status 0x20, d1)

  -- The wait for an empty transmitter, on fuel, and the write behind it.
  unfoldable pub serial_write : ℕ → ℕ → bus.Device → Option bus.Device
  serial_write zero c d = none
  serial_write (suc fuel) c d =
      let (ready, d1) = serial_is_transmit_empty d in
      let rest = serial_write fuel c d1 in
      if ready == 0 then rest else some (out_byte bus com1_port c d1)

  -- The characters of a string, or of a buffer, one after the other.
  unfoldable pub write_chars : ℕ → List ℕ → bus.Device → Option bus.Device
  write_chars fuel [] d = some d
  write_chars fuel (c ∷ cs) d = do d1 ← serial_write fuel c d; write_chars fuel cs d1

  -- `none` is NULL.
  unfoldable pub serial_write_string : ℕ → Option (List ℕ) → bus.Device → Option bus.Device
  serial_write_string fuel none d = some d
  serial_write_string fuel (some s) d = write_chars fuel s d

  unfoldable pub serial_putnum_unsigned : ℕ → ℕ → ℕ → Bool → bus.Device → Option bus.Device
  serial_putnum_unsigned fuel num base uppercase d =
      if num == 0
      then serial_write fuel 48 d
      else write_chars fuel (buffer_digits 64 uppercase base num []) d

  -- A `long` is its bit pattern; `-num` wraps.
  unfoldable pub serial_putnum_signed : ℕ → ℕ → ℕ → bus.Device → Option bus.Device
  serial_putnum_signed fuel num base d =
      if leb (2 ^ 31) num
      then (do
        d1 ← serial_write fuel 45 d
        serial_putnum_unsigned fuel ((2 ^ 32 - num) % 2 ^ 32) base false d1)
      else serial_putnum_unsigned fuel num base false d

  -- The case of `%p`, and that of a character that is no conversion.
  unfoldable pub put_pointer : ℕ → ℕ → bus.Device → Option bus.Device
  put_pointer fuel p d = do
    d1 ← serial_write fuel 48 d
    d2 ← serial_write fuel b'x' d1
    serial_putnum_unsigned fuel p 16 false d2

  unfoldable pub put_unknown : ℕ → ℕ → bus.Device → Option bus.Device
  put_unknown fuel c d = do d1 ← serial_write fuel b'%' d; serial_write fuel c d1

  -- The `switch` on the character behind a `%`.
  unfoldable pub serial_conversion : ℕ → ℕ → List Arg → bus.Device → Option (List Arg × bus.Device)
  serial_conversion fuel c args d =
      if c == b's'
      then (do
        (s, rest) ← text_arg args
        d1 ← serial_write_string fuel (some (text_of s)) d
        some (rest, d1))
      else if c == b'c'
      then (do (w, rest) ← word_arg args; d1 ← serial_write fuel (w % 256) d; some (rest, d1))
      else if c == b'd' || c == b'i'
      then (do (w, rest) ← word_arg args; d1 ← serial_putnum_signed fuel w 10 d; some (rest, d1))
      else if c == b'u'
      then (do
        (w, rest) ← word_arg args
        d1 ← serial_putnum_unsigned fuel w 10 false d
        some (rest, d1))
      else if c == b'x'
      then (do
        (w, rest) ← word_arg args
        d1 ← serial_putnum_unsigned fuel w 16 false d
        some (rest, d1))
      else if c == b'X'
      then (do
        (w, rest) ← word_arg args
        d1 ← serial_putnum_unsigned fuel w 16 true d
        some (rest, d1))
      else if c == b'p'
      then (do (w, rest) ← word_arg args; d1 ← put_pointer fuel w d; some (rest, d1))
      else if c == b'%'
      then (do d1 ← serial_write fuel b'%' d; some (args, d1))
      else (do d1 ← put_unknown fuel c d; some (args, d1))

  -- A `%` at the end of the format ends the loop.
  unfoldable pub serial_vserial_printf : ℕ → List ℕ → List Arg → bus.Device → Option bus.Device
  serial_vserial_printf fuel [] args d = some d
  serial_vserial_printf fuel (c ∷ []) args d = if c == b'%' then some d else serial_write fuel c d
  serial_vserial_printf fuel (c ∷ f ∷ cs) args d = elim (c == b'%') [
    | true ↦ (do
      (rest, d1) ← serial_conversion fuel f args d
      serial_vserial_printf fuel cs rest d1)
    | false ↦ (do d1 ← serial_write fuel c d; serial_vserial_printf fuel (f ∷ cs) args d1)
  ]

  -- `fmt` may be NULL.
  unfoldable pub serial_printf : ℕ → Option (List ℕ) → List Arg → bus.Device → Option bus.Device
  serial_printf fuel none args d = some d
  serial_printf fuel (some fmt) args d = serial_vserial_printf fuel fmt args d

  unfoldable pub serial_init : bus.Device → bus.Device
  serial_init d =
      let d = out_byte bus (com1_port + 1) 0x00 d in
      let d = out_byte bus (com1_port + 3) 0x80 d in
      let d = out_byte bus (com1_port + 0) 0x01 d in
      let d = out_byte bus (com1_port + 1) 0x00 d in
      let d = out_byte bus (com1_port + 3) 0x03 d in
      let d = out_byte bus (com1_port + 2) 0xc7 d in out_byte bus (com1_port + 4) 0x0b d
