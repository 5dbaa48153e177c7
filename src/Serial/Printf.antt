-- ===== src/Serial/Printf.antt =====
-- What `serial_printf` sends.
use binbows_dos.Common.{
  ℕ, ◌-◌, ◌%◌, ◌^◌, ◌<◌, ◌≡◌, refl, ap, ◌∙◌, Bool, true, false, ◌||◌, Option, none, some, ◌>>=◌,
  List, [], ◌∷◌, ◌++◌, leb, ◌==◌, if◌then◌else◌, arith,
}
use binbows_dos.Io.{Bus}
use binbows_dos.Vga.{Arg, word, text, word_arg, text_arg, text_of, number_text}
use binbows_dos.Serial.{
  serial_write, write_chars, serial_write_string, serial_putnum_unsigned, serial_putnum_signed,
  put_pointer, put_unknown, serial_conversion, serial_vserial_printf,
}
use binbows_dos.Serial.Uart.{
  Uart, bytes, sent_joined, Sends, Sends-then, serial_write-Sends, write_chars-Sends,
}
use binbows_dos.Serial.Text.{
  signed_text, word_shown, pointer_digits, serial_shown, serial_rendered, buffer_digits-digits_loop,
}

module _ (bus : Bus) (latency : ℕ) (uart : Uart bus latency) (fuel : ℕ)
    (enough : latency < fuel) where
  abbrev Wrote : List ℕ → bus.Device → Option bus.Device → Type 0
  Wrote = Sends bus latency uart

  -- The computation sends the text, if there is one.
  abbrev Puts : Option (List ℕ) → bus.Device → Option bus.Device → Type 0
  Puts o d r = (t : List ℕ) → o ≡ some t → Wrote t d r

  some_text :
      (t : List ℕ) (d : bus.Device) (r : Option bus.Device) → Wrote t d r → Puts (some t) d r
  some_text t d r h t' e = let same : t ≡ t' = cc in rw (← same) h

  Puts-if :
      (b : Bool) (o o' : Option (List ℕ)) (d : bus.Device) (r r' : Option bus.Device)
      → Puts o d r
      → Puts o' d r'
      → Puts (if b then o else o') d (if b then r else r')
  Puts-if true o o' d r r' h h' = h
  Puts-if false o o' d r r' h h' = h'

  -- A character in front of a text.
  Puts-cons :
      (c : ℕ) (o : Option (List ℕ)) (d : bus.Device) (k : bus.Device → Option bus.Device)
      → ((d1 : bus.Device) → Puts o d1 (k d1))
      → Puts (do t ← o; some (c ∷ t)) d (serial_write bus fuel c d >>= k)
  Puts-cons c none d k h t e = cc
  Puts-cons c (some u) d k h t e =
      some_text (c ∷ u) d _
        (Sends-then bus latency uart fuel enough (c ∷ []) u d _ k
          (serial_write-Sends bus latency uart fuel enough c d) (λ d1. h d1 u refl))
        t e

  serial_putnum_unsigned-Puts :
      (w base : ℕ) (upper : Bool) (d : bus.Device)
      → Puts (number_text upper base w) d (serial_putnum_unsigned bus fuel w base upper d)
  unfolding serial_putnum_unsigned number_text
  serial_putnum_unsigned-Puts w base upper d =
      Puts-if (w == 0) _ _ d _ _
        (some_text (48 ∷ []) d _ (serial_write-Sends bus latency uart fuel enough 48 d))
        (λ t e.
          rw (buffer_digits-digits_loop 64 33 upper base w [] t (omega arith) e)
            (write_chars-Sends bus latency uart fuel enough t d))

  serial_putnum_signed-Puts :
      (w : ℕ) (d : bus.Device) → Puts (signed_text w) d (serial_putnum_signed bus fuel w 10 d)
  unfolding serial_putnum_signed signed_text
  serial_putnum_signed-Puts w d =
      Puts-if (leb (2 ^ 31) w) _ _ d _ _
        (Puts-cons 45 _ d _ (serial_putnum_unsigned-Puts ((2 ^ 32 - w) % 2 ^ 32) 10 false))
        (serial_putnum_unsigned-Puts w 10 false d)

  two_chars :
      (c e : ℕ) (o : Option (List ℕ))
      → (do t ← (do u ← o; some (e ∷ u)); some (c ∷ t)) ≡ (do t ← o; some (c ∷ e ∷ t))
  two_chars c e none = refl
  two_chars c e (some u) = refl

  put_pointer-Puts : (w : ℕ) (d : bus.Device) → Puts (pointer_digits w) d (put_pointer bus fuel w d)
  unfolding put_pointer
  put_pointer-Puts w d t e =
      Puts-cons 48 _ d _ (λ d1. Puts-cons b'x' _ d1 _ (serial_putnum_unsigned-Puts w 16 false)) t
        (two_chars 48 b'x' (number_text false 16 w) ∙ e)

  -- The conversion sends the text that is shown, and leaves the same arguments.
  abbrev Converts :
      Option (List ℕ × List Arg) → bus.Device → Option (List Arg × bus.Device) → Type 0
  Converts o d r =
      (t : List ℕ) (rest : List Arg)
      → o ≡ some (t, rest)
      → (d' : bus.Device) × (r ≡ some (rest, d')) × (uart.sent d' ≡ uart.sent d ++ bytes t)

  Converts-if :
      (b : Bool) (o o' : Option (List ℕ × List Arg)) (d : bus.Device)
      (r r' : Option (List Arg × bus.Device))
      → Converts o d r
      → Converts o' d r'
      → Converts (if b then o else o') d (if b then r else r')
  Converts-if true o o' d r r' h h' = h
  Converts-if false o o' d r r' h h' = h'

  -- A text that is put, with the arguments behind it.
  text_case :
      (o : Option (List ℕ)) (args : List Arg) (d : bus.Device) (r : Option bus.Device)
      → Puts o d r
      → Converts (o >>= λ t. some (t, args)) d (r >>= λ d1. some (args, d1))
  text_case none args d r h t rest e = cc
  text_case (some u) args d r h t rest e =
      let same : u ≡ t = cc in
      let same_args : args ≡ rest = cc in
      let (d', done, sent) = h t (ap some same) in (d', rw (done, same_args) refl, sent)

  word_case :
      (args : List Arg) (text_for : ℕ → Option (List ℕ)) (put : ℕ → Option bus.Device)
      (d : bus.Device)
      → ((w : ℕ) → Puts (text_for w) d (put w))
      → Converts
          (word_shown text_for args)
          d
          (word_arg args >>= λ (w, rest). (put w >>= λ d1. some (rest, d1)))
  word_case [] text_for put d h t rest e = cc
  word_case (text u ∷ args) text_for put d h t rest e = cc
  word_case (word w ∷ args) text_for put d h t rest e =
      text_case (text_for w) args d (put w) (h w) t rest e

  text_arg_case :
      (args : List Arg) (d : bus.Device)
      → Converts (text_arg args >>= λ (t, rest). some (text_of t, rest)) d (
          text_arg args >>= λ (s, rest).
          (serial_write_string bus fuel (some (text_of s)) d >>= λ d1. some (rest, d1)))
  unfolding serial_write_string
  text_arg_case [] d t rest e = cc
  text_arg_case (word w ∷ args) d t rest e = cc
  text_arg_case (text s ∷ args) d t rest e =
      text_case (some (text_of s)) args d _
        (some_text (text_of s) d _ (write_chars-Sends bus latency uart fuel enough (text_of s) d)) t
        rest e

  unknown_case :
      (c : ℕ) (args : List Arg) (d : bus.Device)
      → Converts (some (b'%' ∷ c ∷ [], args)) d (put_unknown bus fuel c d >>= λ d1. some (args, d1))
  unfolding put_unknown
  unknown_case c args d = text_case (some (b'%' ∷ c ∷ [])) args d _ (
      some_text (b'%' ∷ c ∷ []) d _ (
        Sends-then bus latency uart fuel enough (b'%' ∷ []) (c ∷ []) d _ _
          (serial_write-Sends bus latency uart fuel enough b'%' d)
          (serial_write-Sends bus latency uart fuel enough c)))

  one_char : (c : ℕ) (d : bus.Device) → Puts (some (c ∷ [])) d (serial_write bus fuel c d)
  one_char c d = some_text (c ∷ []) d _ (serial_write-Sends bus latency uart fuel enough c d)

  serial_conversion-Converts :
      (c : ℕ) (args : List Arg) (d : bus.Device)
      → Converts (serial_shown c args) d (serial_conversion bus fuel c args d)
  unfolding serial_conversion serial_shown
  serial_conversion-Converts c args d = Converts-if (c == b's') _ _ d _ _ (text_arg_case args d) (
      Converts-if (c == b'c') _ _ d _ _ (word_case args _ _ d (λ w. one_char (w % 256) d)) (
        Converts-if (c == b'd' || c == b'i') _ _ d _ _
          (word_case args _ _ d (λ w. serial_putnum_signed-Puts w d))
          (Converts-if (c == b'u') _ _ d _ _
            (word_case args _ _ d (λ w. serial_putnum_unsigned-Puts w 10 false d))
            (Converts-if (c == b'x') _ _ d _ _
              (word_case args _ _ d (λ w. serial_putnum_unsigned-Puts w 16 false d))
              (Converts-if (c == b'X') _ _ d _ _
                (word_case args _ _ d (λ w. serial_putnum_unsigned-Puts w 16 true d))
                (Converts-if (c == b'p') _ _ d _ _
                  (word_case args _ _ d (λ w. put_pointer-Puts w d))
                  (Converts-if (c == b'%') _ _ d _ _
                    (text_case (some (b'%' ∷ [])) args d _ (one_char b'%' d))
                    (unknown_case c args d))))))))

  -- What follows a conversion.
  after_conversion :
      (cs : List ℕ) (o : Option (List ℕ × List Arg)) (d : bus.Device)
      (r : Option (List Arg × bus.Device))
      → Converts o d r
      → ((rest : List Arg) (d1 : bus.Device)
          → Puts (serial_rendered cs rest) d1 (serial_vserial_printf bus fuel cs rest d1))
      → Puts
          (do (t, rest) ← o; ts ← serial_rendered cs rest; some (t ++ ts))
          d
          (r >>= λ (rest, d1). serial_vserial_printf bus fuel cs rest d1)
  after_conversion cs none d r h ih t e = cc
  after_conversion cs (some (u, rest)) d r h ih t e =
      let (d1, same, sent) = h u rest refl in
      let (ts, there, joined) = split (serial_rendered cs rest) e in
      let (d2, done, sent') = ih rest d1 ts there in
      (d2, rw same done, sent_joined bus latency uart fuel enough u ts t d d1 d2 sent sent' joined)
    where
      split :
          (o : Option (List ℕ))
          → (do ts ← o; some (u ++ ts)) ≡ some t
          → (ts : List ℕ) × (o ≡ some ts) × (u ++ ts ≡ t)
      split none e = cc
      split (some ts) e = (ts, refl, cc)

  nothing : (d : bus.Device) → Wrote [] d (some d)
  nothing d = unfold write_chars in write_chars-Sends bus latency uart fuel enough [] d

  last_char :
      (b : Bool) (c : ℕ) (d : bus.Device)
      → Puts (some (if b then [] else c ∷ [])) d (if b then some d else serial_write bus fuel c d)
  last_char true c d = some_text [] d (some d) (nothing d)
  last_char false c d = one_char c d

  Puts-elim :
      (b : Bool) (o o' : Option (List ℕ)) (d : bus.Device) (r r' : Option bus.Device)
      → Puts o d r
      → Puts o' d r'
      → Puts (elim b [ true ↦ o | false ↦ o' ]) d (elim b [ true ↦ r | false ↦ r' ])
  Puts-elim true o o' d r r' h h' = h
  Puts-elim false o o' d r r' h h' = h'

  serial_vserial_printf-Puts :
      (fmt : List ℕ) (args : List Arg) (d : bus.Device)
      → Puts (serial_rendered fmt args) d (serial_vserial_printf bus fuel fmt args d)
  unfolding serial_vserial_printf serial_rendered
  serial_vserial_printf-Puts [] args d t e = some_text [] d (some d) (nothing d) t e
  serial_vserial_printf-Puts (c ∷ []) args d t e = last_char (c == b'%') c d t e
  serial_vserial_printf-Puts (c ∷ f ∷ cs) args d t e =
      Puts-elim (c == b'%') _ _ d _ _
        (after_conversion cs (serial_shown f args) d _ (serial_conversion-Converts f args d)
          (serial_vserial_printf-Puts cs))
        (Puts-cons c (serial_rendered (f ∷ cs) args) d _ (serial_vserial_printf-Puts (f ∷ cs) args))
        t e

  -- On a bus with a transmitter behind COM1, and with fuel for its latency, if the format and the
  -- arguments render to a text, `serial_vserial_printf` returns and has sent just the bytes of this
  -- text.
  pub serial_vserial_printf-rendered :
      (fmt : List ℕ) (args : List Arg) (t : List ℕ) (d : bus.Device)
      → serial_rendered fmt args ≡ some t
      → (d' : bus.Device) × (serial_vserial_printf bus fuel fmt args d ≡ some d')
        × (uart.sent d' ≡ uart.sent d ++ bytes t)
  serial_vserial_printf-rendered fmt args t d e = serial_vserial_printf-Puts fmt args d t e
