-- ===== src/Idt/Dispatch.antt =====
-- Which handler an interrupt runs, and the end of interrupt that follows it.
use binbows_dos.Common.{
  ℕ, ◌+◌, ◌-◌, ◌%◌, ◌^◌, ◌<◌, ◌≤◌, ◌≡◌, ◌≢◌, refl, ◌⊎◌, some, arith, ◌==◌, leb, if◌then◌else◌, ◌∙◌,
  sym, lt→ltb, ne→==, false, true,
}
use binbows_dos.Io.{Bus}
use binbows_dos.Pic.{pic_send_eoi, pic_enable_irq}
use binbows_dos.Idt.{Handlers, install_irq_handler, call_handler, irq_handler}

module _ (bus : Bus) where
  -- An interrupt of line `n` calls the line's handler, if there is one, and then signals the end of
  -- interrupt as `PIC_sendEOI` does.
  pub irq_handler-pic_send_eoi :
      (n : ℕ) (handlers : Handlers bus) (d : bus.Device)
      → n < 16
      → irq_handler bus (32 + n) handlers d ≡ pic_send_eoi bus n (call_handler bus (handlers n) d)
  unfolding irq_handler pic_send_eoi
  irq_handler-pic_send_eoi n handlers d h =
      let line : (32 + n + 2 ^ 32 - 32) % 2 ^ 32 ≡ n = omega arith in
      let slave : leb 40 (32 + n) ≡ leb 8 n = ground arith in
      rw (line, slave, lt→ltb n (2 ^ 31) (omega arith), lt→ltb n 16 h) refl

  -- Of the vectors that are no line's, none calls a handler.
  pub irq_handler_other :
      (int_no : ℕ) (handlers : Handlers bus) (d : bus.Device)
      → int_no < 256
      → (int_no < 32) ⊎ (48 ≤ int_no)
      → irq_handler bus int_no handlers d ≡ pic_send_eoi bus (int_no - 32) d
  unfolding irq_handler pic_send_eoi
  irq_handler_other int_no handlers d h o = ground arith

  -- What holds after a handler is installed for line `n`.
  pub record Installed (n : ℕ) (handler : bus.Device → bus.Device)
      (handlers handlers' : Handlers bus) : Type 0 where
    pub called :
        (d : bus.Device) → irq_handler bus (32 + n) handlers' d ≡ pic_send_eoi bus n (handler d)
    pub others :
        (m : ℕ) (d : bus.Device)
        → m < 16
        → m ≢ n
        → irq_handler bus (32 + m) handlers' d ≡ irq_handler bus (32 + m) handlers d

  -- Installing a handler for line `n` unmasks the line; from then on an interrupt of the line runs
  -- that handler before its end is signalled, and those of the other lines run as before.
  pub install-Installed :
      (n : ℕ) (handler : bus.Device → bus.Device) (handlers : Handlers bus) (d : bus.Device)
      → n < 16
      → (handlers' : Handlers bus) × (install_irq_handler bus n (some handler) (handlers, d)
          ≡ some (handlers', pic_enable_irq bus n d))
        × Installed n handler handlers handlers'
  unfolding install_irq_handler call_handler
  install-Installed n handler handlers d h =
      let byte : n % 256 ≡ n = omega arith in
      (
        (λ j. if n == j then some handler else handlers j),
        rw (byte, leb_false, lt→ltb n 16 h) refl,
        record {
          called = λ e. irq_handler-pic_send_eoi n _ e h ∙ rw (same n) refl;
          others = λ m e l ne.
              irq_handler-pic_send_eoi m _ e l
              ∙ rw (ne→== n m (λ q. ne (sym q))) (sym (irq_handler-pic_send_eoi m handlers e l));
        },
      )
    where
      leb_false : leb (2 ^ 31) n ≡ false
      leb_false = ground arith

      same : (m : ℕ) → (m == m) ≡ true
      same m = ground arith
