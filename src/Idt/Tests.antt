-- ===== src/Idt/Tests.antt =====
-- Runs of the interrupt routines on a bus that records what is sent.
use binbows_dos.Common.{
  ℕ, ◌+◌, ◌*◌, ◌%◌, ◌<◌, ◌≤◌, ◌≡◌, refl, ◌⊎◌, none, some, [], ◌∷◌, ◌++◌, arith,
}
use binbows_dos.Io.{Sent, Bus}
use binbows_dos.Pic.{pic_remap, pic_enable_irq}
use binbows_dos.Idt.{Idt, Handlers, irq_install, install_irq_handler, call_handler, irq_handler}
use binbows_dos.Idt.Gates.{Gate, irq_install-pic_remap}
use binbows_dos.Idt.Dispatch.{Installed, install-Installed}

-- Every port reads 0xff.
abbrev recorder : Bus
recorder = record {
  Device = Sent;
  read = λ port sent. (0xff, sent);
  write = λ port value sent. sent ++ (port, value) ∷ [];
  read_word = λ port sent. (0xffff, sent);
  write_word = λ port value sent. sent ++ (port, value) ∷ [];
}

abbrev empty_table : Idt
empty_table j = record { base_low = 0; sel = 0; always0 = 0; flags = 0; base_high = 0 }

abbrev no_handlers : Handlers recorder
no_handlers line = none

-- A handler that sends a byte of its own.
abbrev tick : Sent → Sent
tick sent = sent ++ (0x40, 0) ∷ []

abbrev stub_address : ℕ → ℕ
stub_address n = 0x0010_0000 + n % 16 * 8

irq_install-pic_remap_example :
    ((n : ℕ)
      → n < 16
      → Gate
          (stub_address n)
          0x08
          0x8e
          ((irq_install recorder stub_address (empty_table, [])).0 (32 + n)))
    × ((j : ℕ)
        → (j < 32) ⊎ (48 ≤ j)
        → (irq_install recorder stub_address (empty_table, [])).0 j ≡ empty_table j)
    × ((irq_install recorder stub_address (empty_table, [])).1 ≡ pic_remap recorder 0x20 0x28 [])
irq_install-pic_remap_example =
    irq_install-pic_remap recorder stub_address empty_table [] (λ n. omega arith)

install-Installed_example :
    (handlers' : Handlers recorder) × (install_irq_handler recorder 0 (some tick) (no_handlers, [])
      ≡ some (handlers', pic_enable_irq recorder 0 []))
    × Installed recorder 0 tick no_handlers handlers'
install-Installed_example = install-Installed recorder 0 tick no_handlers [] (omega arith)

-- A timer interrupt runs the handler and then tells the master; a disk interrupt tells both.
timer_interrupt : irq_handler recorder 32 (λ line. some tick) [] ≡ (0x40, 0) ∷ (0x20, 0x20) ∷ []
unfolding irq_handler call_handler
timer_interrupt = refl

disk_interrupt : irq_handler recorder 46 no_handlers [] ≡ (0xa0, 0x20) ∷ (0x20, 0x20) ∷ []
unfolding irq_handler call_handler
disk_interrupt = refl

-- Line 0 is unmasked by clearing its bit.
timer_unmasked : pic_enable_irq recorder 0 [] ≡ (0x21, 0xfe) ∷ []
unfolding pic_enable_irq
timer_unmasked = refl
