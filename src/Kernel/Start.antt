-- ===== src/Kernel/Start.antt =====
-- The set-up of `kmain`, before the drives are looked for.
use binbows_dos.Common.{
  none, ◌≢◌, ◌==◌, ne→==, sym, if◌then◌else◌, ℕ, ◌+◌, ◌^◌, ◌<◌, ◌≤◌, ◌≡◌, refl, true, some, List,
  [], ◌∷◌, ◌-◌, arith,
}
use binbows_dos.Io.{Bus}
use binbows_dos.Alloc.{State, init_allocator_region, align_up}
use binbows_dos.Alloc.Span.{Span}
use binbows_dos.Alloc.Kmalloc.{Holds}
use binbows_dos.Alloc.Region.{init-Holds}
use binbows_dos.Pic.{pic_enable_irq}
use binbows_dos.Gdt.{gdt_install}
use binbows_dos.Idt.{install_irq_handler, idt_install, irq_install_ports, irq_install}
use binbows_dos.Idt.Gates.{Gate}
use binbows_dos.Exceptions.Gates.{installed, installed-Gate}
use binbows_dos.Timer.{init_timer}
use binbows_dos.Kernel.{Kernel, ticking, tick, send, prepare, heap_base, heap_bytes}

-- The gates, and the handler of the timer, which is the only one.
pub record Wired (bus : Bus) (isr irq : ℕ → ℕ) (k : Kernel bus) : Type 0 where
  pub exceptions : (n : ℕ) → n < 32 → Gate (isr n) 0x08 0x8e (k.idt n)
  pub lines : (n : ℕ) → n < 16 → Gate (irq n) 0x08 0x8e (k.idt (32 + n))
  pub no_others : (n : ℕ) → 48 ≤ n → n < 256 → Gate 0 0 0 (k.idt n)
  pub timer : k.handlers 0 ≡ some (tick bus)
  pub no_handler : (j : ℕ) → j ≢ 0 → k.handlers j ≡ none

-- The free list of the heap that is set up.
abbrev pub heap_spans : List Span
heap_spans = (heap_base, heap_bytes - 8) ∷ []

first_heap-Holds :
    (s : State)
    → Holds heap_base
        (heap_base + heap_bytes)
        heap_spans
        (record (init_allocator_region heap_base heap_bytes s) { interrupts = true })
unfolding init_allocator_region align_up
first_heap-Holds s =
    init-Holds heap_base heap_bytes (record s { interrupts = true }) (omega arith) (omega arith)
      (omega arith) (omega arith)

-- On any bus, with stubs at 32-bit addresses and no handler yet, the set-up from
-- `init_allocator_region` to `sti` returns. Then the region is one free block, interrupts are on,
-- the gates name the stubs and the one handler is that of the timer; the devices have got, in this
-- order, the remapping of the controllers, the unmasking of line 0 and the rate of the timer, and the
-- entries of the drives are as before. The
-- heap is apart from the kernel's tables here, though the linker script puts the kernel at its
-- address.
pub prepare-Wired :
    (bus : Bus) (gdt idt : ℕ) (isr irq : ℕ → ℕ) (k : Kernel bus)
    → ((n : ℕ) → isr n < 2 ^ 32)
    → ((n : ℕ) → irq n < 2 ^ 32)
    → ((j : ℕ) → k.handlers j ≡ none)
    → (k' : Kernel bus) × (prepare bus gdt idt isr irq k ≡ some k')
      × Holds heap_base (heap_base + heap_bytes) heap_spans k'.heap
      × (k'.heap.interrupts ≡ true)
      × Wired bus isr irq k'
      × (k'.driver.devices ≡ k.driver.devices)
      × (k'.driver.device
          ≡ send
              (ticking bus)
              (init_timer [])
              (pic_enable_irq (ticking bus) 0 (irq_install_ports (ticking bus) k.driver.device)))
unfolding prepare irq_install install_irq_handler
prepare-Wired bus gdt idt isr irq k small small' unset =
    let d1 = irq_install_ports (ticking bus) k.driver.device in
    let (exceptions, lines, others) =
      installed-Gate (ticking bus) idt isr irq k.idt k.driver.device small small' in
    let k1 : Kernel bus = record {
      heap = record (init_allocator_region heap_base heap_bytes k.heap) { interrupts = true };
      gdt = gdt_install gdt k.gdt;
      idtp = (idt_install idt k.idt).0;
      idt = installed (ticking bus) idt isr irq k.idt k.driver.device;
      handlers = λ j. if 0 == j then some (tick bus) else k.handlers j;
      driver = record k.driver {
        device = send (ticking bus) (init_timer []) (pic_enable_irq (ticking bus) 0 d1);
      };
    } in
    (
      k1,
      refl,
      first_heap-Holds k.heap,
      refl,
      record {
        exceptions = exceptions;
        lines = lines;
        no_others = others;
        timer = refl;
        no_handler = λ j h. rw (ne→== 0 j (λ e. h (sym e))) (unset j);
      },
      refl,
      refl,
    )
