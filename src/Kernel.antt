-- ===== src/Kernel.antt =====
-- `kmain` of src/main.c: the parts of the kernel in the order in which it calls them, and the loop
-- that waits. Its messages and `clear_screen`, which only change the console, are left out, and so
-- are interrupts on the way to the loop.
pub mod Start
pub mod Diskless
pub mod Idle
mod Tests
use binbows_dos.Common.{ℕ, ◌+◌, ◌*◌, ◌^◌, Option, none, some, ◌>>=◌, true, List, [], ◌∷◌}
use binbows_dos.Io.{Sent, Bus}
use binbows_dos.Alloc.{State, init_allocator_region}
use binbows_dos.Gdt.{Gdt, gdt_install}
use binbows_dos.Idt.{
  IdtPtr, Idt, Handlers, idt_install, irq_install, install_irq_handler, irq_handler,
}
use binbows_dos.Exceptions.{exceptions_install}
use binbows_dos.Timer.{on_irq0, init_timer}
use binbows_dos.Ide.Probe.{Driver, ide_initialize}
use binbows_dos.Elixir.Disk.{elixir_format, elixir_mount}

-- The devices together with `timer_ticks`, on which the handler of the timer acts.
abbrev pub ticking : Bus → Bus
ticking bus = record {
  Device = bus.Device × ℕ;
  read = λ port (d, n). let (value, e) = bus.read port d in (value, (e, n));
  write = λ port value (d, n). (bus.write port value d, n);
  read_word = λ port (d, n). let (value, e) = bus.read_word port d in (value, (e, n));
  write_word = λ port value (d, n). (bus.write_word port value d, n);
}

-- `on_irq0` as a handler.
abbrev pub tick : (bus : Bus) → bus.Device × ℕ → bus.Device × ℕ
tick bus (d, n) = (d, on_irq0 n)

-- What a routine has sent, on the bus.
unfoldable pub send : (bus : Bus) → Sent → bus.Device → bus.Device
send bus [] d = d
send bus ((port, value) ∷ sent) d = send bus sent (bus.write port value d)

-- The globals of the parts. The heap's memory is apart from the other arrays.
pub record Kernel (bus : Bus) : Type 0 where
  pub heap : State
  pub gdt : Gdt
  pub idtp : IdtPtr
  pub idt : Idt
  pub handlers : Handlers (ticking bus)
  pub driver : Driver (ticking bus)

-- The region. `2 * 1024 * 1024 * 1024` overflows an `int`, and wraps to this as a `size_t`.
abbrev pub heap_base : ℕ
heap_base = 0x0010_0000

abbrev pub heap_bytes : ℕ
heap_bytes = 2 * 1024 * 1024 * 1024

-- The tables at the addresses `gdt` and `idt`, and the assembler stubs at `isr` and `irq`.
module _ (bus : Bus) (gdt idt : ℕ) (isr irq : ℕ → ℕ) where
  -- From `init_allocator_region` to `sti`.
  unfoldable pub prepare : Kernel bus → Option (Kernel bus)
  prepare k = do
    let heap = init_allocator_region heap_base heap_bytes k.heap
    let (idtp, gates) = idt_install idt k.idt
    let (gates, d) = irq_install (ticking bus) irq (exceptions_install isr gates, k.driver.device)
    (handlers, d) ← install_irq_handler (ticking bus) 0 (some (tick bus)) (k.handlers, d)
    some (record {
      heap = record heap { interrupts = true };
      gdt = gdt_install gdt k.gdt;
      idtp = idtp;
      idt = gates;
      handlers = handlers;
      driver = record k.driver { device = send (ticking bus) (init_timer []) d };
    })

  -- Drive 1 is formatted and mounted; the results are ignored. `sb_out` is NULL.
  unfoldable pub set_up_drive : ℕ → ℕ → ℕ → Kernel bus → Option (Kernel bus)
  set_up_drive fuel polls rounds k = do
    let drive : ℕ = 1
    let channels = k.driver.channels
    let devices = k.driver.devices
    (_, s1, d1) ←
        elixir_format (ticking bus) fuel polls rounds channels devices drive k.heap k.driver.device
    (_, s2, d2) ← elixir_mount (ticking bus) fuel polls rounds channels devices drive 0 s1 d1
    some (record k { heap = s2; driver = record k.driver { device = d2 } })

  -- The kernel as it enters the loop. `fuel` is that of the allocator, `polls` that of a wait for a
  -- drive, and `rounds` that of the chunks of a write.
  unfoldable pub kmain : ℕ → ℕ → ℕ → Kernel bus → Option (Kernel bus)
  kmain fuel polls rounds k = do
    k1 ← prepare k
    driver ← ide_initialize (ticking bus) polls k1.driver
    set_up_drive fuel polls rounds (record k1 { driver = driver })

-- The loop: each `hlt` ends with an interrupt, here of one of the lines in the list.
unfoldable pub idle : (bus : Bus) → List ℕ → Kernel bus → Kernel bus
idle bus [] k = k
idle bus (line ∷ lines) k =
    let device = irq_handler (ticking bus) (32 + line) k.handlers k.driver.device in
    idle bus lines (record k { driver = record k.driver { device = device } })
