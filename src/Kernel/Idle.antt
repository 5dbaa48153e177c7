-- ===== src/Kernel/Idle.antt =====
-- The loop of `kmain` and the interrupts that come in it.
use binbows_dos.Common.{
  ℕ, ◌+◌, ◌%◌, ◌^◌, ◌<◌, ◌≡◌, refl, ap, ◌∙◌, inl, inr, Bool-cases, ==_iff, ==→ne, ◌==◌, leb,
  if◌then◌else◌, List, [], ◌∷◌, All, arith,
}
use binbows_dos.Io.{Bus}
use binbows_dos.Pic.{pic_send_eoi}
use binbows_dos.Idt.{irq_handler, call_handler}
use binbows_dos.Idt.Dispatch.{irq_handler-pic_send_eoi}
use binbows_dos.Timer.{on_irq0}
use binbows_dos.Kernel.{Kernel, ticking, tick, idle}
use binbows_dos.Kernel.Start.{Wired}

-- The interrupts of line 0 among those that come.
unfoldable pub timer_interrupts : List ℕ → ℕ
timer_interrupts [] = 0
timer_interrupts (line ∷ lines) = (if line == 0 then 1 else 0) + timer_interrupts lines

-- The devices once the end of each interrupt is signalled, in turn: 0x20 to port 0x20, and for a
-- line of the second controller to port 0xa0 before that.
unfoldable pub signalled : (bus : Bus) → List ℕ → bus.Device → bus.Device
signalled bus [] d = d
signalled bus (line ∷ lines) d =
    signalled bus lines (bus.write 0x20 0x20 (if leb 8 line then bus.write 0xa0 0x20 d else d))

module _ (bus : Bus) where
  -- The end of an interrupt reaches the controllers, and does not count.
  pic_send_eoi_lem :
      (line : ℕ) (d : bus.Device × ℕ)
      → pic_send_eoi (ticking bus) line d
        ≡ (bus.write 0x20 0x20 (if leb 8 line then bus.write 0xa0 0x20 d.0 else d.0), d.1)
  unfolding pic_send_eoi
  pic_send_eoi_lem line (d, n) = elim (Bool-cases (leb 8 line)) [
    | inl e ↦ rw e refl
    | inr e ↦ rw e refl
  ]

  -- One interrupt in the loop.
  irq_handler_counts :
      (isr irq : ℕ → ℕ) (k : Kernel bus) (line : ℕ) (d : bus.Device × ℕ)
      → Wired bus isr irq k
      → line < 16
      → irq_handler (ticking bus) (32 + line) k.handlers d ≡ (
        bus.write 0x20 0x20 (if leb 8 line then bus.write 0xa0 0x20 d.0 else d.0),
        (if line == 0 then on_irq0 d.1 else d.1),
      )
  unfolding call_handler
  irq_handler_counts isr irq k line d wired valid =
      rw (irq_handler-pic_send_eoi (ticking bus) line k.handlers d valid)
        (elim (Bool-cases (line == 0)) [
          | inl e ↦
              let z : line ≡ 0 = (==_iff line 0).0 e in
              rw (z, wired.timer) (pic_send_eoi_lem 0 (tick bus d))
          | inr e ↦ rw (wired.no_handler line (==→ne line 0 e), e) (pic_send_eoi_lem line d)
        ])

ticks_counted :
    (line n later n' : ℕ)
    → n' ≡ (if line == 0 then on_irq0 n else n)
    → (n' + later) % 2 ^ 64 ≡ (n + ((if line == 0 then 1 else 0) + later)) % 2 ^ 64
unfolding on_irq0
ticks_counted line n later n' e = ground arith

-- Whatever interrupts of the 16 lines come in the loop, on any bus and with the timer's handler the
-- only one and the gates set up: the end of each is signalled, in turn, to its controllers, nothing
-- else reaches the devices, and `timer_ticks` counts those of line 0, up to 2 ^ 64. Handlers and
-- gates stay as they are.
pub idle-Wired :
    (bus : Bus) (isr irq : ℕ → ℕ) (lines : List ℕ) (k : Kernel bus)
    → All (λ (line : ℕ). line < 16) lines
    → Wired bus isr irq k
    → ((idle bus lines k).driver.device.0 ≡ signalled bus lines k.driver.device.0)
      × ((idle bus lines k).driver.device.1 % 2 ^ 64
          ≡ (k.driver.device.1 + timer_interrupts lines) % 2 ^ 64)
      × Wired bus isr irq (idle bus lines k)
unfolding idle timer_interrupts signalled
idle-Wired bus isr irq [] k valid wired = (refl, omega arith, wired)
idle-Wired bus isr irq (line ∷ lines) k valid wired =
    let d = irq_handler (ticking bus) (32 + line) k.handlers k.driver.device in
    let one = irq_handler_counts bus isr irq k line k.driver.device wired valid.0 in
    let (ends, rest, still) =
      idle-Wired bus isr irq lines (record k { driver = record k.driver { device = d } }) valid.1
        (record {
          exceptions = wired.exceptions;
          lines = wired.lines;
          no_others = wired.no_others;
          timer = wired.timer;
          no_handler = wired.no_handler;
        }) in
    (
      ends ∙ ap (λ (e : bus.Device × ℕ). signalled bus lines e.0) one,
      rest
          ∙ ticks_counted line k.driver.device.1 (timer_interrupts lines) d.1
              (ap (λ (e : bus.Device × ℕ). e.1) one),
      still,
    )
