-- ===== src/Timer.antt =====
-- The timer of src/interrupts/timer.c and includes/timer.h. Its message is left out.
pub mod Wait
mod Tests
use binbows_dos.Common.{
  ℕ, ◌+◌, ◌*◌, ◌/◌, ◌%◌, ◌^◌, bit_and, Bool, Option, none, some, List, [], ◌∷◌, ltb, ◌==◌,
  if◌then◌else◌,
}
use binbows_dos.Io.{Sent, outb}

-- `on_irq0` on `timer_ticks`, a `uint64_t`.
unfoldable pub on_irq0 : ℕ → ℕ
on_irq0 timer_ticks = (timer_ticks + 1) % 2 ^ 64

-- The loop of `timer_wait`. Each `hlt` ends with an interrupt, which is the timer's where the list
-- says so; `none` means that the list has ended and the loop still waits.
unfoldable pub wait_loop : List Bool → ℕ → ℕ → Option ℕ
wait_loop [] limit timer_ticks = if ltb timer_ticks limit then none else some timer_ticks
wait_loop (is_irq0 ∷ wakes) limit timer_ticks =
    let rest = wait_loop wakes limit (if is_irq0 then on_irq0 timer_ticks else timer_ticks) in
    if ltb timer_ticks limit then rest else some timer_ticks

-- The ticks at the end of the wait.
unfoldable pub timer_wait : ℕ → List Bool → ℕ → Option ℕ
timer_wait ticks wakes timer_ticks =
    let start_ticks = timer_ticks in wait_loop wakes ((start_ticks + ticks) % 2 ^ 64) timer_ticks

-- The ticks that the three routines hand to `timer_wait`.
unfoldable pub micros_ticks : ℕ → ℕ
micros_ticks microseconds = (microseconds + 9999) % 2 ^ 32 / 10000

unfoldable pub ms_ticks : ℕ → ℕ
ms_ticks milliseconds = milliseconds / 10

unfoldable pub seconds_ticks : ℕ → ℕ
seconds_ticks seconds = seconds * 100 % 2 ^ 32

unfoldable pub timer_wait_micros : ℕ → List Bool → ℕ → Option ℕ
timer_wait_micros microseconds wakes timer_ticks =
    if microseconds == 0
    then some timer_ticks
    else timer_wait (micros_ticks microseconds) wakes timer_ticks

unfoldable pub timer_wait_ms : ℕ → List Bool → ℕ → Option ℕ
timer_wait_ms milliseconds wakes timer_ticks = timer_wait (ms_ticks milliseconds) wakes timer_ticks

unfoldable pub timer_wait_seconds : ℕ → List Bool → ℕ → Option ℕ
timer_wait_seconds seconds wakes timer_ticks = timer_wait (seconds_ticks seconds) wakes timer_ticks

unfoldable pub init_timer : Sent → Sent
init_timer sent =
    let divisor : ℕ = 11932 in
    let sent = outb 0x43 0x36 sent in
    let sent = outb 0x40 (bit_and divisor 0xff) sent in
    outb 0x40 (bit_and (divisor / 2 ^ 8) 0xff) sent
