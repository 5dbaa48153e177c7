-- ===== src/Timer/Tests.antt =====
-- Runs of the timer.
use binbows_dos.Common.{◌≡◌, refl, true, false, some, List, [], ◌∷◌, Bool, arith}
use binbows_dos.Timer.{wait_loop, timer_wait, timer_wait_ms, ms_ticks, init_timer}
use binbows_dos.Timer.Wait.{count_irq0, timer_wait_lem}

-- Two timer interrupts, with another between them.
abbrev wakes : List Bool
wakes = true ∷ false ∷ true ∷ []

timer_wait_lem_example : timer_wait 2 wakes 100 ≡ some 102
unfolding count_irq0
timer_wait_lem_example = timer_wait_lem 2 wakes 100 (omega arith)

-- Less than 10 ms are no wait at all.
short_wait : timer_wait_ms 9 [] 100 ≡ some 100
unfolding timer_wait_ms timer_wait wait_loop ms_ticks
short_wait = refl

timer_set : init_timer [] ≡ (0x43, 0x36) ∷ (0x40, 0x9c) ∷ (0x40, 0x2e) ∷ []
unfolding init_timer
timer_set = refl
