-- ===== src/Timer/Wait.antt =====
-- How long a wait lasts.
use binbows_dos.Common.{
  ℕ, ◌+◌, ◌-◌, ◌*◌, ◌%◌, ◌^◌, ◌<◌, ◌≤◌, ◌≡◌, inl, inr, Bool, true, false, none, some, List, [], ◌∷◌,
  leb, ◌==◌, if◌then◌else◌, arith, ap, Bool-cases,
}
use binbows_dos.Timer.{
  on_irq0, wait_loop, timer_wait, micros_ticks, ms_ticks, seconds_ticks, timer_wait_ms,
}

-- The timer's interrupts in a list.
unfoldable pub count_irq0 : List Bool → ℕ
count_irq0 [] = 0
count_irq0 (is_irq0 ∷ wakes) = (if is_irq0 then 1 else 0) + count_irq0 wakes

wait_loop_lem :
    (wakes : List Bool) (n t : ℕ)
    → t + n < 2 ^ 64
    → wait_loop wakes (t + n) t ≡ (if leb n (count_irq0 wakes) then some (t + n) else none)
unfolding wait_loop count_irq0
wait_loop_lem [] n t h = ground arith
wait_loop_lem (false ∷ wakes) n t h = ground (arith, wait_loop_lem wakes n t h)
wait_loop_lem (true ∷ wakes) n t h = elim (Bool-cases (n == 0)) [
  | inl e ↦ ground arith
  | inr e ↦
      let limit : t + 1 + (n - 1) ≡ t + n = ground arith in
      let tick : on_irq0 t ≡ t + 1 = unfold on_irq0 in ground arith in
      ground (
        arith,
        tick,
        limit,
        wait_loop_lem wakes (n - 1) (t + 1) (ground arith),
        ap (λ l. wait_loop wakes l (on_irq0 t)) limit,
        ap (wait_loop wakes (t + n)) tick,
      )
]

-- If the counter does not wrap, a wait ends just when that many timer interrupts have come, whatever
-- other interrupts come between, and the counter has then gone up by just that many.
pub timer_wait_lem :
    (ticks : ℕ) (wakes : List Bool) (timer_ticks : ℕ)
    → timer_ticks + ticks < 2 ^ 64
    → timer_wait ticks wakes timer_ticks
      ≡ (if leb ticks (count_irq0 wakes) then some (timer_ticks + ticks) else none)
unfolding timer_wait
timer_wait_lem ticks wakes timer_ticks h =
    let e : (timer_ticks + ticks) % 2 ^ 64 ≡ timer_ticks + ticks = omega arith in
    rw e (wait_loop_lem wakes ticks timer_ticks h)

-- A tick is 10 ms. Up to 42949672 units, microseconds are rounded up to ticks, milliseconds are
-- rounded down, and seconds are exact.
wait_durations :
    (time : ℕ)
    → time ≤ 42949672
    → ((time ≤ micros_ticks time * 10000) × (micros_ticks time * 10000 < time + 10000))
      × ((ms_ticks time * 10 ≤ time) × (time < ms_ticks time * 10 + 10))
      × (seconds_ticks time * 10 ≡ time * 1000)
unfolding micros_ticks ms_ticks seconds_ticks
wait_durations time h = ((omega arith, omega arith), (omega arith, omega arith), omega arith)

-- `timer_wait_ms(1)`, as the disk driver calls it, returns at once.
timer_wait_ms-at_once :
    (wakes : List Bool) (timer_ticks : ℕ)
    → timer_ticks < 2 ^ 64
    → timer_wait_ms 1 wakes timer_ticks ≡ some timer_ticks
unfolding timer_wait_ms ms_ticks timer_wait wait_loop
timer_wait_ms-at_once [] timer_ticks h = ground arith
timer_wait_ms-at_once (w ∷ wakes) timer_ticks h = ground arith
