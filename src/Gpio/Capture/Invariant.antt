-- ===== src/Gpio/Capture/Invariant.antt =====
-- LEDs, blink timer and periodic tick follow the capture state, over any events.
use pcan_alterative.Base.{
  ℕ, ◌≡◌, Bool, true, false, not, List, [], ◌∷◌, Option, none, some, ok, arith, ◌⊎◌,
}
use pcan_alterative.Gpio.IoControl.{CaptureState, idle, logging, GpioDriver}
use pcan_alterative.Gpio.Capture.{
  System, flush_period_ms, Event, edge, request, tick, blink, boot, step, run,
}

abbrev pub is_logging : CaptureState → Bool
is_logging logging = true
is_logging idle = false

abbrev pub period_of : CaptureState → Option ℕ
period_of logging = some flush_period_ms
period_of idle = none

-- While logging the green LED is off, the blink timer and the periodic tick run; while idle the
-- green LED is on, the red one is off, and neither timer runs.
pub record IsConsistent (s : System) : Type 0 where
  pub listening : s.io.has_cb ≡ true
  pub green : s.io.led_green ≡ not (is_logging s.io.state)
  pub blinks : s.io.blinking ≡ is_logging s.io.state
  pub red : (s.io.state ≡ logging) ⊎ (s.io.led_red ≡ false)
  pub runs : s.timer.running ≡ is_logging s.io.state
  pub period : s.timer.armed ≡ period_of s.io.state
  pub tick_cb : s.timer.has_cb ≡ is_logging s.io.state

-- If the drivers accept everything, `main` sets up a consistent system.
pub boot-IsConsistent : (g : GpioDriver) {s : System} → boot g ≡ ok s → IsConsistent s
unfolding boot
boot-IsConsistent g e = ground arith

step-IsConsistent : (s : System) (e : Event) → IsConsistent s → IsConsistent (step s e).0
unfolding step
step-IsConsistent s (edge now pins) v = ground arith
step-IsConsistent s (request c) v = ground arith
step-IsConsistent s (tick now) v = ground arith
step-IsConsistent s blink v = ground arith

-- Over any events, in any order, the indication and the timers follow the capture state.
pub run-IsConsistent : (s : System) (es : List Event) → IsConsistent s → IsConsistent (run s es).0
unfolding run
run-IsConsistent s [] v = v
run-IsConsistent s (e ∷ es) v = run-IsConsistent (step s e).0 es (step-IsConsistent s e v)
