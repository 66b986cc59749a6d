-- ===== src/Gpio/Capture.antt =====
-- apps/gpio_timer/src/main.c: a change of the capture state starts or stops the periodic tick.
-- The system is the two modules' states; interrupts, requests and timer expiries are its events.
pub mod Invariant
use pcan_alterative.Base.{
  ℕ, Bool, true, false, List, [], ◌∷◌, ◌++◌, Option, none, some, Result, ok, err,
}
use pcan_alterative.Base.{◌>>=◌, if◌then◌else◌}
use pcan_alterative.Gpio.IoControl.{
  CaptureState, idle, logging, IoControl, GpioDriver, io_control_init, io_control_set_callback,
  io_control_request, button_isr, blink_expiry,
}
use pcan_alterative.Gpio.LogTimer.{LogTimer, Tick, tick_expiry, log_timer_start, log_timer_stop}

abbrev pub flush_period_ms : ℕ
flush_period_ms = 100

pub record System : Type 0 where
  pub io : IoControl
  pub timer : LogTimer

unfoldable pub on_capture_state : CaptureState → LogTimer → LogTimer
unfolding log_timer_start log_timer_stop
on_capture_state logging t = (log_timer_start flush_period_ms true t).0
on_capture_state idle t = log_timer_stop t

-- The callback's calls, in order.
unfoldable pub notify : List CaptureState → LogTimer → LogTimer
unfolding on_capture_state
notify [] t = t
notify (s ∷ ss) t = notify ss (on_capture_state s t)

-- Both modules before `main`, the static variables zero.
abbrev pub reset : System
reset = record {
  io = record {
    has_cb = false;
    state = idle;
    last_edge_ms = 0;
    led_green = false;
    led_red = false;
    blinking = false;
  };
  timer = record { has_cb = false; tick_seq = 0; running = false; armed = none };
}

-- `main` up to the registration of the callback.
unfoldable pub boot : GpioDriver → Result System
unfolding io_control_init io_control_set_callback
boot g = do
  io ← io_control_init g reset.io
  ok (record reset { io = io_control_set_callback true io })

pub data Event : Type 0 where
  -- A button interrupt at a time, with the pins of the port that caused it.
  edge : ℕ → ℕ → Event
  request : CaptureState → Event
  -- The kernel timers expire while they run: the periodic tick at a time, and the blink timer.
  tick : ℕ → Event
  blink : Event

abbrev applied : System → IoControl × List CaptureState → System
applied s (io, calls) = record { io = io; timer = notify calls s.timer }

unfoldable pub expire : Option ℕ → ℕ → LogTimer → LogTimer × List Tick
unfolding tick_expiry
expire none now t = (t, [])
expire (some period) now t = tick_expiry now t

unfoldable pub step : System → Event → System × List Tick
unfolding notify button_isr io_control_request expire blink_expiry
step s (edge now pins) = (applied s (button_isr now pins s.io), [])
step s (request c) = (applied s (io_control_request c s.io), [])
step s (tick now) = let (t, out) = expire s.timer.armed now s.timer in (record s { timer = t }, out)
step s blink = (if s.io.blinking then record s { io = blink_expiry s.io } else s, [])

unfoldable pub run : System → List Event → System × List Tick
unfolding step
run s [] = (s, [])
run s (e ∷ es) = let (s', out) = step s e in let (s'', more) = run s' es in (s'', out ++ more)
