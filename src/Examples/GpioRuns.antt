-- ===== src/Examples/GpioRuns.antt =====
-- The theorems on the capture control, at concrete states.
use pcan_alterative.Base.{◌≡◌, refl, List, [], ◌∷◌, arith, true, false, none, ok}
use pcan_alterative.Base.{inr}
use pcan_alterative.Gpio.IoControl.{
  idle, logging, IoControl, GpioDriver, btn_start, btn_stop, button_isr,
}
use pcan_alterative.Gpio.IoControl.Debounce.{stop_lost_after_start}
use pcan_alterative.Gpio.LogTimer.{LogTimer}
use pcan_alterative.Gpio.Capture.{System, Event, edge, tick, boot, run}
use pcan_alterative.Gpio.Capture.Invariant.{IsConsistent, run-IsConsistent}

abbrev ready_driver : GpioDriver
ready_driver = record {
  green_ready = true;
  red_ready = true;
  start_ready = true;
  stop_ready = true;
  configure_green = ok tt;
  configure_red = ok tt;
  configure_start = ok tt;
  configure_stop = ok tt;
  interrupt_start = ok tt;
  interrupt_stop = ok tt;
  add_callback = ok tt;
}

abbrev idle_io : IoControl
idle_io = record {
  has_cb = true;
  state = idle;
  last_edge_ms = 0;
  led_green = true;
  led_red = false;
  blinking = false;
}

abbrev stopped : LogTimer
stopped = record { has_cb = false; tick_seq = 0; running = false; armed = none }

abbrev booted : System
booted = record { io = idle_io; timer = stopped }

boot_ready : boot ready_driver ≡ ok booted
unfolding boot
boot_ready = refl

booted-IsConsistent : IsConsistent booted
booted-IsConsistent = record {
  listening = refl;
  green = refl;
  blinks = refl;
  red = inr refl;
  runs = refl;
  period = refl;
  tick_cb = refl;
}

abbrev presses : List Event
presses = edge 50 btn_start ∷ tick 60 ∷ edge 200 btn_stop ∷ []

run-IsConsistent_example : IsConsistent (run booted presses).0
run-IsConsistent_example = run-IsConsistent booted presses booted-IsConsistent

stop_lost_after_start_example :
    let (io', calls) = button_isr 50 btn_start idle_io in
    (io'.state ≡ logging) × (button_isr 80 btn_stop io' ≡ (io', []))
stop_lost_after_start_example =
    stop_lost_after_start 50 80 idle_io (omega arith) (omega arith) (omega arith)
