-- ===== src/Gpio/IoControl.antt =====
-- apps/gpio_timer/src/io_control.c. The module's static variables, the pins of its two LEDs and
-- whether its blink timer runs are one record. A function that may call `user_cb` returns beside
-- the new record the states that it called it with.
pub mod Debounce
use pcan_alterative.Base.{
  ℕ, ◌+◌, Bool, true, false, not, ◌&&◌, List, [], ◌∷◌, Result, ok, err, enodev,
}
use pcan_alterative.Base.{ltb, if◌then◌else◌, ◌>>=◌, ◌>>◌, bit_and, ◌==◌}

-- `enum capture_state`
pub data CaptureState : Type 0 where
  idle logging : CaptureState

abbrev pub same : CaptureState → CaptureState → Bool
same idle idle = true
same logging logging = true
same _ _ = false

pub record IoControl : Type 0 where
  pub has_cb : Bool
  pub state : CaptureState
  pub last_edge_ms : ℕ
  pub led_green : Bool
  pub led_red : Bool
  pub blinking : Bool

abbrev pub debounce_ms : ℕ
debounce_ms = 40

-- The expiry of the blink timer toggles the red LED.
unfoldable pub blink_expiry : IoControl → IoControl
blink_expiry io = record io { led_red = not io.led_red }

unfoldable pub apply_indication : CaptureState → IoControl → IoControl
apply_indication logging io = record io { led_green = false; led_red = true; blinking = true }
apply_indication idle io = record io { blinking = false; led_red = false; led_green = true }

unfoldable pub set_state : CaptureState → IoControl → IoControl × List CaptureState
unfolding apply_indication
set_state s io =
    if same s io.state
    then (io, [])
    else (apply_indication s (record io { state = s }), if io.has_cb then s ∷ [] else [])

-- Pins 9 (S1, start) and 8 (S2, stop) of the port, as bits of `pins`.
abbrev pub btn_start : ℕ
btn_start = 0x200

abbrev pub btn_stop : ℕ
btn_stop = 0x100

-- `now` is k_uptime_get(). `(now - last_edge_ms) < DEBOUNCE_MS` is a comparison of signed numbers,
-- here with the sum on the right. The time of the edge is stored whichever button it was.
unfoldable pub button_isr : ℕ → ℕ → IoControl → IoControl × List CaptureState
unfolding set_state
button_isr now pins io =
    let io' : IoControl = record io { last_edge_ms = now } in
    if ltb now (io.last_edge_ms + debounce_ms)
    then (io, [])
    else if not (bit_and pins btn_start == 0)
    then set_state logging io'
    else if not (bit_and pins btn_stop == 0)
    then set_state idle io'
    else (io', [])

-- What the GPIO driver returns to each call of `io_control_init`.
pub record GpioDriver : Type 0 where
  pub green_ready : Bool
  pub red_ready : Bool
  pub start_ready : Bool
  pub stop_ready : Bool
  pub configure_green : Result (Unit {0})
  pub configure_red : Result (Unit {0})
  pub configure_start : Result (Unit {0})
  pub configure_stop : Result (Unit {0})
  pub interrupt_start : Result (Unit {0})
  pub interrupt_stop : Result (Unit {0})
  pub add_callback : Result (Unit {0})

abbrev pub require : Bool → Result (Unit {0})
require true = ok tt
require false = err enodev

unfoldable pub io_control_init : GpioDriver → IoControl → Result IoControl
unfolding apply_indication
io_control_init g io = do
  require (g.green_ready && g.red_ready)
  require (g.start_ready && g.stop_ready)
  g.configure_green
  g.configure_red
  g.configure_start
  g.configure_stop
  g.interrupt_start
  g.interrupt_stop
  g.add_callback
  ok (apply_indication idle (record io { state = idle }))

unfoldable pub io_control_set_callback : Bool → IoControl → IoControl
io_control_set_callback has_cb io = record io { has_cb = has_cb }

unfoldable pub io_control_get_state : IoControl → CaptureState
io_control_get_state io = io.state

unfoldable pub io_control_request : CaptureState → IoControl → IoControl × List CaptureState
unfolding set_state
io_control_request desired io = set_state desired io
