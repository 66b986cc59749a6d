-- ===== src/Link/Usb/Main.antt =====
-- apps/usb_cdc/src/main.c: what runs behind the self-test of the protocol, which is Clp.SelfTest.
-- Interrupts and the USB stack may come in between; the handler of requests has no state.
pub mod Start
use pcan_alterative.Base.{ℕ, Bool, true, false, List, [], ◌∷◌, ◌++◌, Option, none, some, Result, ok}
use pcan_alterative.Base.{err, replicate, bytes_from}
use pcan_alterative.Zephyr.{Wire}
use pcan_alterative.Zephyr.RingBuf.{RingBuf}
use pcan_alterative.Clp.Types.{CanFrame}
use pcan_alterative.Clp.SelfTest.{clp_selftest}
use pcan_alterative.Link.Sender.{run_events}
use pcan_alterative.Link.Usb.{
  State, usb_link_init, usb_link_set_tx_handler, usb_link_send_can_rx, usb_link_get_counters,
}
use pcan_alterative.Link.Usb.Events.{Event, usb_sender}

-- What the platform answers during the set-up.
pub record Platform : Type 0 where
  pub ready : Bool
  pub usbd : Bool
  pub can_detect_vbus : Bool
  pub enabled : Result (Unit {0})

-- `live`
abbrev pub live_frame : ℕ → CanFrame
live_frame ticks = record {
  can_id = 0x123;
  flags = 3;
  dlc = 8;
  tag = 0;
  timestamp = ticks;
  bytes = bytes_from 8 0 ++ replicate 56 0;
}

-- How `main` ends: early, or with what the send returned and the four counters.
pub data End : Type 0 where
  stopped : End
  tried : Result (Unit {0}) → ℕ × ℕ × ℕ × ℕ → End

module _ (w : Wire) (rb : RingBuf) (env : Platform) where
  -- From the send on; `sent` is the bytes that the device has sent before.
  unfoldable pub try_live : ℕ → State w rb × List ℕ → State w rb × List ℕ × End
  unfolding usb_link_send_can_rx usb_link_get_counters
  try_live ticks (u, sent) =
      let (u', result) = usb_link_send_can_rx w rb u (live_frame ticks) in
      (u', sent, tried result (usb_link_get_counters w rb u'))

  -- From the result of the set-up on; `between` is what happens before the send.
  unfoldable pub after_init :
      ℕ → List (Event w rb) → State w rb × Result (Unit {0}) → State w rb × List ℕ × End
  unfolding try_live usb_link_set_tx_handler
  after_init ticks between (u, err e) = (u, [], stopped)
  after_init ticks between (u, ok done) = try_live ticks (
      run_events (usb_sender w rb env.can_detect_vbus) (usb_link_set_tx_handler w rb u true)
        between)

  -- From the verdict of the self-test on; `none` is a self-test without one.
  unfoldable pub after_selftest :
      ℕ → List (Event w rb) → State w rb → Option Bool → Option (State w rb × List ℕ × End)
  unfolding after_init usb_link_init
  after_selftest ticks between u none = none
  after_selftest ticks between u (some false) = some (u, [], stopped)
  after_selftest ticks between u (some true) = some (
      after_init ticks between
        (usb_link_init w rb env.ready env.usbd env.can_detect_vbus env.enabled u))

  unfoldable pub main : ℕ → List (Event w rb) → State w rb → Option (State w rb × List ℕ × End)
  unfolding after_selftest clp_selftest
  main ticks between u = after_selftest ticks between u (clp_selftest w)
