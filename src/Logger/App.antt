-- ===== src/Logger/App.antt =====
-- apps/can_logger/src/main.c: the hand-over of received frames from the interrupt to the pump
-- thread, the host's requests, the periodic status, and `main`. Everything that these functions
-- share is one record. What the kernel and the driver return, and the clock, are arguments.
pub mod Actions
pub mod Queue
pub mod Frames
pub mod OnBus
pub mod Relay
pub mod Capture
pub mod Complete
pub mod Acks
pub mod Report
pub mod Requests
pub mod Host
pub mod Boot
use pcan_alterative.Base.{
  ℕ, ◌+◌, ◌-◌, ◌%◌, ◌^◌, Bool, true, false, List, [], ◌∷◌, Option, none, some, Result, ok, err,
}
use pcan_alterative.Base.{ℤ, to_u16, to_i16, leb, ◌==◌, if◌then◌else◌}
use pcan_alterative.Zephyr.{Wire}
use pcan_alterative.Zephyr.RingBuf.{RingBuf}
use pcan_alterative.Zephyr.Can.{CanApi, MsgQueue}
use pcan_alterative.Clp.Types.{CanFrame, TxAck, Status}
use pcan_alterative.Clp.Parser.{inc32}
use pcan_alterative.Link.Uart.{
  Uart, State, clp_uart_send_can_rx, clp_uart_send_tx_ack, clp_uart_send_status,
  clp_uart_send_hello, clp_uart_get_counters, clp_uart_init, clp_uart_set_tx_handler,
}
use pcan_alterative.Logger.CanIface.{
  CanlogFrame, DriverFrame, CanCall, CanDriver, CanIface, Outcome, copied, can_iface_rx_isr,
  can_iface_send, can_iface_init, can_iface_set_rx_handler,
}
use pcan_alterative.Logger.Flags.{clp_flags_from_can, can_flags_from_clp}

-- The UART link, the module's static variables, and the two variables of `pump_thread`.
pub record App (U Q : Type 0) : Type 0 where
  pub uart : U
  pub can_rx_msgq : Q
  pub stat_rx_msgq_drops : ℕ
  pub stat_tx_requests : ℕ
  pub last_status : ℕ
  pub status_ticks : ℕ

-- What `send_status` has in its locals after `can_iface_state`.
pub record Bus : Type 0 where
  pub bus_state : ℕ
  pub tx_err_cnt : ℕ
  pub rx_err_cnt : ℕ

-- What `on_tx_request` is given: what `can_send` returns, and the time.
pub record Answer : Type 0 where
  pub ret : ℤ
  pub ticks : ℕ

-- What a round of the pump is given: the two readings of the clock, and the bus.
pub record Moment : Type 0 where
  pub now : ℕ
  pub later : ℕ
  pub bus : Bus

-- `tx` in `on_tx_request`
unfoldable pub tx_frame : CanApi → CanFrame → CanlogFrame
unfolding copied
tx_frame api req = record {
  id = req.can_id;
  dlc = req.dlc;
  flags = can_flags_from_clp api req.flags;
  bytes = copied api req.dlc req.bytes;
  timestamp = 0;
}

-- `cf` in `pump_thread`
unfoldable pub rx_message : CanApi → CanlogFrame → CanFrame
rx_message api f = record {
  can_id = f.id;
  flags = clp_flags_from_can api f.flags;
  dlc = f.dlc;
  tag = 0;
  timestamp = f.timestamp;
  bytes = f.bytes;
}

-- `ack` in `on_tx_request`
unfoldable pub tx_ack : CanFrame → Answer → TxAck
tx_ack req a = record { tag = req.tag; status = to_i16 (to_u16 a.ret); timestamp = a.ticks }

-- `ret == 0`
abbrev pub is_zero : ℤ → Bool
is_zero (ℤ.pos n) = n == 0
is_zero (ℤ.negsuc n) = false

module _ (w : Wire) (rb : RingBuf) (mq : MsgQueue CanlogFrame) (api : CanApi) where
  abbrev pub AppState : Type 0
  AppState = App (State w rb) mq.Queue

  unfoldable pub on_can_rx : AppState → CanlogFrame → AppState
  on_can_rx app frame =
      let (q, taken) = mq.put app.can_rx_msgq frame in
      record app {
        can_rx_msgq = q;
        stat_rx_msgq_drops = if taken then app.stat_rx_msgq_drops else inc32 app.stat_rx_msgq_drops;
      }

  -- The driver's interrupt, with `on_can_rx` as the handler that is registered or not.
  unfoldable pub bus_frame : CanIface → AppState → DriverFrame → ℕ → AppState
  unfolding on_can_rx can_iface_rx_isr
  bus_frame c app frame ticks = elim (can_iface_rx_isr api c frame ticks) [
    | none ↦ app
    | some f ↦ on_can_rx app f
  ]

  -- The new state, and what `can_send` is called with.
  unfoldable pub on_tx_request : AppState → CanFrame → Answer → AppState × Result DriverFrame
  unfolding tx_frame tx_ack can_iface_send
  on_tx_request app req a =
      let count = if is_zero a.ret then inc32 app.stat_tx_requests else app.stat_tx_requests in
      (
        record app {
          uart = (clp_uart_send_tx_ack w rb app.uart (tx_ack req a)).0;
          stat_tx_requests = count;
        },
        can_iface_send api (some (tx_frame api req)),
      )

  -- `st` in `send_status`
  unfoldable pub current_status : AppState → Bus → Status
  unfolding clp_uart_get_counters
  current_status app bus =
      let (tx_frames, tx_drops, crc_err, frm_err) = clp_uart_get_counters w rb app.uart in
      record {
        bus_state = bus.bus_state;
        rx_frames = tx_frames;
        tx_frames = app.stat_tx_requests;
        rx_drops = (tx_drops + app.stat_rx_msgq_drops) % 2 ^ 32;
        tx_err_cnt = bus.tx_err_cnt;
        rx_err_cnt = bus.rx_err_cnt;
      }

  unfoldable pub send_status : AppState → Bus → AppState
  unfolding current_status
  send_status app bus = record app {
    uart = (clp_uart_send_status w rb app.uart (current_status app bus)).0;
  }

  -- What the pump does with what it has taken from the queue.
  unfoldable pub pump_frame : AppState → Option CanlogFrame → AppState
  unfolding rx_message
  pump_frame app none = app
  pump_frame app (some f) = record app {
    uart = (clp_uart_send_can_rx w rb app.uart (rx_message api f)).0;
  }

  -- `++status_ticks % 5U == 0U`
  unfoldable pub announce : AppState → AppState
  announce app =
      let app' : AppState = record app { status_ticks = inc32 app.status_ticks } in
      if app'.status_ticks % 5 == 0
      then record app' { uart = clp_uart_send_hello w rb app'.uart }
      else app'

  unfoldable pub pump_status : AppState → Moment → AppState
  unfolding send_status announce
  pump_status app t =
      if leb 1000 (t.now - app.last_status)
      then announce (send_status (record app { last_status = t.later }) t.bus)
      else app

  -- One round of the loop of `pump_thread`, and the frame that it has taken from the queue.
  unfoldable pub pump_round : AppState → Moment → AppState × Option CanlogFrame
  unfolding pump_frame pump_status
  pump_round app t =
      let (q, got) = mq.get app.can_rx_msgq in
      (pump_status (pump_frame (record app { can_rx_msgq = q }) got) t, got)

  -- What `main` leaves: whether the handlers are registered and the pump runs is part of it.
  pub record Booted : Type 0 where
    pub can : CanIface
    pub app : AppState
    pub calls : List CanCall
    pub pumping : Bool

  -- The part of `main` behind `can_iface_init`.
  unfoldable pub with_can : Bool → ℕ → CanIface → AppState → List CanCall → Booted
  unfolding can_iface_set_rx_handler clp_uart_init
  with_can ready now c app calls =
      let c' = can_iface_set_rx_handler true c in
      let (u, ret) = clp_uart_init w rb ready app.uart in
      elim ret [
        | err e ↦ record { can = c'; app = record app { uart = u }; calls = calls; pumping = false }
        | ok done ↦ record {
          can = c';
          app = record app {
            uart = clp_uart_set_tx_handler w rb u true;
            last_status = now;
            status_ticks = 0;
          };
          calls = calls;
          pumping = true;
        }
      ]

  unfoldable pub after_init : Bool → ℕ → AppState → Outcome → Booted
  unfolding with_can
  after_init ready now app (c, calls, err e) = record {
    can = c;
    app = app;
    calls = calls;
    pumping = false;
  }
  after_init ready now app (c, calls, ok done) = with_can ready now c app calls

  -- `ready` is whether the console UART is, `now` the time at which the pump thread starts.
  unfoldable pub main : CanDriver → Bool → ℕ → CanIface → AppState → Booted
  unfolding after_init can_iface_init
  main g ready now c app = after_init ready now app (can_iface_init g c)
