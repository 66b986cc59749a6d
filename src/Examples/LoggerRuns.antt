-- ===== src/Examples/LoggerRuns.antt =====
-- The theorems on the CAN logger, at a codec, a ring, a queue and a driver that can be run.
use pcan_alterative.Base.{refl, ◌≡◌, List, [], ◌∷◌, arith, some, ok, true, false, map, negsuc}
use pcan_alterative.Link.Uart.{Uart, Pass, uart_isr}
use pcan_alterative.Link.Uart.Channel.{can_rx_of, hello_now}
use pcan_alterative.Link.Uart.Service.{uart_isr-empties}
use pcan_alterative.Link.Uart.Refine.{Event, sending, interrupt, run, Channel, run-Channel}
use pcan_alterative.Link.Usb.Device.{
  UsbStack, usb_cdc_init_usbd, whole_setup, reply, usb_cdc_init_usbd-attempt,
}
use pcan_alterative.Logger.CanIface.{CanlogFrame, CanDriver, can_iface_init, can_iface_send}
use pcan_alterative.Logger.CanIface.Start.{with_ids, SetUp, can_iface_init-SetUp}
use pcan_alterative.Logger.App.{App, tx_frame}
use pcan_alterative.Logger.App.Actions.{pumps, work}
use pcan_alterative.Logger.Wanted.{masked}
use pcan_alterative.Zephyr.Calls.{attempt}
use pcan_alterative.Logger.App.Relay.{Sends, Relayed, work-Relayed, pumps-Sends}
use pcan_alterative.Logger.App.Requests.{heard, request_heard}
use pcan_alterative.Examples.ClpRuns.{zeros, fd_frame, fd_frame-IsCanFrame}
use pcan_alterative.Examples.Codec.{State, wire, wire_laws}
use pcan_alterative.Examples.Store.{Bytes, ring, ring_laws}
use pcan_alterative.Examples.Kernel.{msgq, msgq_laws, can_api, can_api_laws}
use pcan_alterative.Examples.Stage.{link, logger, can, chunk, moment, story, story-IsProper}

work-Relayed_example :
    Relayed wire ring msgq can_api can wire_laws msgq_laws logger story
      (work wire ring msgq can_api can logger story)
work-Relayed_example =
    work-Relayed wire ring msgq can_api can wire_laws msgq_laws story logger story-IsProper refl
      (omega arith)

pumps-Sends_example :
    let f : CanlogFrame = record { id = 1; dlc = 0; flags = 0; bytes = zeros; timestamp = 0 } in
    let app : App (Uart Bytes State) (List CanlogFrame) = record logger {
      can_rx_msgq = f ∷ f ∷ [];
    } in
    let result = work wire ring msgq can_api can app (map pumps (moment ∷ moment ∷ [])) in
    Sends wire ring msgq can_api can wire_laws msgq_laws app (f ∷ f ∷ []) result
    × (result.0.can_rx_msgq ≡ [])
pumps-Sends_example =
    let f : CanlogFrame = record { id = 1; dlc = 0; flags = 0; bytes = zeros; timestamp = 0 } in
    pumps-Sends wire ring msgq can_api can wire_laws msgq_laws (moment ∷ moment ∷ [])
      (record logger { can_rx_msgq = f ∷ f ∷ [] }) (omega arith)

abbrev events : List Event
events = sending (can_rx_of fd_frame) ∷ interrupt (chunk ∷ []) ∷ sending hello_now ∷ []

run-Channel_example : Channel wire ring wire_laws ring_laws link events (run wire ring link events)
run-Channel_example =
    run-Channel wire ring wire_laws ring_laws events link (omega arith)
      (tt, ((omega arith, tt), (tt, tt)))

uart_isr-empties_example :
    let u : Uart Bytes State = record link {
      tx_rb = record { cap = 100; items = 1 ∷ 2 ∷ []; held = omega arith };
    } in
    let byte : Pass = record { rx_ready = some (0 ∷ []); tx_ready = some 1 } in
    (uart_isr wire ring u (byte ∷ byte ∷ [])).0.tx_rb.items ≡ []
uart_isr-empties_example =
    let byte : Pass = record { rx_ready = some (0 ∷ []); tx_ready = some 1 } in
    uart_isr-empties wire ring ring_laws (byte ∷ byte ∷ [])
      (record link { tx_rb = record { cap = 100; items = 1 ∷ 2 ∷ []; held = omega arith } })
      (omega arith, (omega arith, tt)) (omega arith)

request_heard_example :
    heard can_api [] (can_iface_send can_api (some (tx_frame can_api fd_frame))) 77
    ≡ some (record fd_frame {
      flags = 3;
      tag = 0;
      timestamp = 77;
      bytes = masked (can_api.can_dlc_to_bytes 9) zeros;
    })
request_heard_example = request_heard can_api [] fd_frame 77 can_api_laws fd_frame-IsCanFrame

-- A driver that accepts everything.
abbrev driver : CanDriver
driver = record {
  ready = true;
  capabilities = ok true;
  set_mode = ok tt;
  add_filter = λ f. ok f.id;
  start = ok tt;
}

can_iface_init-SetUp_example :
    SetUp driver false
      (can_iface_init driver (with_ids false (negsuc 0 ∷ negsuc 0 ∷ negsuc 0 ∷ [])))
can_iface_init-SetUp_example = can_iface_init-SetUp driver false (negsuc 0) (negsuc 0) (negsuc 0)

abbrev stack : UsbStack
stack = record {
  answer = λ c. ok tt;
  has_hwinfo = true;
  supports_high_speed = true;
  caps_high_speed = false;
}

usb_cdc_init_usbd-attempt_example :
    usb_cdc_init_usbd stack true ≡ attempt (reply stack) (whole_setup stack true)
usb_cdc_init_usbd-attempt_example = usb_cdc_init_usbd-attempt stack true
