-- ===== src/Examples/UsbRuns.antt =====
-- The theorems on the USB link and on the program that tries it.
use pcan_alterative.Base.{refl, true, false, [], ◌∷◌, List, some, none}
use pcan_alterative.Base.{arith}
use pcan_alterative.Clp.Parser.{clp_parser_init}
use pcan_alterative.Link.Sender.{Heard}
use pcan_alterative.Link.Usb.{UsbLink, control_line_state}
use pcan_alterative.Link.Usb.Events.{Event, sending, can_rx_of, interrupt, usbd_message, usb_sender}
use pcan_alterative.Link.Usb.Channel.{usb_sender_laws, run-Heard}
use pcan_alterative.Examples.ClpRuns.{fd_frame, host, host-IsIdle}
use pcan_alterative.Examples.Codec.{State, wire, wire_laws}
use pcan_alterative.Examples.Store.{Bytes, ring, ring_laws, fresh}

abbrev usb : UsbLink Bytes State
usb = record {
  tx_rb = fresh 2048;
  tx_irq = false;
  rx_irq = false;
  parser = clp_parser_init wire true;
  has_tx_req_cb = true;
  connected = false;
  tx_seq = 0;
  stat_tx_frames = 0;
  stat_rx_drops = 0;
}

-- A frame before the host comes, one while it is there, and one after it has gone.
abbrev session : List (Event wire ring)
session =
    sending (can_rx_of fd_frame)
    ∷ usbd_message (control_line_state true)
    ∷ sending (can_rx_of fd_frame)
    ∷ interrupt (record { rx_ready = none; tx_ready = some 64 } ∷ [])
    ∷ usbd_message (control_line_state false)
    ∷ sending (can_rx_of fd_frame)
    ∷ []

run-Heard_example :
    Heard wire wire_laws
      (usb_sender wire ring true)
      (usb_sender_laws wire ring wire_laws ring_laws true)
      usb
      session
      host
run-Heard_example =
    run-Heard wire ring wire_laws ring_laws true session usb host (omega arith)
      (tt, (tt, (tt, ((omega arith, tt), (tt, (tt, tt)))))) refl host-IsIdle
