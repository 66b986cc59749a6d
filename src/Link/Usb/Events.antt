-- ===== src/Link/Usb/Events.antt =====
-- What can happen to the USB link, and what it is asked to send then.
use pcan_alterative.Base.{ℕ, ◌+◌, ◌%◌, ◌≡◌, Bool, true, false}
use pcan_alterative.Base.{List, [], ◌∷◌, some, ok, length-append, All, arith}
use pcan_alterative.Base.{if◌then◌else◌}
use pcan_alterative.Zephyr.{Wire, WireLaws}
use pcan_alterative.Zephyr.RingBuf.{RingBuf}
use pcan_alterative.Clp.Types.{
  clp_max_wire, clp_max_payload, can_rx, can_tx_ack, status, hello, CanFrame, TxAck, Status,
}
use pcan_alterative.Clp.Encode.{
  can_payload, tx_ack_payload, status_payload, hello_payload, clp_encode_raw,
}
use pcan_alterative.Clp.Encode.Framing.{wire_of, clp_encode_raw-fits}
use pcan_alterative.Clp.EndToEnd.{length-tx_ack_payload, length-status_payload}
use pcan_alterative.Clp.Parser.Stream.{Outgoing, FitsWire}
use pcan_alterative.Link.Sender.{Sender}
use pcan_alterative.Link.Uart.Channel.{length-can_payload_le}
use pcan_alterative.Link.Usb.{
  State, UsbdMsg, vbus_ready, vbus_removed, other_msg, control_line_state, Pass,
  usb_link_send_can_rx, usb_link_send_tx_ack, usb_link_send_status, cdc_isr, usbd_msg_cb,
  usb_link_fw_version,
}
use pcan_alterative.Link.Usb.Service.{TakesChunk}

-- A call of one of the functions that send.
pub data Send : Type 0 where
  can_rx_of : CanFrame → Send
  tx_ack_of : TxAck → Send
  status_of : Status → Send

-- What happens to the link: a call, a run of the interrupt handler, a message of the USB stack.
pub data Event (w : Wire) (rb : RingBuf) : Type 0 where
  sending : Send → Event w rb
  interrupt : List (Pass w rb) → Event w rb
  usbd_message : UsbdMsg → Event w rb

-- The message that a call is to send under a sequence number.
abbrev pub message : Wire → ℕ → Send → Outgoing
message w seq (can_rx_of f) = record { type = can_rx; seq = seq; payload = can_payload w f }
message w seq (tx_ack_of a) = record { type = can_tx_ack; seq = seq; payload = tx_ack_payload w a }
message w seq (status_of s) = record { type = status; seq = seq; payload = status_payload w s }

abbrev pub hello_message : Wire → ℕ → Outgoing
hello_message w seq = record {
  type = hello;
  seq = seq;
  payload = hello_payload w (some usb_link_fw_version);
}

-- The next sequence number, and whether a host is connected.
abbrev pub View : Type 0
View = ℕ × Bool

-- A host that is not there is asked nothing, and one that comes is greeted.
abbrev pub asked : (w : Wire) (rb : RingBuf) → View → Event w rb → View × List Outgoing
asked w rb (seq, here) (sending s) =
    (((seq + 1) % 256, here), if here then message w seq s ∷ [] else [])
asked w rb (seq, here) (interrupt ps) = ((seq, here), [])
asked w rb (seq, here) (usbd_message vbus_ready) = ((seq, here), [])
asked w rb (seq, here) (usbd_message vbus_removed) = ((seq, here), [])
asked w rb (seq, here) (usbd_message other_msg) = ((seq, here), [])
asked w rb (seq, true) (usbd_message (control_line_state true)) = ((seq, true), [])
asked w rb (seq, false) (usbd_message (control_line_state true)) =
    (((seq + 1) % 256, true), hello_message w seq ∷ [])
asked w rb (seq, here) (usbd_message (control_line_state false)) = ((seq, false), [])

module _ (w : Wire) (rb : RingBuf) (can_detect_vbus : Bool) where
  abbrev pub send : State w rb → Send → State w rb
  send u (can_rx_of f) = (usb_link_send_can_rx w rb u f).0
  send u (tx_ack_of a) = (usb_link_send_tx_ack w rb u a).0
  send u (status_of s) = (usb_link_send_status w rb u s).0

  unfoldable pub step : State w rb → Event w rb → State w rb × List ℕ
  step u (sending s) = (send u s, [])
  step u (interrupt ps) = let (u', sent, requests) = cdc_isr w rb u ps in (u', sent)
  step u (usbd_message m) = ((usbd_msg_cb w rb can_detect_vbus u m).0, [])

  abbrev pub usb_sender : Sender
  usb_sender = record {
    State = State w rb;
    View = View;
    Event = Event w rb;
    step = step;
    view = λ u. (u.tx_seq, u.connected);
    asked = asked w rb;
    drops = λ u. u.stat_rx_drops;
  }

-- Every interrupt finds a FIFO that takes whole chunks.
abbrev pub InChunks : (w : Wire) (rb : RingBuf) → Event w rb → Type 0
InChunks w rb (sending s) = Unit
InChunks w rb (interrupt ps) = All (TakesChunk w rb) ps
InChunks w rb (usbd_message m) = Unit

module _ (w : Wire) (wl : WireLaws w) where
  pub message-FitsWire : (seq : ℕ) (s : Send) → FitsWire (message w seq s)
  message-FitsWire seq (can_rx_of f) = length-can_payload_le w wl f
  message-FitsWire seq (tx_ack_of a) = omega (arith, length-tx_ack_payload w wl.order_laws a)
  message-FitsWire seq (status_of s) = omega (arith, length-status_payload w wl.order_laws s)

  pub hello-FitsWire : (seq : ℕ) → FitsWire (hello_message w seq)
  unfolding hello_payload
  hello-FitsWire seq = omega (
    arith,
    length-append (w.put_le16 clp_max_payload) usb_link_fw_version,
    wl.order_laws.le16.length_put clp_max_payload,
  )

  pub encoded :
      (seq : ℕ) (s : Send)
      → let o = message w seq s in
        clp_encode_raw w o.type o.seq o.payload clp_max_wire
        ≡ ok (wire_of w wl o.type o.seq o.payload)
  encoded seq s =
      let o = message w seq s in
      clp_encode_raw-fits w wl o.type o.seq o.payload clp_max_wire (message-FitsWire seq s)
        (omega arith)
