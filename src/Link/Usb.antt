-- ===== src/Link/Usb.antt =====
-- apps/usb_cdc/src/usb_link.c: the CLP protocol on a USB CDC-ACM device. A frame is queued only
-- while a host is connected, and the interrupt handler feeds the parser itself.
pub mod Session
pub mod Device
pub mod Push
pub mod Service
pub mod Events
pub mod Channel
pub mod Main
use pcan_alterative.Base.{
  ℕ, ◌+◌, ◌%◌, Bool, true, false, not, ◌&&◌, List, [], ◌∷◌, ◌++◌, Option, none, some,
}
use pcan_alterative.Base.{Result, ok, err, enotconn, enospc, enodev, ◌==◌, ltb, if◌then◌else◌, ◌>>◌}
use pcan_alterative.Zephyr.{Wire}
use pcan_alterative.Zephyr.RingBuf.{RingBuf}
use pcan_alterative.Clp.Types.{clp_max_wire, can_rx, can_tx, code, CanFrame, TxAck, Status}
use pcan_alterative.Clp.Encode.{
  clp_encode_can_frame, clp_encode_tx_ack, clp_encode_status, clp_encode_hello,
}
use pcan_alterative.Clp.Decode.{clp_decode_can_frame}
use pcan_alterative.Clp.Parser.{Message, Parser, inc32, clp_parser_init, clp_parser_feed}
use pcan_alterative.Link.Ring.{push_all, tx_service}

-- "usb_cdc phase-2c v0.1"
abbrev pub usb_link_fw_version : List ℕ
usb_link_fw_version =
    b'u' ∷ b's' ∷ b'b' ∷ b'_' ∷ b'c' ∷ b'd' ∷ b'c' ∷ b' ' ∷ b'p' ∷ b'h' ∷ b'a' ∷ b's' ∷ b'e' ∷ b'-'
    ∷ b'2' ∷ b'c' ∷ b' ' ∷ b'v' ∷ b'0' ∷ b'.' ∷ b'1' ∷ []

-- The module's static variables; `tx_irq` and `rx_irq` are the interrupt enables of the device.
pub record UsbLink (R D : Type 0) : Type 0 where
  pub tx_rb : R
  pub tx_irq : Bool
  pub rx_irq : Bool
  pub parser : Parser D
  pub has_tx_req_cb : Bool
  pub connected : Bool
  pub tx_seq : ℕ
  pub stat_tx_frames : ℕ
  pub stat_rx_drops : ℕ

-- The USB stack's messages that `usbd_msg_cb` tells apart; a control-line message has the DTR.
pub data UsbdMsg : Type 0 where
  vbus_ready vbus_removed other_msg : UsbdMsg
  control_line_state : Bool → UsbdMsg

-- The calls into the USB stack.
pub data UsbdCall : Type 0 where
  usbd_enable usbd_disable : UsbdCall

unfoldable pub vbus_calls : Bool → UsbdMsg → List UsbdCall
vbus_calls can_detect_vbus msg =
    let calls : List UsbdCall = elim msg [
      | vbus_ready ↦ usbd_enable ∷ []
      | vbus_removed ↦ usbd_disable ∷ []
      | other_msg ↦ []
      | control_line_state dtr ↦ []
    ] in
    if can_detect_vbus then calls else []

module _ (w : Wire) where
  -- The requests that the registered handler is called with for one message.
  unfoldable pub requests_of : Result CanFrame → List CanFrame
  requests_of (ok req) = req ∷ []
  requests_of (err e) = []

  unfoldable pub on_clp_frame : Bool → Message → List CanFrame
  unfolding requests_of
  on_clp_frame has_cb m =
      if m.type == code can_tx
      then if has_cb then requests_of (clp_decode_can_frame w m.payload) else []
      else []

  unfoldable pub on_clp_frames : Bool → List Message → List CanFrame
  unfolding on_clp_frame
  on_clp_frames has_cb [] = []
  on_clp_frames has_cb (m ∷ ms) = on_clp_frame has_cb m ++ on_clp_frames has_cb ms

module _ (w : Wire) (rb : RingBuf) where
  abbrev pub State : Type 0
  State = UsbLink rb.Ring w.Decoder

  unfoldable pub tx_push : State → List ℕ → State × Result (Unit {0})
  tx_push u wire =
      let (r, all) = push_all rb u.tx_rb wire in
      if not u.connected
      then (u, err enotconn)
      else if all
      then (record u { tx_rb = r; tx_irq = true }, ok tt)
      else (record u { tx_rb = r; stat_rx_drops = inc32 u.stat_rx_drops }, err enospc)

  -- `tx_seq++` on a `uint8_t`
  abbrev pub next_seq : State → State
  next_seq u = record u { tx_seq = (u.tx_seq + 1) % 256 }

  -- An encoder's result, pushed if it is no error.
  unfoldable pub push_encoded : State → Result (List ℕ) → State × Result (Unit {0})
  unfolding tx_push
  push_encoded u (ok wire) = tx_push u wire
  push_encoded u (err e) = (u, err e)

  unfoldable pub count_frame : State × Result (Unit {0}) → State × Result (Unit {0})
  count_frame (u, ok x) = (record u { stat_tx_frames = inc32 u.stat_tx_frames }, ok x)
  count_frame (u, err e) = (u, err e)

  unfoldable pub usb_link_send_can_rx : State → CanFrame → State × Result (Unit {0})
  unfolding push_encoded count_frame
  usb_link_send_can_rx u f =
      count_frame
        (push_encoded (next_seq u) (clp_encode_can_frame w can_rx u.tx_seq f clp_max_wire))

  unfoldable pub usb_link_send_tx_ack : State → TxAck → State × Result (Unit {0})
  unfolding push_encoded
  usb_link_send_tx_ack u ack =
      push_encoded (next_seq u) (clp_encode_tx_ack w u.tx_seq ack clp_max_wire)

  unfoldable pub usb_link_send_status : State → Status → State × Result (Unit {0})
  unfolding push_encoded
  usb_link_send_status u st =
      push_encoded (next_seq u) (clp_encode_status w u.tx_seq st clp_max_wire)

  -- `if (n > 0)`: an encoding of no bytes is not pushed.
  unfoldable pub push_positive : State → Result (List ℕ) → State
  unfolding tx_push
  push_positive u (ok []) = u
  push_positive u (ok (b ∷ bs)) = (tx_push u (b ∷ bs)).0
  push_positive u (err e) = u

  unfoldable pub send_hello : State → State
  unfolding push_positive
  send_hello u =
      push_positive (next_seq u)
        (clp_encode_hello w u.tx_seq (some usb_link_fw_version) clp_max_wire)

  -- One round of `cdc_isr`: what the FIFO gives if it is ready to be read, and how much it takes
  -- if it is ready to be filled.
  pub record Pass : Type 0 where
    pub rx_ready : Option (List ℕ)
    pub tx_ready : Option ℕ

  unfoldable pub rx_branch : State → Option (List ℕ) → State × List CanFrame
  rx_branch u none = (u, [])
  rx_branch u (some bytes) =
      let (p, ms) = clp_parser_feed w u.parser bytes in
      (record u { parser = p }, on_clp_frames w u.has_tx_req_cb ms)

  unfoldable pub tx_branch : State → Option ℕ → State × List ℕ
  tx_branch u none = (u, [])
  tx_branch u (some accepts) =
      let (r, sent, enabled) = tx_service rb u.tx_rb accepts in
      (record u { tx_rb = r; tx_irq = if enabled then u.tx_irq else false }, sent)

  -- The list is the rounds while an interrupt is pending; the result has the bytes sent and the
  -- requests handed to the handler.
  unfoldable pub cdc_isr : State → List Pass → State × List ℕ × List CanFrame
  unfolding rx_branch tx_branch
  cdc_isr u [] = (u, [], [])
  cdc_isr u (p ∷ ps) =
      let (u', requests) = rx_branch u p.rx_ready in
      let (u'', sent) = tx_branch u' p.tx_ready in
      let (u''', more_sent, more) = cdc_isr u'' ps in (u''', sent ++ more_sent, requests ++ more)

  -- The CONTROL_LINE_STATE part: `atomic_set` returns the value before.
  unfoldable pub on_line_state : State → Bool → State
  unfolding send_hello
  on_line_state u dtr =
      if dtr
      then if u.connected
        then u
        else record (send_hello (record u { connected = true })) { rx_irq = true }
      else record u { connected = false }

  unfoldable pub usbd_msg_cb : Bool → State → UsbdMsg → State × List UsbdCall
  unfolding on_line_state vbus_calls
  usbd_msg_cb can_detect_vbus u msg =
      let u' : State = elim msg [
        | vbus_ready ↦ u
        | vbus_removed ↦ u
        | other_msg ↦ u
        | control_line_state dtr ↦ on_line_state u dtr
      ] in
      (u', vbus_calls can_detect_vbus msg)

  unfoldable pub usb_link_set_tx_handler : State → Bool → State
  usb_link_set_tx_handler u has_cb = record u { has_tx_req_cb = has_cb }

  abbrev pub usb_link_connected : State → Bool
  usb_link_connected u = u.connected

  -- tx_frames, rx_drops, crc_errors, framing_errors
  unfoldable pub usb_link_get_counters : State → ℕ × ℕ × ℕ × ℕ
  usb_link_get_counters u =
      (u.stat_tx_frames, u.stat_rx_drops, u.parser.crc_errors, u.parser.framing_errors)

  -- `usbd` says whether `usb_cdc_init_usbd` gave a context, and `enabled` is the result of
  -- `usbd_enable`.
  unfoldable pub usb_link_init :
      (ready usbd can_detect_vbus : Bool) → Result (Unit {0}) → State → State × Result (Unit {0})
  usb_link_init ready usbd can_detect_vbus enabled u =
      let u' : State = record u { parser = clp_parser_init w true } in
      if ready
      then if usbd
        then (
          record u' { rx_irq = false; tx_irq = false },
          if can_detect_vbus then ok tt else enabled,
        )
        else (u', err enodev)
      else (u, err enodev)
