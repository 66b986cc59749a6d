-- ===== src/Link/Uart.antt =====
-- apps/can_logger/src/clp_uart.c: the CLP protocol on a hardware UART. The module's static
-- variables are one record; a function returns the new record beside its result.
pub mod Send
pub mod Receive
pub mod Channel
pub mod Service
pub mod Refine
use pcan_alterative.Base.{
  ℕ, zero, suc, ◌+◌, ◌%◌, ◌^◌, Bool, true, false, List, [], ◌∷◌, ◌++◌, Option,
}
use pcan_alterative.Base.{
  none, some, Result, ok, err, enospc, enodev, ◌==◌, ltb, if◌then◌else◌, length,
}
use pcan_alterative.Zephyr.{Wire}
use pcan_alterative.Zephyr.RingBuf.{RingBuf}
use pcan_alterative.Clp.Types.{clp_max_wire, can_rx, can_tx, code, CanFrame, TxAck, Status}
use pcan_alterative.Clp.Encode.{
  clp_encode_can_frame, clp_encode_tx_ack, clp_encode_status, clp_encode_hello,
}
use pcan_alterative.Clp.Decode.{clp_decode_can_frame}
use pcan_alterative.Clp.Parser.{Message, Parser, inc32, clp_parser_init, clp_parser_feed}
use pcan_alterative.Link.Ring.{push_all, tx_service, isr_chunk}

-- "can_logger clp-uart v0.1"
abbrev pub clp_uart_fw_version : List ℕ
clp_uart_fw_version =
    b'c' ∷ b'a' ∷ b'n' ∷ b'_' ∷ b'l' ∷ b'o' ∷ b'g' ∷ b'g' ∷ b'e' ∷ b'r' ∷ b' ' ∷ b'c' ∷ b'l' ∷ b'p'
    ∷ b'-' ∷ b'u' ∷ b'a' ∷ b'r' ∷ b't' ∷ b' ' ∷ b'v' ∷ b'0' ∷ b'.' ∷ b'1' ∷ []

-- `tx_irq` and `rx_irq` are the interrupt enables of the device, `rx_sem` the semaphore of limit 1.
pub record Uart (R D : Type 0) : Type 0 where
  pub tx_rb : R
  pub rx_rb : R
  pub rx_sem : Bool
  pub tx_irq : Bool
  pub rx_irq : Bool
  pub parser : Parser D
  pub has_tx_req_cb : Bool
  pub tx_seq : ℕ
  pub stat_tx_frames : ℕ
  pub stat_tx_drops : ℕ

module _ (w : Wire) where
  -- The requests that the registered handler is called with for one message.
  unfoldable pub requests_of : Result CanFrame → List CanFrame
  requests_of (ok req) = req ∷ []
  requests_of (err e) = []

  unfoldable pub on_clp_frame : Bool → Message → List CanFrame
  unfolding requests_of
  on_clp_frame has_cb m =
      if m.type == code can_tx
      then if has_cb then requests_of (clp_decode_can_frame w m.payload) else []
      else []

  unfoldable pub on_clp_frames : Bool → List Message → List CanFrame
  unfolding on_clp_frame
  on_clp_frames has_cb [] = []
  on_clp_frames has_cb (m ∷ ms) = on_clp_frame has_cb m ++ on_clp_frames has_cb ms

-- One round of `uart_isr`: what the FIFO gives if it is ready to be read, and how much it takes
-- if it is ready to be filled. The result has the bytes sent.
pub record Pass : Type 0 where
  pub rx_ready : Option (List ℕ)
  pub tx_ready : Option ℕ

module _ (w : Wire) (rb : RingBuf) where
  abbrev pub State : Type 0
  State = Uart rb.Ring w.Decoder

  unfoldable pub tx_push : State → List ℕ → State × Result (Unit {0})
  tx_push u wire =
      let (r, all) = push_all rb u.tx_rb wire in
      if all
      then (record u { tx_rb = r; tx_irq = true }, ok tt)
      else (record u { tx_rb = r; stat_tx_drops = inc32 u.stat_tx_drops }, err enospc)

  -- `tx_seq++` on a `uint8_t`
  abbrev pub next_seq : State → State
  next_seq u = record u { tx_seq = (u.tx_seq + 1) % 256 }

  -- An encoder's result, pushed if it is no error.
  unfoldable pub push_encoded : State → Result (List ℕ) → State × Result (Unit {0})
  unfolding tx_push
  push_encoded u (ok wire) = tx_push u wire
  push_encoded u (err e) = (u, err e)

  unfoldable pub count_frame : State × Result (Unit {0}) → State × Result (Unit {0})
  count_frame (u, ok x) = (record u { stat_tx_frames = inc32 u.stat_tx_frames }, ok x)
  count_frame (u, err e) = (u, err e)

  unfoldable pub clp_uart_send_can_rx : State → CanFrame → State × Result (Unit {0})
  unfolding push_encoded count_frame
  clp_uart_send_can_rx u f =
      count_frame
        (push_encoded (next_seq u) (clp_encode_can_frame w can_rx u.tx_seq f clp_max_wire))

  unfoldable pub clp_uart_send_tx_ack : State → TxAck → State × Result (Unit {0})
  unfolding push_encoded
  clp_uart_send_tx_ack u ack =
      push_encoded (next_seq u) (clp_encode_tx_ack w u.tx_seq ack clp_max_wire)

  unfoldable pub clp_uart_send_status : State → Status → State × Result (Unit {0})
  unfolding push_encoded
  clp_uart_send_status u st =
      push_encoded (next_seq u) (clp_encode_status w u.tx_seq st clp_max_wire)

  -- `if (n > 0)`: an encoding of no bytes is not pushed.
  unfoldable pub push_positive : State → Result (List ℕ) → State
  unfolding tx_push
  push_positive u (ok []) = u
  push_positive u (ok (b ∷ bs)) = (tx_push u (b ∷ bs)).0
  push_positive u (err e) = u

  unfoldable pub clp_uart_send_hello : State → State
  unfolding push_positive
  clp_uart_send_hello u =
      push_positive (next_seq u)
        (clp_encode_hello w u.tx_seq (some clp_uart_fw_version) clp_max_wire)

  -- The RX branch of `uart_isr`, with the bytes that `uart_fifo_read` gives.
  unfoldable pub rx_service : State → List ℕ → State
  rx_service u [] = u
  rx_service u (b ∷ bs) = record u { rx_rb = (rb.put u.rx_rb (b ∷ bs)).0; rx_sem = true }

  unfoldable pub tx_branch : State → Option ℕ → State × List ℕ
  tx_branch u none = (u, [])
  tx_branch u (some accepts) =
      let (r, sent, enabled) = tx_service rb u.tx_rb accepts in
      (record u { tx_rb = r; tx_irq = if enabled then u.tx_irq else false }, sent)

  unfoldable pub rx_branch : State → Option (List ℕ) → State
  unfolding rx_service
  rx_branch u none = u
  rx_branch u (some bytes) = rx_service u bytes

  -- The list is the rounds while an interrupt is pending.
  unfoldable pub uart_isr : State → List Pass → State × List ℕ
  unfolding rx_branch tx_branch
  uart_isr u [] = (u, [])
  uart_isr u (p ∷ ps) =
      let (u', sent) = tx_branch (rx_branch u p.rx_ready) p.tx_ready in
      let (u'', more) = uart_isr u' ps in (u'', sent ++ more)

  -- The inner loop of `rx_thread`, on fuel: it ends with the first `ring_buf_get` that gives
  -- nothing. The result has the requests handed to the handler; `none` is out of fuel.
  unfoldable pub rx_drain : ℕ → State → Option (State × List CanFrame)
  rx_drain zero u = none
  rx_drain (suc fuel) u =
      let (r, buf) = rb.get u.rx_rb isr_chunk in
      let (p, ms) = clp_parser_feed w u.parser buf in
      let rest = rx_drain fuel (record u { rx_rb = r; parser = p }) in
      let joined : Option (State × List CanFrame) = elim rest [
        | none ↦ none
        | some (u', more) ↦ some (u', on_clp_frames w u.has_tx_req_cb ms ++ more)
      ] in
      if length buf == 0 then some (record u { rx_rb = r }, []) else joined

  unfoldable pub clp_uart_set_tx_handler : State → Bool → State
  clp_uart_set_tx_handler u has_cb = record u { has_tx_req_cb = has_cb }

  -- tx_frames, tx_drops, crc_errors, framing_errors
  unfoldable pub clp_uart_get_counters : State → ℕ × ℕ × ℕ × ℕ
  clp_uart_get_counters u =
      (u.stat_tx_frames, u.stat_tx_drops, u.parser.crc_errors, u.parser.framing_errors)

  unfoldable pub clp_uart_init : Bool → State → State × Result (Unit {0})
  unfolding clp_uart_send_hello
  clp_uart_init ready u =
      if ready
      then (
        clp_uart_send_hello
            (record u { parser = clp_parser_init w true; tx_irq = false; rx_irq = true }),
        ok tt,
      )
      else (u, err enodev)
