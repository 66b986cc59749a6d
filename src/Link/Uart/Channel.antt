-- ===== src/Link/Uart/Channel.antt =====
-- The sender's side of the UART link, and the channel of messages that it implements.
use pcan_alterative.Base.{◌<◌, ℕ, ◌+◌, ◌%◌, ◌≤◌, ◌≡◌, refl, sym, List, []}
use pcan_alterative.Base.{
  ◌∷◌, ◌++◌, ok, err, Result, some, length, length-append, append-nil, arith, ltb, inl, inr,
  Bool-cases, take, length-take,
}
use pcan_alterative.Zephyr.{Wire, WireLaws}
use pcan_alterative.Zephyr.RingBuf.{RingBuf, RingBufLaws}
use pcan_alterative.Clp.Types.{
  can_rx, can_tx_ack, status, hello, clp_max_payload, clp_max_wire, CanFrame, TxAck, Status,
  data_count,
}
use pcan_alterative.Clp.Encode.{
  can_payload, tx_ack_payload, status_payload, hello_payload, clp_encode_raw, clp_encode_can_frame,
  clp_encode_tx_ack, clp_encode_status, clp_encode_hello,
}
use pcan_alterative.Clp.Encode.Framing.{wire_of, clp_encode_raw-fits}
use pcan_alterative.Clp.Decode.RoundTrip.{data_count-le}
use pcan_alterative.Clp.EndToEnd.{length-tx_ack_payload, length-status_payload, hello_payload-some}
use pcan_alterative.Clp.Parser.{inc32}
use pcan_alterative.Clp.Parser.Stream.{Outgoing, FitsWire}
use pcan_alterative.Link.Ring.{push_all-whole}
use pcan_alterative.Link.Uart.{
  State, tx_push, push_encoded, count_frame, push_positive, next_seq, clp_uart_fw_version,
  clp_uart_send_can_rx, clp_uart_send_tx_ack, clp_uart_send_status, clp_uart_send_hello,
}

-- A call of one of the four functions that send.
pub data Send : Type 0 where
  can_rx_of : CanFrame → Send
  tx_ack_of : TxAck → Send
  status_of : Status → Send
  hello_now : Send

-- The message that a call is to send under a sequence number.
abbrev pub message : Wire → ℕ → Send → Outgoing
message w seq (can_rx_of f) = record { type = can_rx; seq = seq; payload = can_payload w f }
message w seq (tx_ack_of a) = record { type = can_tx_ack; seq = seq; payload = tx_ack_payload w a }
message w seq (status_of s) = record { type = status; seq = seq; payload = status_payload w s }
message w seq hello_now = record {
  type = hello;
  seq = seq;
  payload = hello_payload w (some clp_uart_fw_version);
}

module _ (w : Wire) (rb : RingBuf) where
  abbrev pub send : State w rb → Send → State w rb
  send u (can_rx_of f) = (clp_uart_send_can_rx w rb u f).0
  send u (tx_ack_of a) = (clp_uart_send_tx_ack w rb u a).0
  send u (status_of s) = (clp_uart_send_status w rb u s).0
  send u hello_now = clp_uart_send_hello w rb u

module _ (w : Wire) (wl : WireLaws w) where
  pub length-can_payload_le : (f : CanFrame) → length (can_payload w f) ≤ 80
  unfolding can_payload
  length-can_payload_le f =
      let i = w.put_le32 f.can_id in
      let t = w.put_le16 f.tag in
      let c = w.put_le64 f.timestamp in
      let n = data_count f.flags f.dlc in
      let d = take n f.bytes in
      omega (
        arith,
        length-append i (f.flags ∷ f.dlc ∷ (t ++ (c ++ d))),
        length-append t (c ++ d),
        length-append c d,
        length-take n f.bytes,
        data_count-le f.flags f.dlc,
        wl.order_laws.le32.length_put f.can_id,
        wl.order_laws.le16.length_put f.tag,
        wl.order_laws.le64.length_put f.timestamp,
      )

  pub message-FitsWire : (seq : ℕ) (s : Send) → FitsWire (message w seq s)
  message-FitsWire seq (can_rx_of f) = length-can_payload_le f
  message-FitsWire seq (tx_ack_of a) = omega (arith, length-tx_ack_payload w wl.order_laws a)
  message-FitsWire seq (status_of s) = omega (arith, length-status_payload w wl.order_laws s)
  message-FitsWire seq hello_now = rw (hello_payload-some w clp_uart_fw_version) (
      omega (
        arith,
        length-append (w.put_le16 clp_max_payload) (take 77 clp_uart_fw_version),
        wl.order_laws.le16.length_put clp_max_payload,
        length-take 77 clp_uart_fw_version,
      ))

module _ (w : Wire) (rb : RingBuf) (wl : WireLaws w) (rl : RingBufLaws rb) where
  open rl use {contents, capacity}

  -- What a send of `wire` makes of a ring and of the number of dropped frames: all of it is
  -- queued, or nothing because the ring has no room for it. The next sequence number is `seq`.
  pub data Sent (r : rb.Ring) (drops seq : ℕ) (wire : List ℕ) (u : State w rb) : Type 0 where
    queued :
        contents u.tx_rb ≡ contents r ++ wire
        → u.stat_tx_drops ≡ drops
        → u.tx_seq ≡ seq
        → Sent r drops seq wire u
    dropped :
        capacity r < length (contents r) + length wire
        → contents u.tx_rb ≡ contents r
        → u.stat_tx_drops ≡ inc32 drops
        → u.tx_seq ≡ seq
        → Sent r drops seq wire u

  tx_push-Sent :
      (u : State w rb) (wire : List ℕ)
      → Sent u.tx_rb u.stat_tx_drops u.tx_seq wire (tx_push w rb u wire).0
  unfolding tx_push
  tx_push-Sent u wire =
      let (fits, full) = push_all-whole rb rl u.tx_rb wire in
      elim (Bool-cases (ltb (capacity u.tx_rb) (length (contents u.tx_rb) + length wire))) [
        | inl lt ↦ rw (full (ground arith)) (dropped (ground arith) refl refl refl)
        | inr ge ↦ let (all, more) = fits (ground arith) in rw all (queued more refl refl)
      ]

  push_encoded-Sent :
      (u : State w rb) (result : Result (List ℕ)) (wire : List ℕ)
      → result ≡ ok wire
      → Sent u.tx_rb u.stat_tx_drops u.tx_seq wire (push_encoded w rb u result).0
  unfolding push_encoded
  push_encoded-Sent u result wire h = rw h (tx_push-Sent u wire)

  count_frame-Sent :
      (r : rb.Ring) (drops seq : ℕ) (wire : List ℕ) (u : State w rb) (result : Result (Unit {0}))
      → Sent r drops seq wire u
      → Sent r drops seq wire (count_frame w rb (u, result)).0
  unfolding count_frame
  count_frame-Sent r drops seq wire u (ok x) (queued c d s) = queued c d s
  count_frame-Sent r drops seq wire u (ok x) (dropped full c d s) = dropped full c d s
  count_frame-Sent r drops seq wire u (err e) h = h

  push_positive-Sent :
      (u : State w rb) (result : Result (List ℕ)) (wire : List ℕ)
      → result ≡ ok wire
      → Sent u.tx_rb u.stat_tx_drops u.tx_seq wire (push_positive w rb u result)
  unfolding push_positive
  push_positive-Sent u result [] h = rw h (queued (sym (append-nil (contents u.tx_rb))) refl refl)
  push_positive-Sent u result (b ∷ bs) h = rw h (tx_push-Sent u (b ∷ bs))

  abbrev pub SentMessage : State w rb → Outgoing → State w rb → Type 0
  SentMessage u o u' =
      Sent u.tx_rb u.stat_tx_drops ((u.tx_seq + 1) % 256) (wire_of w wl o.type o.seq o.payload) u'

  encoded :
      (seq : ℕ) (s : Send)
      → let o = message w seq s in
        clp_encode_raw w o.type o.seq o.payload clp_max_wire
        ≡ ok (wire_of w wl o.type o.seq o.payload)
  encoded seq s =
      let o = message w seq s in
      clp_encode_raw-fits w wl o.type o.seq o.payload clp_max_wire (message-FitsWire w wl seq s)
        (omega arith)

  pub send-Sent : (u : State w rb) (s : Send) → SentMessage u (message w u.tx_seq s) (send w rb u s)
  unfolding clp_uart_send_can_rx clp_uart_send_tx_ack clp_uart_send_status clp_uart_send_hello
      clp_encode_can_frame clp_encode_tx_ack clp_encode_status clp_encode_hello
  send-Sent u (can_rx_of f) =
      let (u', result) =
        push_encoded w rb (next_seq w rb u)
          (clp_encode_can_frame w can_rx u.tx_seq f clp_max_wire) in
      count_frame-Sent u.tx_rb u.stat_tx_drops ((u.tx_seq + 1) % 256) _ u' result
        (push_encoded-Sent (next_seq w rb u) _ _ (encoded u.tx_seq (can_rx_of f)))
  send-Sent u (tx_ack_of a) =
      push_encoded-Sent (next_seq w rb u) _ _ (encoded u.tx_seq (tx_ack_of a))
  send-Sent u (status_of s) =
      push_encoded-Sent (next_seq w rb u) _ _ (encoded u.tx_seq (status_of s))
  send-Sent u hello_now = push_positive-Sent (next_seq w rb u) _ _ (encoded u.tx_seq hello_now)
