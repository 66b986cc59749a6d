-- ===== src/Clp/EndToEnd.antt =====
-- From a message through an encoder, the wire, the parser and a decoder back to the message.
use pcan_alterative.Base.{ℕ, ◌≤◌, ◌≡◌, List, [], ◌∷◌, ◌++◌, ok, arith}
use pcan_alterative.Base.{length, some, take, length-take, length-append, ltb}
use pcan_alterative.Base.{Bool-cases, inl, inr, take-all, Result, to_u16}
use pcan_alterative.Base.ByteOrder.{ByteOrderLaws}
use pcan_alterative.Zephyr.{Wire, WireLaws}
use pcan_alterative.Clp.Types.{
  clp_version, clp_max_payload, clp_max_wire, MsgType, can_rx, can_tx_ack, status, hello, code,
  CanFrame, TxAck, Status, IsCanFrame, IsTxAck, IsStatus,
}
use pcan_alterative.Clp.Encode.{
  can_payload, tx_ack_payload, status_payload, hello_payload, clp_encode_raw, clp_encode_can_frame,
  clp_encode_tx_ack, clp_encode_status, clp_encode_hello,
}
use pcan_alterative.Clp.Encode.Framing.{wire_of, length-wire_of, clp_encode_raw-fits}
use pcan_alterative.Clp.Decode.{clp_decode_can_frame, clp_decode_tx_ack, clp_decode_status}
use pcan_alterative.Clp.Decode.RoundTrip.{
  clip, data_count-le, length-can_payload, decode-can_payload, decode-tx_ack_payload,
  decode-status_payload,
}
use pcan_alterative.Clp.Parser.{Message, Parser, clp_parser_feed}
use pcan_alterative.Clp.Parser.Stream.{IsIdle, counted, feed-wire_of}

module _ (w : Wire) where
  pub length-tx_ack_payload : ByteOrderLaws w.order → (a : TxAck) → length (tx_ack_payload w a) ≡ 12
  unfolding tx_ack_payload
  length-tx_ack_payload laws a =
      let t = w.put_le16 a.tag in
      let s = w.put_le16 (to_u16 a.status) in
      let c = w.put_le64 a.timestamp in
      omega (
        arith,
        length-append t (s ++ c),
        length-append s c,
        laws.le16.length_put a.tag,
        laws.le16.length_put (to_u16 a.status),
        laws.le64.length_put a.timestamp,
      )

  pub length-status_payload :
      ByteOrderLaws w.order → (s : Status) → length (status_payload w s) ≡ 15
  unfolding status_payload
  length-status_payload laws s =
      let r = w.put_le32 s.rx_frames in
      let t = w.put_le32 s.tx_frames in
      let d = w.put_le32 s.rx_drops in
      let e : List ℕ = s.tx_err_cnt ∷ s.rx_err_cnt ∷ [] in
      omega (
        arith,
        length-append r (t ++ (d ++ e)),
        length-append t (d ++ e),
        length-append d e,
        laws.le32.length_put s.rx_frames,
        laws.le32.length_put s.tx_frames,
        laws.le32.length_put s.rx_drops,
      )

  pub hello_payload-some :
      (fw : List ℕ)
      → hello_payload w (some fw) ≡ clp_version ∷ (w.put_le16 clp_max_payload ++ take 77 fw)
  unfolding hello_payload
  hello_payload-some fw = elim (Bool-cases (ltb 77 (length fw))) [
    | inl long ↦ rw long
    | inr short ↦ rw (short, take-all (length fw) fw (omega arith), take-all 77 fw (ground arith))
  ]

-- The encoder `result` succeeds within CLP_MAX_WIRE bytes, and an idle parser that is fed those
-- bytes counts one frame, is idle as before, and hands over exactly the one message.
pub record Carries (w : Wire) (p : Parser w.Decoder) (result : Result (List ℕ)) (m : Message)
    : Type 0 where
  pub wire : List ℕ
  pub encoded : result ≡ ok wire
  pub short : length wire ≤ clp_max_wire
  pub delivered : clp_parser_feed w p wire ≡ (counted p, m ∷ [])

module _ (w : Wire) (laws : WireLaws w) (p : Parser w.Decoder) (idle : IsIdle w p) where
  raw-Carries :
      (type : MsgType) (seq : ℕ) (payload : List ℕ) (out_size : ℕ)
      → length payload ≤ clp_max_payload
      → clp_max_wire ≤ out_size
      → Carries w p
          (clp_encode_raw w type seq payload out_size)
          (record { type = code type; seq = seq; payload = payload })
  raw-Carries type seq payload out_size hp ho = record {
    wire = wire_of w laws type seq payload;
    encoded = clp_encode_raw-fits w laws type seq payload out_size hp ho;
    short = length-wire_of w laws type seq payload hp;
    delivered = feed-wire_of w laws p type seq payload idle hp;
  }

  -- A CAN frame within its C types, as a CAN_RX message, with a buffer of at least CLP_MAX_WIRE
  -- bytes and an idle parser with a callback: encoding succeeds, the parser hands over one CAN_RX
  -- message of that sequence number, and its payload decodes to the frame with the data bytes
  -- beyond its DLC zeroed.
  pub can_rx_round_trip :
      (seq : ℕ) (f : CanFrame) (out_size : ℕ)
      → IsCanFrame f
      → clp_max_wire ≤ out_size
      → Carries w p
          (clp_encode_can_frame w can_rx seq f out_size)
          (record { type = code can_rx; seq = seq; payload = can_payload w f })
        × (clp_decode_can_frame w (can_payload w f) ≡ ok (clip f))
  unfolding clp_encode_can_frame
  can_rx_round_trip seq f out_size v ho = (
    raw-Carries can_rx seq (can_payload w f) out_size
        (omega (arith, length-can_payload w laws.order_laws f v, data_count-le f.flags f.dlc)) ho,
    decode-can_payload w laws.order_laws f v,
  )

  -- An acknowledgement within its C types, with a buffer of at least CLP_MAX_WIRE bytes and an idle
  -- parser with a callback: encoding succeeds, the parser hands over one message of that sequence
  -- number, and its payload decodes to the acknowledgement, its signed status included.
  pub tx_ack_round_trip :
      (seq : ℕ) (a : TxAck) (out_size : ℕ)
      → IsTxAck a
      → clp_max_wire ≤ out_size
      → Carries w p
          (clp_encode_tx_ack w seq a out_size)
          (record { type = code can_tx_ack; seq = seq; payload = tx_ack_payload w a })
        × (clp_decode_tx_ack w (tx_ack_payload w a) ≡ ok a)
  unfolding clp_encode_tx_ack
  tx_ack_round_trip seq a out_size v ho = (
    raw-Carries can_tx_ack seq (tx_ack_payload w a) out_size
        (omega (arith, length-tx_ack_payload w laws.order_laws a)) ho,
    decode-tx_ack_payload w laws.order_laws a v,
  )

  -- A status within its C types, with a buffer of at least CLP_MAX_WIRE bytes and an idle parser
  -- with a callback: encoding succeeds, the parser hands over one message of that sequence number,
  -- and its payload decodes to the status.
  pub status_round_trip :
      (seq : ℕ) (s : Status) (out_size : ℕ)
      → IsStatus s
      → clp_max_wire ≤ out_size
      → Carries w p
          (clp_encode_status w seq s out_size)
          (record { type = code status; seq = seq; payload = status_payload w s })
        × (clp_decode_status w (status_payload w s) ≡ ok s)
  unfolding clp_encode_status
  status_round_trip seq s out_size v ho = (
    raw-Carries status seq (status_payload w s) out_size
        (omega (arith, length-status_payload w laws.order_laws s)) ho,
    decode-status_payload w laws.order_laws s v,
  )

  -- A HELLO with any version text, with a buffer of at least CLP_MAX_WIRE bytes and an idle parser
  -- with a callback: encoding succeeds, and the parser hands over one message of that sequence
  -- number with the version, the payload limit and the first 77 bytes of the text, or all if it is
  -- shorter.
  pub hello_round_trip :
      (seq : ℕ) (fw : List ℕ) (out_size : ℕ)
      → clp_max_wire ≤ out_size
      → Carries w p (clp_encode_hello w seq (some fw) out_size) (record {
        type = code hello;
        seq = seq;
        payload = clp_version ∷ (w.put_le16 clp_max_payload ++ take 77 fw);
      })
  unfolding clp_encode_hello
  hello_round_trip seq fw out_size ho = rw (← hello_payload-some w fw) (
      raw-Carries hello seq (hello_payload w (some fw)) out_size
        (rw (hello_payload-some w fw) (
          omega (
            arith,
            length-append (w.put_le16 clp_max_payload) (take 77 fw),
            laws.order_laws.le16.length_put clp_max_payload,
            length-take 77 fw,
          )))
        ho)
