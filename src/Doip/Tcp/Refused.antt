-- ===== src/Doip/Tcp/Refused.antt =====
-- The diagnostic messages that are refused: before activation, and to another target.
use pcan_alterative.Base.{ℕ, ◌^◌, ◌≤◌, ◌<◌, ◌≡◌, ◌∙◌, ap, List}
use pcan_alterative.Base.{◌++◌, ok, length, arith, true, false}
use pcan_alterative.Base.{ge→ltb, ne→==, ◌≢◌}
use pcan_alterative.Doip.Tcp.Response.{length-ack_payload}
use pcan_alterative.Base.ByteOrder.{ByteOrder, ByteOrderLaws}
use pcan_alterative.Doip.Types.{
  Conn, doip_entity_logical_addr, doip_pt_diag_message, doip_pt_diag_message_neg_ack,
  doip_diag_nack_unknown_ta,
}
use pcan_alterative.Doip.Message.{emit}
use pcan_alterative.Doip.Message.Header.{message, emit-fits}
use pcan_alterative.Doip.Tcp.Activation.{
  source_read, target_read, length-addressed, doip_handle_tcp-message,
}
use pcan_alterative.Doip.Tcp.{ack_payload, handle_diag_message, tcp_switch, doip_handle_tcp}

module _ (bo : ByteOrder) (laws : ByteOrderLaws bo) where
  pub ack-emit :
      (resp_size type source target code : ℕ)
      → 13 ≤ resp_size
      → emit bo resp_size type (ack_payload bo source target code)
        ≡ ok (message bo type (ack_payload bo source target code))
  ack-emit resp_size type source target code h =
      let n = length-ack_payload bo laws source target code in
      emit-fits bo laws resp_size type _ (omega (arith, n)) (omega (arith, n))

  -- Before activation a diagnostic message of less than 2^31 bytes is answered by a negative
  -- acknowledgement, if the response buffer holds 13 bytes, and leaves the connection as it was.
  pub diag_before_activation :
      (conn : Conn) (sa ta : ℕ) (uds : List ℕ) (resp_size : ℕ)
      → conn.routing_active ≡ false
      → sa < 2 ^ 16
      → ta < 2 ^ 16
      → length uds < 2 ^ 31
      → 13 ≤ resp_size
      → doip_handle_tcp bo conn
          (message bo doip_pt_diag_message (bo.put_be16 sa ++ (bo.put_be16 ta ++ uds)))
          resp_size
        ≡ (conn, ok (message bo doip_pt_diag_message_neg_ack (ack_payload bo ta sa 0x06)))
  unfolding tcp_switch handle_diag_message
  diag_before_activation conn sa ta uds resp_size hc hs ht hu hr =
      let pl = bo.put_be16 sa ++ (bo.put_be16 ta ++ uds) in
      let n = length-addressed bo laws sa ta uds in
      doip_handle_tcp-message bo laws conn doip_pt_diag_message pl resp_size (omega arith)
        (omega (arith, n))
      ∙ rw
          (
            ge→ltb (length pl) 4 (omega (arith, n)),
            hc,
            source_read bo laws sa (bo.put_be16 ta ++ uds) hs,
            target_read bo laws sa ta uds ht,
          )
          (ap (λ r. (record conn { routing_active = false }, r))
            (ack-emit resp_size doip_pt_diag_message_neg_ack ta sa 0x06 hr))

  -- On an activated connection a diagnostic message of less than 2^31 bytes to another target is
  -- answered by a negative acknowledgement, if the response buffer holds 13 bytes, and leaves the
  -- connection as it was.
  pub diag_to_other_target :
      (conn : Conn) (sa ta : ℕ) (uds : List ℕ) (resp_size : ℕ)
      → conn.routing_active ≡ true
      → sa < 2 ^ 16
      → ta < 2 ^ 16
      → ta ≢ doip_entity_logical_addr
      → length uds < 2 ^ 31
      → 13 ≤ resp_size
      → doip_handle_tcp bo conn
          (message bo doip_pt_diag_message (bo.put_be16 sa ++ (bo.put_be16 ta ++ uds)))
          resp_size
        ≡ (
          conn,
          ok (
              message bo doip_pt_diag_message_neg_ack
                (ack_payload bo ta sa doip_diag_nack_unknown_ta)),
        )
  unfolding tcp_switch handle_diag_message
  diag_to_other_target conn sa ta uds resp_size hc hs ht hne hu hr =
      let pl = bo.put_be16 sa ++ (bo.put_be16 ta ++ uds) in
      let n = length-addressed bo laws sa ta uds in
      doip_handle_tcp-message bo laws conn doip_pt_diag_message pl resp_size (omega arith)
        (omega (arith, n))
      ∙ rw
          (
            ge→ltb (length pl) 4 (omega (arith, n)),
            hc,
            source_read bo laws sa (bo.put_be16 ta ++ uds) hs,
            target_read bo laws sa ta uds ht,
            ne→== ta doip_entity_logical_addr hne,
          )
          (ap (λ r. (record conn { routing_active = true }, r))
            (ack-emit resp_size doip_pt_diag_message_neg_ack ta sa 0x03 hr))
