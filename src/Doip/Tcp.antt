-- ===== src/Doip/Tcp.antt =====
-- doip.c, the handlers of a TCP connection. A handler returns the connection's new state and the
-- response; `pl` is the payload, and `plen` the length that the header states.
pub mod Response
pub mod State
pub mod Activation
pub mod Refused
pub mod Diagnostics
pub mod Lengths
use pcan_alterative.Base.{
  ℕ, ◌+◌, ◌-◌, ◌%◌, ◌^◌, Bool, true, false, ◌&&◌, List, [], ◌∷◌, ◌++◌, Result,
}
use pcan_alterative.Base.{ok, err, ltb, leb, ◌==◌, if◌then◌else◌, length, slice, drop, replicate}
use pcan_alterative.Base.ByteOrder.{ByteOrder}
use pcan_alterative.Doip.Types.{
  doip_header_size, doip_pt_routing_activation_req, doip_pt_routing_activation_resp,
  doip_pt_alive_check_req, doip_pt_alive_check_resp, doip_pt_diag_message,
  doip_pt_diag_message_pos_ack, doip_pt_diag_message_neg_ack, doip_nack_unknown_payload_type,
  doip_nack_invalid_length, doip_ra_code_success, doip_ra_code_unknown_sa, doip_diag_ack_ok,
  doip_diag_nack_unknown_ta, doip_entity_logical_addr, doip_tester_addr_min, doip_tester_addr_max,
  Conn,
}
use pcan_alterative.Doip.Message.{doip_parse_header, emit, emit_generic_nack}
use pcan_alterative.Doip.Uds.{uds_dispatch}
use pcan_alterative.Doip.Udp.{bad_header}

abbrev pub Answer : Type 0
Answer = Conn × Result (List ℕ)

module _ (bo : ByteOrder) where
  unfoldable pub handle_routing_activation : Conn → List ℕ → ℕ → ℕ → Answer
  handle_routing_activation conn pl plen resp_size =
      let sa = bo.get_be16 (slice pl 0 2) in
      let accepted = leb doip_tester_addr_min sa && leb sa doip_tester_addr_max in
      let code : ℕ = if accepted then doip_ra_code_success else doip_ra_code_unknown_sa in
      let rp = bo.put_be16 sa ++ (bo.put_be16 doip_entity_logical_addr ++ (code ∷ replicate 4 0)) in
      if ltb plen 7 then (conn, emit_generic_nack bo resp_size doip_nack_invalid_length) else (
        if accepted then record conn { routing_active = true; tester_addr = sa } else conn,
        emit bo resp_size doip_pt_routing_activation_resp rp,
      )

  -- The acknowledgement: two addresses and a code.
  unfoldable pub ack_payload : ℕ → ℕ → ℕ → List ℕ
  ack_payload source target code = bo.put_be16 source ++ (bo.put_be16 target ++ (code ∷ []))

  -- The second message of `handle_diag_message`: the UDS response, behind the `off` bytes `ack`.
  unfoldable pub diag_response : Conn → List ℕ → ℕ → List ℕ → ℕ → Answer
  unfolding ack_payload
  diag_response conn pl plen ack resp_size =
      let sa = bo.get_be16 (slice pl 0 2) in
      let (conn', uds) = uds_dispatch bo conn (drop 4 pl) (plen - 4) 64 in
      let dm = bo.put_be16 doip_entity_logical_addr ++ (bo.put_be16 sa ++ uds) in
      if length uds == 0 then (conn', ok ack) else (
        conn',
        elim (emit bo (resp_size - length ack) doip_pt_diag_message dm) [
          | ok rest ↦ ok (ack ++ rest)
          | err e ↦ err e
        ],
      )

  unfoldable pub handle_diag_message : Conn → List ℕ → ℕ → ℕ → Answer
  unfolding diag_response ack_payload
  handle_diag_message conn pl plen resp_size =
      let sa = bo.get_be16 (slice pl 0 2) in
      let ta = bo.get_be16 (slice pl 2 2) in
      let refuse : ℕ → Answer =
        λ code. (conn, emit bo resp_size doip_pt_diag_message_neg_ack (ack_payload ta sa code)) in
      let accept : Answer =
        elim (emit bo resp_size doip_pt_diag_message_pos_ack
          (ack_payload doip_entity_logical_addr sa doip_diag_ack_ok)) [
            | ok ack ↦ diag_response conn pl plen ack resp_size
            | err e ↦ (conn, err e)
          ] in
      if ltb plen 4
      then (conn, emit_generic_nack bo resp_size doip_nack_invalid_length)
      else if conn.routing_active
      then if ta == doip_entity_logical_addr then accept else refuse doip_diag_nack_unknown_ta
      else refuse 0x06

  -- The switch of `doip_handle_tcp` on the payload type.
  unfoldable pub tcp_switch : Conn → ℕ → List ℕ → ℕ → ℕ → Answer
  tcp_switch conn type pl plen resp_size =
      if type == doip_pt_routing_activation_req
      then handle_routing_activation conn pl plen resp_size
      else if type == doip_pt_alive_check_req
      then (conn, emit bo resp_size doip_pt_alive_check_resp (bo.put_be16 doip_entity_logical_addr))
      else if type == doip_pt_diag_message
      then handle_diag_message conn pl plen resp_size
      else (conn, emit_generic_nack bo resp_size doip_nack_unknown_payload_type)

  -- `doip_handle_tcp` behind the call of `doip_parse_header`. `msg` holds `len` bytes, and
  -- `len < (size_t)DOIP_HEADER_SIZE + plen` has a sum of 32 bits.
  unfoldable pub tcp_message : Conn → List ℕ → ℕ → Result (ℕ × ℕ) → Answer
  tcp_message conn msg resp_size (ok (type, plen)) =
      if ltb (length msg) ((doip_header_size + plen) % 2 ^ 32)
      then (conn, emit_generic_nack bo resp_size doip_nack_invalid_length)
      else tcp_switch conn type (slice msg doip_header_size plen) plen resp_size
  tcp_message conn msg resp_size (err e) = (conn, bad_header bo e resp_size)

  unfoldable pub doip_handle_tcp : Conn → List ℕ → ℕ → Answer
  unfolding tcp_message
  doip_handle_tcp conn msg resp_size = tcp_message conn msg resp_size (doip_parse_header bo msg)
