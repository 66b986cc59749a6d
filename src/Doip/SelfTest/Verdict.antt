-- ===== src/Doip/SelfTest/Verdict.antt =====
-- The self-test passes, whatever the byte order helpers are that keep their laws.
use pcan_alterative.Base.{◌==◌, ℕ, ◌≡◌, refl, ◌∙◌, ap, true, List, [], ◌∷◌, ◌++◌}
use pcan_alterative.Base.{ok, length, length-append, slice, replicate, arith, append_assoc}
use pcan_alterative.Base.{take-append_length, slice-skip, byte_at-skip}
use pcan_alterative.Base.ByteOrder.{ByteOrder, ByteOrderLaws}
use pcan_alterative.Doip.Types.{
  doip_conn_init, doip_pt_routing_activation_req, doip_pt_diag_message,
  doip_pt_routing_activation_resp, doip_pt_diag_message_pos_ack, doip_entity_logical_addr, doip_vin,
  uds_sid_read_data_by_id, uds_did_vin, doip_ra_code_success,
}
use pcan_alterative.Doip.Message.Header.{message, length-message}
use pcan_alterative.Doip.Server.{udp_thread, tcp_thread}
use pcan_alterative.Doip.Tcp.{ack_payload, doip_handle_tcp}
use pcan_alterative.Doip.Tcp.Response.{length-ack_payload}
use pcan_alterative.Doip.Tcp.Activation.{activation_resp, routing_activation, length-addressed}
use pcan_alterative.Doip.Tcp.Diagnostics.{diag_answered, read_vin, entity_ack, uds_message}
use pcan_alterative.Doip.SelfTest.{
  activation_request, vin_request, vin_found, after_request, is_activated, after_activation,
  doip_selftest, main, resp_size,
}
use pcan_alterative.Doip.SelfTest.Fields.{type_read, byte_behind, slice_behind}

module _ (bo : ByteOrder) (laws : ByteOrderLaws bo) where
  abbrev tail : List ℕ
  tail = 0 ∷ replicate 4 0

  abbrev request : List ℕ
  request = uds_sid_read_data_by_id ∷ bo.put_be16 uds_did_vin

  activation-message :
      activation_request bo ≡ message bo doip_pt_routing_activation_req (bo.put_be16 0x0e80 ++ tail)
  unfolding activation_request message
  activation-message =
      let n : length (bo.put_be16 0x0e80 ++ tail) ≡ 7 =
        omega (arith, length-append (bo.put_be16 0x0e80) tail, laws.be16.length_put 0x0e80) in
      rw n refl

  vin-message :
      vin_request bo
      ≡ message bo doip_pt_diag_message
          (bo.put_be16 0x0e80 ++ (bo.put_be16 doip_entity_logical_addr ++ request))
  unfolding vin_request message
  vin-message =
      let n : length (bo.put_be16 0x0e80 ++ (bo.put_be16 doip_entity_logical_addr ++ request)) ≡ 7 =
        omega (
          arith,
          length-addressed bo laws 0x0e80 doip_entity_logical_addr request,
          laws.be16.length_put uds_did_vin,
        ) in
      rw n refl

  first_answer : doip_handle_tcp bo doip_conn_init (activation_request bo) resp_size ≡ (
    record { routing_active = true; tester_addr = 0x0e80; block_seq = 0 },
    ok (activation_resp bo laws 0x0e80 doip_ra_code_success),
  )
  first_answer = rw activation-message (
      routing_activation bo laws doip_conn_init 0x0e80 tail resp_size (omega arith) (omega arith)
        (omega arith) (omega arith))

  abbrev vin_answer : List ℕ
  vin_answer =
      entity_ack bo laws 0x0e80
      ++ uds_message bo laws 0x0e80 (0x62 ∷ (bo.put_be16 uds_did_vin ++ doip_vin))

  second_answer :
      (doip_handle_tcp bo
        (record { routing_active = true; tester_addr = 0x0e80; block_seq = 0 })
        (vin_request bo)
        resp_size).1
      ≡ ok vin_answer
  second_answer = rw vin-message (
      ap (λ a. a.1)
        (diag_answered bo laws 0x0e80 0 0x0e80 request resp_size (omega arith)
          (omega (arith, laws.be16.length_put uds_did_vin)) (omega arith))
      ∙ rw
          (read_vin bo laws (record { routing_active = true; tester_addr = 0x0e80; block_seq = 0 }))
          (ground arith))

  activated :
      (rest : List ℕ)
      → is_activated bo
          (record { routing_active = true; tester_addr = 0x0e80; block_seq = 0 })
          (length (activation_resp bo laws 0x0e80 doip_ra_code_success))
          (activation_resp bo laws 0x0e80 doip_ra_code_success ++ rest)
        ≡ true
  unfolding is_activated
  activated rest =
      let payload =
        bo.put_be16 0x0e80
        ++ (bo.put_be16 doip_entity_logical_addr ++ (doip_ra_code_success ∷ replicate 4 0)) in
      let n : length (message bo doip_pt_routing_activation_resp payload) ≡ 17 = omega (
        arith,
        length-message bo laws doip_pt_routing_activation_resp payload,
        length-addressed bo laws 0x0e80 doip_entity_logical_addr
            (doip_ra_code_success ∷ replicate 4 0),
      ) in
      rw
        (
          n,
          type_read bo laws doip_pt_routing_activation_resp payload rest (omega arith),
          byte_behind bo laws doip_pt_routing_activation_resp 0x0e80 doip_entity_logical_addr 0
              (doip_ra_code_success ∷ replicate 4 0) rest,
        )
        refl

  vin_answer-found : (rest : List ℕ) → vin_found bo (vin_answer ++ rest) ≡ true
  unfolding vin_found
  vin_answer-found rest =
      let uds : List ℕ = 0x62 ∷ (bo.put_be16 uds_did_vin ++ doip_vin) in
      let ack_is = entity_ack bo laws 0x0e80 in
      let second = uds_message bo laws 0x0e80 uds in
      let n : length ack_is ≡ 13 = omega (
        arith,
        length-message bo laws doip_pt_diag_message_pos_ack
            (ack_payload bo doip_entity_logical_addr 0x0e80 0),
        length-ack_payload bo laws doip_entity_logical_addr 0x0e80 0,
      ) in
      let did : (bo.get_be16 (slice (uds ++ rest) 1 2) == uds_did_vin) ≡ true =
        rw
          (
            append_assoc (bo.put_be16 uds_did_vin) doip_vin rest,
            take-append_length 2 (bo.put_be16 uds_did_vin) (doip_vin ++ rest)
                (laws.be16.length_put uds_did_vin),
            laws.be16.get_put uds_did_vin (omega arith),
          )
          refl in
      rw
        (
          append_assoc ack_is second rest,
          type_read bo laws doip_pt_diag_message_pos_ack
              (ack_payload bo doip_entity_logical_addr 0x0e80 0) (second ++ rest) (omega arith),
          slice-skip 13 2 2 ack_is (second ++ rest) n,
          byte_at-skip 13 12 ack_is (second ++ rest) n,
          slice-skip 13 13 2 ack_is (second ++ rest) n,
          type_read bo laws doip_pt_diag_message
              (bo.put_be16 doip_entity_logical_addr ++ (bo.put_be16 0x0e80 ++ uds)) rest
              (omega arith),
          byte_behind bo laws doip_pt_diag_message doip_entity_logical_addr 0x0e80 0 uds rest,
          slice_behind bo laws doip_pt_diag_message doip_entity_logical_addr 0x0e80 1 2 uds rest,
        )
        did

  -- Whatever stands on the stack before, the self-test passes, and `main` starts the UDP and the TCP
  -- thread of the server.
  pub main_serves :
      (stale : List ℕ)
      → (doip_selftest bo stale ≡ true) × (main bo stale ≡ udp_thread ∷ tcp_thread ∷ [])
  unfolding main doip_selftest after_activation after_request message
  main_serves stale =
      let passes : doip_selftest bo stale ≡ true =
        rw (first_answer, activated, second_answer) (vin_answer-found _) in
      (passes, rw passes refl)
