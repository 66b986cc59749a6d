-- ===== src/Doip/Tcp/Diagnostics.antt =====
-- Diagnostic messages on an activated connection, and a session of a tester.
use pcan_alterative.Base.{ℕ, ◌-◌, ◌^◌, ◌≤◌, ◌<◌, ◌≡◌, refl, ◌∙◌, List, ◌∷◌}
use pcan_alterative.Base.{◌++◌, ok, length, length-append, arith, true, inl}
use pcan_alterative.Base.{inr, Bool-cases, leb, ◌==◌, ◌&&◌, drop, if◌then◌else◌}
use pcan_alterative.Base.{ge→ltb, append_assoc, drop-append_length, take-all}
use pcan_alterative.Doip.Tcp.Response.{length-ack_payload, length-uds_dispatch}
use pcan_alterative.Base.ByteOrder.{ByteOrder, ByteOrderLaws}
use pcan_alterative.Doip.Types.{
  Conn, doip_entity_logical_addr, doip_pt_diag_message, doip_tester_addr_min, doip_tester_addr_max,
  doip_pt_diag_message_pos_ack, doip_vin, doip_pt_routing_activation_req, uds_sid_read_data_by_id,
  doip_ra_code_success, uds_did_vin, doip_conn_init,
}
use pcan_alterative.Doip.Message.{emit}
use pcan_alterative.Doip.Message.Header.{message, length-message, emit-fits}
use pcan_alterative.Doip.Tcp.Activation.{
  source_read, target_read, length-addressed, doip_handle_tcp-message, activation_resp,
  routing_activation,
}
use pcan_alterative.Doip.Uds.{uds_dispatch}
use pcan_alterative.Doip.Tcp.{
  ack_payload, diag_response, handle_diag_message, tcp_switch, doip_handle_tcp,
}
use pcan_alterative.Doip.Tcp.Refused.{ack-emit}

module _ (bo : ByteOrder) (laws : ByteOrderLaws bo) where
  abbrev pub entity_ack : ℕ → List ℕ
  entity_ack sa =
      message bo doip_pt_diag_message_pos_ack (ack_payload bo doip_entity_logical_addr sa 0x00)

  abbrev pub uds_message : ℕ → List ℕ → List ℕ
  uds_message sa answer =
      message bo doip_pt_diag_message
        (bo.put_be16 doip_entity_logical_addr ++ (bo.put_be16 sa ++ answer))

  uds_read :
      (sa : ℕ) (uds : List ℕ)
      → drop 4 (bo.put_be16 sa ++ (bo.put_be16 doip_entity_logical_addr ++ uds)) ≡ uds
  uds_read sa uds =
      let front = bo.put_be16 sa ++ bo.put_be16 doip_entity_logical_addr in
      rw (← append_assoc (bo.put_be16 sa) (bo.put_be16 doip_entity_logical_addr) uds) (
        drop-append_length 4 front uds (
          omega (
            arith,
            length-append (bo.put_be16 sa) (bo.put_be16 doip_entity_logical_addr),
            laws.be16.length_put sa,
            laws.be16.length_put doip_entity_logical_addr,
          )))

  uds-emit :
      (sa : ℕ) (answer : List ℕ) (resp_size : ℕ)
      → length answer ≤ 20
      → 45 ≤ resp_size
      → emit bo
          (resp_size - length (entity_ack sa))
          doip_pt_diag_message
          (bo.put_be16 doip_entity_logical_addr ++ (bo.put_be16 sa ++ answer))
        ≡ ok (uds_message sa answer)
  uds-emit sa answer resp_size ha hr =
      let n = length-addressed bo laws doip_entity_logical_addr sa answer in
      emit-fits bo laws (resp_size - length (entity_ack sa)) doip_pt_diag_message _
        (omega (arith, n))
        (omega (
          arith,
          n,
          length-message bo laws doip_pt_diag_message_pos_ack
              (ack_payload bo doip_entity_logical_addr sa 0x00),
          length-ack_payload bo laws doip_entity_logical_addr sa 0x00,
        ))

  diag_response-lem :
      (conn : Conn) (sa : ℕ) (uds : List ℕ) (resp_size : ℕ)
      → sa < 2 ^ 16
      → 45 ≤ resp_size
      → let pl = bo.put_be16 sa ++ (bo.put_be16 doip_entity_logical_addr ++ uds) in
        let (conn', answer) = uds_dispatch bo conn uds (length uds) 64 in
        diag_response bo conn pl (length pl) (entity_ack sa) resp_size ≡ (
          conn',
          ok (if length answer == 0 then entity_ack sa else entity_ack sa ++ uds_message sa answer),
        )
  unfolding diag_response
  diag_response-lem conn sa uds resp_size hs hr =
      let pl = bo.put_be16 sa ++ (bo.put_be16 doip_entity_logical_addr ++ uds) in
      let answer = (uds_dispatch bo conn uds (length uds) 64).1 in
      let rest : length pl - 4 ≡ length uds =
        omega (arith, length-addressed bo laws sa doip_entity_logical_addr uds) in
      rw
        (
          uds_read sa uds,
          rest,
          source_read bo laws sa (bo.put_be16 doip_entity_logical_addr ++ uds) hs,
        )
        (elim (Bool-cases (length answer == 0)) [
          | inl silent ↦ rw silent
          | inr spoken ↦ rw (
            spoken,
            uds-emit sa answer resp_size (length-uds_dispatch bo laws conn uds (length uds) 64) hr,
          )
        ])

  -- On an activated connection, with 45 bytes of room for the answer, a diagnostic message of less
  -- than 2^31 bytes to this entity is acknowledged, its UDS request is run on the connection, and
  -- the answer follows the acknowledgement in a message of its own, unless there is none.
  pub diag_answered :
      (tester seq sa : ℕ) (uds : List ℕ) (resp_size : ℕ)
      → sa < 2 ^ 16
      → length uds < 2 ^ 31
      → 45 ≤ resp_size
      → let conn : Conn = record { routing_active = true; tester_addr = tester; block_seq = seq } in
        let (conn', answer) = uds_dispatch bo conn uds (length uds) 64 in
        doip_handle_tcp bo conn
          (message bo doip_pt_diag_message
            (bo.put_be16 sa ++ (bo.put_be16 doip_entity_logical_addr ++ uds)))
          resp_size
        ≡ (
          conn',
          ok (if length answer == 0 then entity_ack sa else entity_ack sa ++ uds_message sa answer),
        )
  unfolding tcp_switch handle_diag_message
  diag_answered tester seq sa uds resp_size hs hu hr =
      let conn : Conn = record { routing_active = true; tester_addr = tester; block_seq = seq } in
      let pl = bo.put_be16 sa ++ (bo.put_be16 doip_entity_logical_addr ++ uds) in
      let n = length-addressed bo laws sa doip_entity_logical_addr uds in
      doip_handle_tcp-message bo laws conn doip_pt_diag_message pl resp_size (omega arith)
        (omega (arith, n))
      ∙ rw
          (
            ge→ltb (length pl) 4 (omega (arith, n)),
            source_read bo laws sa (bo.put_be16 doip_entity_logical_addr ++ uds) hs,
            target_read bo laws sa doip_entity_logical_addr uds (omega arith),
            ack-emit bo laws resp_size doip_pt_diag_message_pos_ack doip_entity_logical_addr sa 0x00
                (omega arith),
          )
          (diag_response-lem conn sa uds resp_size hs hr)

  pub read_vin :
      (conn : Conn)
      → let request : List ℕ = uds_sid_read_data_by_id ∷ bo.put_be16 uds_did_vin in
        uds_dispatch bo conn request (length request) 64
        ≡ (conn, 0x62 ∷ (bo.put_be16 uds_did_vin ++ doip_vin))
  unfolding uds_dispatch
  read_vin conn = ground (
    arith,
    laws.be16.length_put uds_did_vin,
    laws.be16.get_put uds_did_vin,
    take-all 2 (bo.put_be16 uds_did_vin),
  )

  -- A new connection on which a tester from the accepted range activates routing and then asks for
  -- the VIN, with 45 bytes of room for each answer: the first request is answered with success,
  -- the second with the acknowledgement and the VIN, and the connection stays activated for that
  -- tester.
  pub vin_session :
      (sa : ℕ) (rest : List ℕ) (resp_size : ℕ)
      → doip_tester_addr_min ≤ sa
      → sa ≤ doip_tester_addr_max
      → 5 ≤ length rest
      → length rest < 2 ^ 31
      → 45 ≤ resp_size
      → let entity = doip_entity_logical_addr in
        let request : List ℕ = uds_sid_read_data_by_id ∷ bo.put_be16 uds_did_vin in
        let (c1, r1) =
          doip_handle_tcp bo doip_conn_init
            (message bo doip_pt_routing_activation_req (bo.put_be16 sa ++ rest))
            resp_size in
        let (c2, r2) =
          doip_handle_tcp bo c1
            (message bo doip_pt_diag_message (bo.put_be16 sa ++ (bo.put_be16 entity ++ request)))
            resp_size in
        (r1 ≡ ok (activation_resp bo laws sa doip_ra_code_success))
        × (r2 ≡ ok (entity_ack sa ++ uds_message sa (0x62 ∷ (bo.put_be16 uds_did_vin ++ doip_vin))))
        × (c2 ≡ record { routing_active = true; tester_addr = sa; block_seq = 0 })
  vin_session sa rest resp_size lo hi h5 hl hr =
      let conn : Conn = record { routing_active = true; tester_addr = sa; block_seq = 0 } in
      let request : List ℕ = uds_sid_read_data_by_id ∷ bo.put_be16 uds_did_vin in
      let in_range : (leb doip_tester_addr_min sa && leb sa doip_tester_addr_max) ≡ true =
        ground arith in
      let first =
        routing_activation bo laws doip_conn_init sa rest resp_size (omega arith) h5 hl
          (omega arith) in
      let second =
        diag_answered sa 0 sa request resp_size (omega arith)
          (omega (arith, laws.be16.length_put uds_did_vin)) hr in
      rw (first, in_range) (rw (second, read_vin conn) (refl, ground arith, refl))
