-- ===== src/Examples/DoipRuns.antt =====
-- The theorems on DoIP, at a byte order that can be run.
use pcan_alterative.Base.{ℕ, ◌≡◌, refl, List, [], ◌∷◌, ◌++◌, replicate, arith, true, ok, length}
use pcan_alterative.Base.{◌==◌, if◌then◌else◌, slice, ◌<◌}
use pcan_alterative.Doip.Types.{
  Conn, doip_conn_init, doip_header_size, doip_pt_routing_activation_req, doip_pt_diag_message,
  doip_entity_logical_addr, doip_ra_code_success, doip_vin, uds_sid_read_data_by_id, uds_did_vin,
}
use pcan_alterative.Doip.Message.{doip_parse_header}
use pcan_alterative.Doip.Message.Header.{message}
use pcan_alterative.Doip.Message.Run.{Answers}
use pcan_alterative.Doip.Uds.{uds_dispatch}
use pcan_alterative.Doip.Udp.{doip_handle_udp}
use pcan_alterative.Doip.Udp.Discovery.{doip_handle_udp-Answers}
use pcan_alterative.Doip.Tcp.{tcp_switch, doip_handle_tcp}
use pcan_alterative.Doip.Tcp.Response.{doip_handle_tcp-Answers}
use pcan_alterative.Doip.Tcp.State.{Moves, doip_handle_tcp-Moves}
use pcan_alterative.Doip.Tcp.Activation.{activation_resp}
use pcan_alterative.Doip.Tcp.Diagnostics.{diag_answered, vin_session, entity_ack, uds_message}
use pcan_alterative.Doip.Tcp.Lengths.{length_check_wraps}
use pcan_alterative.Examples.Bytes.{order, order_laws, get_le, flip}

abbrev tail : List ℕ
tail = replicate 5 0

abbrev open_conn : Conn
open_conn = record { routing_active = true; tester_addr = 0x0e00; block_seq = 0 }

vin_session_example :
    let request : List ℕ = uds_sid_read_data_by_id ∷ order.put_be16 uds_did_vin in
    let (c1, r1) =
      doip_handle_tcp order doip_conn_init
        (message order doip_pt_routing_activation_req (order.put_be16 0x0e00 ++ tail))
        592 in
    let (c2, r2) =
      doip_handle_tcp order c1
        (message order doip_pt_diag_message
          (order.put_be16 0x0e00 ++ (order.put_be16 doip_entity_logical_addr ++ request)))
        592 in
    (r1 ≡ ok (activation_resp order order_laws 0x0e00 doip_ra_code_success))
    × (r2
        ≡ ok (
            entity_ack order order_laws 0x0e00
            ++ uds_message order order_laws 0x0e00
                (0x62 ∷ (order.put_be16 uds_did_vin ++ doip_vin))))
    × (c2 ≡ record { routing_active = true; tester_addr = 0x0e00; block_seq = 0 })
vin_session_example =
    vin_session order order_laws 0x0e00 tail 592 (omega arith) (omega arith) (omega arith)
      (omega arith) (omega arith)

doip_handle_tcp-Answers_example :
    Answers order 592 (doip_handle_tcp order open_conn (2 ∷ 0xfd ∷ 7 ∷ []) 592).1
doip_handle_tcp-Answers_example =
    doip_handle_tcp-Answers order order_laws open_conn (2 ∷ 0xfd ∷ 7 ∷ []) 592

diag_answered_example :
    let (conn', answer) = uds_dispatch order open_conn (0x36 ∷ 1 ∷ []) 2 64 in
    doip_handle_tcp order open_conn
      (message order doip_pt_diag_message
        (order.put_be16 0x0e00 ++ (order.put_be16 doip_entity_logical_addr ++ (0x36 ∷ 1 ∷ []))))
      592
    ≡ (
      conn',
      ok (
          if length answer == 0
          then entity_ack order order_laws 0x0e00
          else entity_ack order order_laws 0x0e00 ++ uds_message order order_laws 0x0e00 answer),
    )
diag_answered_example =
    diag_answered order order_laws 0x0e00 0 0x0e00 (0x36 ∷ 1 ∷ []) 592 (omega arith) (omega arith)
      (omega arith)

doip_handle_udp-Answers_example :
    Answers order 64 (doip_handle_udp order (2 ∷ 0xfd ∷ 0 ∷ 1 ∷ 0 ∷ 0 ∷ 0 ∷ 0 ∷ []) 64)
doip_handle_udp-Answers_example =
    doip_handle_udp-Answers order order_laws (2 ∷ 0xfd ∷ 0 ∷ 1 ∷ 0 ∷ 0 ∷ 0 ∷ 0 ∷ []) 64

doip_handle_tcp-Moves_example :
    Moves doip_conn_init
      (doip_handle_tcp order doip_conn_init
        (message order doip_pt_routing_activation_req (order.put_be16 0x0e00 ++ tail))
        592).0
doip_handle_tcp-Moves_example =
    doip_handle_tcp-Moves order doip_conn_init
      (message order doip_pt_routing_activation_req (order.put_be16 0x0e00 ++ tail)) 592

-- A header that states two bytes, and one that states 2^32 - 1, each with one byte behind it.
abbrev short_message : List ℕ
short_message = 2 ∷ 0xfd ∷ 0x80 ∷ 1 ∷ 0 ∷ 0 ∷ 0 ∷ 2 ∷ 5 ∷ []

abbrev huge_message : List ℕ
huge_message = 2 ∷ 0xfd ∷ 0x80 ∷ 1 ∷ 255 ∷ 255 ∷ 255 ∷ 255 ∷ 5 ∷ []

short_header : doip_parse_header order short_message ≡ ok (0x8001, 2)
unfolding doip_parse_header get_le flip
short_header = refl

huge_header : doip_parse_header order huge_message ≡ ok (0x8001, 4294967295)
unfolding doip_parse_header get_le flip
huge_header = refl

length_check_wraps_example :
    (doip_handle_tcp order open_conn huge_message 592
      ≡ tcp_switch order open_conn 0x8001
          (slice huge_message doip_header_size 4294967295)
          4294967295
          592)
    × (length (slice huge_message doip_header_size 4294967295) < 4294967295)
length_check_wraps_example =
    length_check_wraps order open_conn huge_message 0x8001 4294967295 592 huge_header (omega arith)
      (omega arith) (omega arith) (omega arith)
