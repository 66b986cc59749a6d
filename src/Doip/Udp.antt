-- ===== src/Doip/Udp.antt =====
-- doip.c, the handler of discovery messages.
pub mod Discovery
use pcan_alterative.Base.{ℕ, ◌||◌, List, [], Result, ok, err, ◌==◌, if◌then◌else◌, ebadmsg}
use pcan_alterative.Base.{Errno}
use pcan_alterative.Base.ByteOrder.{ByteOrder}
use pcan_alterative.Doip.Types.{
  doip_nack_incorrect_pattern, doip_nack_unknown_payload_type, doip_pt_vehicle_id_req,
  doip_pt_vehicle_id_req_eid, doip_pt_vehicle_id_req_vin,
}
use pcan_alterative.Doip.Message.{doip_parse_header, emit_generic_nack, build_vehicle_announcement}

module _ (bo : ByteOrder) where
  -- What the handlers do with a header that is refused.
  unfoldable pub bad_header : Errno → ℕ → Result (List ℕ)
  bad_header ebadmsg resp_size = emit_generic_nack bo resp_size doip_nack_incorrect_pattern
  bad_header _ resp_size = ok []

  unfoldable pub udp_switch : ℕ → ℕ → Result (List ℕ)
  udp_switch type resp_size =
      if type == doip_pt_vehicle_id_req
        || (type == doip_pt_vehicle_id_req_eid || type == doip_pt_vehicle_id_req_vin)
      then build_vehicle_announcement bo resp_size
      else emit_generic_nack bo resp_size doip_nack_unknown_payload_type

  -- `doip_handle_udp` behind the call of `doip_parse_header`.
  unfoldable pub udp_message : ℕ → Result (ℕ × ℕ) → Result (List ℕ)
  udp_message resp_size (ok (type, plen)) = udp_switch type resp_size
  udp_message resp_size (err e) = bad_header e resp_size

  unfoldable pub doip_handle_udp : List ℕ → ℕ → Result (List ℕ)
  unfolding udp_message
  doip_handle_udp msg resp_size = udp_message resp_size (doip_parse_header bo msg)
