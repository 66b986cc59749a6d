-- ===== src/Doip/Types.antt =====
-- doip.h: constants and the state of a connection; doip.c: the entity's identity.
use pcan_alterative.Base.{ℕ, Bool, false, List, [], ◌∷◌}

abbrev pub doip_protocol_version : ℕ
doip_protocol_version = 0x02

-- `(uint8_t)~DOIP_PROTOCOL_VERSION`, which is DOIP_INVERSE_VERSION.
abbrev pub doip_inverse_version : ℕ
doip_inverse_version = 0xfd

abbrev pub doip_header_size : ℕ
doip_header_size = 8

-- Payload types.
abbrev pub doip_pt_generic_nack : ℕ
doip_pt_generic_nack = 0x0000

abbrev pub doip_pt_vehicle_id_req : ℕ
doip_pt_vehicle_id_req = 0x0001

abbrev pub doip_pt_vehicle_id_req_eid : ℕ
doip_pt_vehicle_id_req_eid = 0x0002

abbrev pub doip_pt_vehicle_id_req_vin : ℕ
doip_pt_vehicle_id_req_vin = 0x0003

abbrev pub doip_pt_vehicle_announcement : ℕ
doip_pt_vehicle_announcement = 0x0004

abbrev pub doip_pt_routing_activation_req : ℕ
doip_pt_routing_activation_req = 0x0005

abbrev pub doip_pt_routing_activation_resp : ℕ
doip_pt_routing_activation_resp = 0x0006

abbrev pub doip_pt_alive_check_req : ℕ
doip_pt_alive_check_req = 0x0007

abbrev pub doip_pt_alive_check_resp : ℕ
doip_pt_alive_check_resp = 0x0008

abbrev pub doip_pt_diag_message : ℕ
doip_pt_diag_message = 0x8001

abbrev pub doip_pt_diag_message_pos_ack : ℕ
doip_pt_diag_message_pos_ack = 0x8002

abbrev pub doip_pt_diag_message_neg_ack : ℕ
doip_pt_diag_message_neg_ack = 0x8003

-- Generic header NACK codes.
abbrev pub doip_nack_incorrect_pattern : ℕ
doip_nack_incorrect_pattern = 0x00

abbrev pub doip_nack_unknown_payload_type : ℕ
doip_nack_unknown_payload_type = 0x01

abbrev pub doip_nack_invalid_length : ℕ
doip_nack_invalid_length = 0x04

-- Routing activation and diagnostic message codes.
abbrev pub doip_ra_code_success : ℕ
doip_ra_code_success = 0x10

abbrev pub doip_ra_code_unknown_sa : ℕ
doip_ra_code_unknown_sa = 0x00

abbrev pub doip_diag_ack_ok : ℕ
doip_diag_ack_ok = 0x00

abbrev pub doip_diag_nack_unknown_ta : ℕ
doip_diag_nack_unknown_ta = 0x03

-- Addresses.
abbrev pub doip_entity_logical_addr : ℕ
doip_entity_logical_addr = 0x1234

abbrev pub doip_tester_addr_min : ℕ
doip_tester_addr_min = 0x0e00

abbrev pub doip_tester_addr_max : ℕ
doip_tester_addr_max = 0x0fff

-- UDS service identifiers and negative response codes.
abbrev pub uds_sid_read_data_by_id : ℕ
uds_sid_read_data_by_id = 0x22

abbrev pub uds_sid_request_upload : ℕ
uds_sid_request_upload = 0x35

abbrev pub uds_sid_transfer_data : ℕ
uds_sid_transfer_data = 0x36

abbrev pub uds_sid_request_xfer_exit : ℕ
uds_sid_request_xfer_exit = 0x37

abbrev pub uds_positive_response_mask : ℕ
uds_positive_response_mask = 0x40

abbrev pub uds_nrc_service_not_supported : ℕ
uds_nrc_service_not_supported = 0x11

abbrev pub uds_nrc_request_out_of_range : ℕ
uds_nrc_request_out_of_range = 0x31

abbrev pub uds_did_vin : ℕ
uds_did_vin = 0xf190

abbrev pub uds_did_log_status : ℕ
uds_did_log_status = 0xfd00

-- "EKRA8D1CANLOGGER0"
abbrev pub doip_vin : List ℕ
doip_vin =
    b'E' ∷ b'K' ∷ b'R' ∷ b'A' ∷ b'8' ∷ b'D' ∷ b'1' ∷ b'C' ∷ b'A' ∷ b'N' ∷ b'L' ∷ b'O' ∷ b'G' ∷ b'G'
    ∷ b'E' ∷ b'R' ∷ b'0' ∷ []

abbrev pub doip_eid : List ℕ
doip_eid = 0x74 ∷ 0x90 ∷ 0x50 ∷ 0xb0 ∷ 0x5d ∷ 0xe9 ∷ []

abbrev pub doip_gid : List ℕ
doip_gid = 0x00 ∷ 0x00 ∷ 0x00 ∷ 0x00 ∷ 0x00 ∷ 0x01 ∷ []

-- `struct doip_conn` and `doip_conn_init`.
pub record Conn : Type 0 where
  pub routing_active : Bool
  pub tester_addr : ℕ
  pub block_seq : ℕ

abbrev pub doip_conn_init : Conn
doip_conn_init = record { routing_active = false; tester_addr = 0; block_seq = 0 }
