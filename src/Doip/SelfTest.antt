-- ===== src/Doip/SelfTest.antt =====
-- apps/eth_doip/src/main.c: the self-test of the messages, and the start of the server behind it.
pub mod Fields
pub mod Verdict
use pcan_alterative.Base.{ℕ, ◌+◌, Bool, true, false, ◌&&◌, not, List, [], ◌∷◌, ◌++◌, Result, ok}
use pcan_alterative.Base.{err, ltb, ◌==◌, if◌then◌else◌, length, drop, slice, byte_at, replicate}
use pcan_alterative.Base.{bit_or}
use pcan_alterative.Base.ByteOrder.{ByteOrder}
use pcan_alterative.Doip.Types.{
  Conn, doip_conn_init, doip_protocol_version, doip_inverse_version, doip_header_size,
  doip_pt_routing_activation_req, doip_pt_routing_activation_resp, doip_pt_diag_message,
  doip_pt_diag_message_pos_ack, doip_ra_code_success, doip_entity_logical_addr,
  uds_sid_read_data_by_id, uds_positive_response_mask,
}
use pcan_alterative.Doip.Tcp.{Answer, doip_handle_tcp}
use pcan_alterative.Doip.Server.{Thread, doip_server_start}

-- `sizeof(resp)`
abbrev pub resp_size : ℕ
resp_size = 256

-- The buffer `resp` with `bytes` written to its front.
abbrev pub overwrite : List ℕ → List ℕ → List ℕ
overwrite bytes resp = bytes ++ drop (length bytes) resp

module _ (bo : ByteOrder) where
  -- `msg` before the first call, and before the second, where the first two bytes are kept.
  unfoldable pub activation_request : List ℕ
  activation_request =
      doip_protocol_version
      ∷ doip_inverse_version
      ∷ (bo.put_be16 doip_pt_routing_activation_req
          ++ (bo.put_be32 7 ++ (bo.put_be16 0x0e80 ++ (0x00 ∷ replicate 4 0))))

  unfoldable pub vin_request : List ℕ
  vin_request =
      doip_protocol_version
      ∷ doip_inverse_version
      ∷ (bo.put_be16 doip_pt_diag_message
          ++ (bo.put_be32 7
              ++ (bo.put_be16 0x0e80
                  ++ (bo.put_be16 doip_entity_logical_addr
                      ++ (uds_sid_read_data_by_id ∷ bo.put_be16 0xf190)))))

  -- What is looked at in `resp` after the second call.
  unfoldable pub vin_found : List ℕ → Bool
  vin_found resp =
      let off = doip_header_size + 5 in
      (bo.get_be16 (slice resp 2 2) == doip_pt_diag_message_pos_ack)
      && ((bo.get_be16 (slice resp (off + 2) 2) == doip_pt_diag_message)
          && ((byte_at resp (off + (doip_header_size + 4))
                == bit_or uds_sid_read_data_by_id uds_positive_response_mask)
              && (bo.get_be16 (slice resp (off + (doip_header_size + 5)) 2) == 0xf190)))

  -- From the second call's result on; `rc <= 0` is an error or no bytes.
  unfoldable pub after_request : List ℕ → Result (List ℕ) → Bool
  unfolding vin_found
  after_request resp (err e) = false
  after_request resp (ok []) = false
  after_request resp (ok (b ∷ bs)) = vin_found (overwrite (b ∷ bs) resp)

  -- What is looked at after the first call.
  unfoldable pub is_activated : Conn → ℕ → List ℕ → Bool
  is_activated conn rc resp =
      not (ltb rc (doip_header_size + 9))
      && ((bo.get_be16 (slice resp 2 2) == doip_pt_routing_activation_resp)
          && ((byte_at resp 12 == doip_ra_code_success) && conn.routing_active))

  -- From the first call's answer on.
  unfoldable pub after_activation : List ℕ → Answer → Bool
  unfolding after_request is_activated vin_request doip_handle_tcp
  after_activation stale (conn, err e) = false
  after_activation stale (conn, ok bytes) =
      let resp = overwrite bytes stale in
      if is_activated conn (length bytes) resp
      then after_request resp (doip_handle_tcp bo conn vin_request resp_size).1
      else false

  -- `stale` is what the uninitialised `resp` holds.
  unfoldable pub doip_selftest : List ℕ → Bool
  unfolding after_activation activation_request doip_handle_tcp
  doip_selftest stale =
      after_activation stale (doip_handle_tcp bo doip_conn_init activation_request resp_size)

  -- The threads that run when `main` has returned.
  unfoldable pub main : List ℕ → List Thread
  unfolding doip_selftest doip_server_start
  main stale = if doip_selftest stale then doip_server_start.0 else []
