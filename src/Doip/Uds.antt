-- ===== src/Doip/Uds.antt =====
-- doip.c, the UDS services of the data download. The list is the UDS request, `n` its
-- length; the result is the bytes written to `out`, none for `return 0`.
use pcan_alterative.Base.{ℕ, List, [], ◌∷◌, ◌++◌, ltb, ◌==◌, ◌||◌, if◌then◌else◌}
use pcan_alterative.Base.{slice, byte_at, replicate, bit_or}
use pcan_alterative.Base.ByteOrder.{ByteOrder}
use pcan_alterative.Doip.Types.{
  uds_sid_read_data_by_id, uds_sid_request_upload, uds_sid_transfer_data, uds_sid_request_xfer_exit,
  uds_positive_response_mask, uds_nrc_service_not_supported, uds_nrc_request_out_of_range,
  uds_did_vin, uds_did_log_status, doip_vin, Conn,
}

unfoldable pub uds_nrc : ℕ → ℕ → List ℕ
uds_nrc sid nrc = 0x7f ∷ sid ∷ nrc ∷ []

module _ (bo : ByteOrder) where
  -- The case UDS_SID_READ_DATA_BY_ID.
  unfoldable pub read_data_by_id : List ℕ → ℕ → List ℕ
  unfolding uds_nrc
  read_data_by_id uds n =
      let sid = byte_at uds 0 in
      let did = bo.get_be16 (slice uds 1 2) in
      let head : List ℕ =
        bit_or uds_sid_read_data_by_id uds_positive_response_mask ∷ bo.put_be16 did in
      if ltb n 3
      then uds_nrc sid uds_nrc_request_out_of_range
      else if did == uds_did_vin
      then head ++ doip_vin
      else if did == uds_did_log_status
      then head ++ (bo.put_be16 0 ++ bo.put_be32 0)
      else uds_nrc sid uds_nrc_request_out_of_range

  -- The case UDS_SID_REQUEST_UPLOAD.
  unfoldable pub request_upload : List ℕ
  request_upload =
      bit_or uds_sid_request_upload uds_positive_response_mask ∷ 0x20 ∷ bo.put_be16 1024

  unfoldable pub uds_dispatch : Conn → List ℕ → ℕ → ℕ → Conn × List ℕ
  unfolding read_data_by_id request_upload uds_nrc
  uds_dispatch conn uds n out_size =
      let sid = byte_at uds 0 in
      if n == 0 || ltb out_size 8
      then (conn, [])
      else if sid == uds_sid_read_data_by_id
      then (conn, read_data_by_id uds n)
      else if sid == uds_sid_request_upload
      then (record conn { block_seq = 0 }, request_upload)
      else if sid == uds_sid_transfer_data
      then if ltb n 2 then (conn, uds_nrc sid uds_nrc_request_out_of_range) else (
        record conn { block_seq = byte_at uds 1 },
        bit_or uds_sid_transfer_data uds_positive_response_mask ∷ byte_at uds 1 ∷ replicate 8 0xaa,
      )
      else if sid == uds_sid_request_xfer_exit
      then (conn, bit_or uds_sid_request_xfer_exit uds_positive_response_mask ∷ [])
      else (conn, uds_nrc sid uds_nrc_service_not_supported)
