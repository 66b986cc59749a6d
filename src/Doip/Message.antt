-- ===== src/Doip/Message.antt =====
-- doip.c: the header, `emit` and the answers that every handler uses. A result `ok bytes` stands
-- for the bytes that are written to `resp`, whose number is returned; `ok []` is `return 0`.
-- `size_t` and `uint32_t` have 32 bits on the target.
pub mod Header
pub mod Run
use pcan_alterative.Base.{ℕ, ◌+◌, ◌%◌, ◌^◌, List, [], ◌∷◌, ◌++◌, Result, ok, err, einval, ebadmsg}
use pcan_alterative.Base.{enomem, ltb, ◌==◌, ◌&&◌, if◌then◌else◌, length, slice, byte_at}
use pcan_alterative.Base.ByteOrder.{ByteOrder}
use pcan_alterative.Doip.Types.{
  doip_protocol_version, doip_inverse_version, doip_header_size, doip_pt_generic_nack,
  doip_pt_vehicle_announcement, doip_entity_logical_addr, doip_vin, doip_eid, doip_gid,
}

module _ (bo : ByteOrder) where
  -- The list is the buffer of `len` bytes; the result is the payload's type and length.
  unfoldable pub doip_parse_header : List ℕ → Result (ℕ × ℕ)
  doip_parse_header buf =
      if ltb (length buf) doip_header_size
      then err einval
      else if byte_at buf 0 == doip_protocol_version && byte_at buf 1 == doip_inverse_version
      then ok (bo.get_be16 (slice buf 2 2), bo.get_be32 (slice buf 4 4))
      else err ebadmsg

  unfoldable pub emit : ℕ → ℕ → List ℕ → Result (List ℕ)
  emit resp_size type payload =
      if ltb resp_size ((doip_header_size + length payload) % 2 ^ 32)
      then err enomem
      else ok (
          doip_protocol_version
          ∷ doip_inverse_version
          ∷ (bo.put_be16 type ++ (bo.put_be32 (length payload) ++ payload)))

  unfoldable pub emit_generic_nack : ℕ → ℕ → Result (List ℕ)
  emit_generic_nack resp_size code = emit resp_size doip_pt_generic_nack (code ∷ [])

  unfoldable pub announcement : List ℕ
  announcement =
      doip_vin ++ (bo.put_be16 doip_entity_logical_addr ++ (doip_eid ++ (doip_gid ++ (0x00 ∷ []))))

  unfoldable pub build_vehicle_announcement : ℕ → Result (List ℕ)
  build_vehicle_announcement resp_size = emit resp_size doip_pt_vehicle_announcement announcement
