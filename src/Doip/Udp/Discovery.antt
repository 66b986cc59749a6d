-- ===== src/Doip/Udp/Discovery.antt =====
-- What `doip_handle_udp` answers.
use pcan_alterative.Base.{ℕ, ◌^◌, ◌≤◌, ◌<◌, ◌≡◌, ◌⊎◌, inl, inr, List, [], ◌++◌, ok, err}
use pcan_alterative.Base.{
  length, length-append, arith, Errno, Result, Bool-cases, ◌==◌, ◌||◌, ◌∷◌, true, refl,
}
use pcan_alterative.Base.ByteOrder.{ByteOrder, ByteOrderLaws}
use pcan_alterative.Doip.Types.{
  doip_pt_vehicle_announcement, doip_pt_vehicle_id_req, doip_pt_vehicle_id_req_eid,
  doip_pt_vehicle_id_req_vin, doip_entity_logical_addr, doip_eid, doip_gid, doip_vin,
}
use pcan_alterative.Doip.Message.{doip_parse_header, announcement, build_vehicle_announcement}
use pcan_alterative.Doip.Message.Header.{message, emit-fits, parse_header-alone}
use pcan_alterative.Doip.Message.Run.{Answers, sent, end, emit-Answers, nack-Answers}
use pcan_alterative.Doip.Udp.{bad_header, udp_switch, udp_message, doip_handle_udp}

module _ (bo : ByteOrder) (laws : ByteOrderLaws bo) where
  length-announcement : length (announcement bo) ≡ 32
  unfolding announcement
  length-announcement = omega (
    arith,
    length-append (bo.put_be16 doip_entity_logical_addr) (doip_eid ++ (doip_gid ++ (0 ∷ []))),
    laws.be16.length_put doip_entity_logical_addr,
  )

  announcement-Answers :
      (resp_size : ℕ) → Answers bo resp_size (build_vehicle_announcement bo resp_size)
  unfolding build_vehicle_announcement
  announcement-Answers resp_size =
      emit-Answers bo laws resp_size 4 (announcement bo) (omega arith)
        (omega (arith, length-announcement))

  request-type :
      (type : ℕ)
      → (type ≡ 1) ⊎ ((type ≡ 2) ⊎ (type ≡ 3))
      → (type == 1 || (type == 2 || type == 3)) ≡ true
  request-type type h = ground arith

  message-Answers :
      (resp_size : ℕ) (header : Result (ℕ × ℕ))
      → Answers bo resp_size (udp_message bo resp_size header)
  unfolding udp_message udp_switch bad_header
  message-Answers resp_size (err Errno.ebadmsg) = nack-Answers bo laws resp_size 0
  message-Answers resp_size (err _) = sent [] refl end (omega arith)
  message-Answers resp_size (ok (type, plen)) =
      elim (Bool-cases (type == 1 || (type == 2 || type == 3))) [
        | inl request ↦ rw request (announcement-Answers resp_size)
        | inr other ↦ rw other (nack-Answers bo laws resp_size 1)
      ]

  -- On any datagram `doip_handle_udp` answers with a run of whole DoIP messages that fits the
  -- response buffer, and fails only on a buffer of less than 45 bytes.
  pub doip_handle_udp-Answers :
      (msg : List ℕ) (resp_size : ℕ) → Answers bo resp_size (doip_handle_udp bo msg resp_size)
  unfolding doip_handle_udp
  doip_handle_udp-Answers msg resp_size = message-Answers resp_size (doip_parse_header bo msg)

  -- Each of the three identification requests, with any payload of less than 2^32 bytes, is
  -- answered by one vehicle announcement with the VIN, the logical address, the EID and the GID,
  -- if the response buffer holds 40 bytes.
  pub identification_answered :
      (type : ℕ) (payload : List ℕ) (resp_size : ℕ)
      → (type ≡ doip_pt_vehicle_id_req)
        ⊎ ((type ≡ doip_pt_vehicle_id_req_eid) ⊎ (type ≡ doip_pt_vehicle_id_req_vin))
      → length payload < 2 ^ 32
      → 40 ≤ resp_size
      → doip_handle_udp bo (message bo type payload) resp_size
        ≡ ok (
            message bo doip_pt_vehicle_announcement (
              doip_vin
              ++ (bo.put_be16 doip_entity_logical_addr ++ (doip_eid ++ (doip_gid ++ (0 ∷ []))))))
  unfolding doip_handle_udp udp_switch build_vehicle_announcement announcement
  identification_answered type payload resp_size ht hp hr =
      let h : type < 2 ^ 16 = ground arith in
      rw (parse_header-alone bo laws type payload h hp) (
        rw (request-type type ht) (
          emit-fits bo laws resp_size doip_pt_vehicle_announcement (announcement bo)
            (omega (arith, length-announcement)) (omega (arith, length-announcement))))
