-- ===== src/Doip/Tcp/Response.antt =====
-- Every answer on TCP is a run of whole DoIP messages that fits the response buffer.
use pcan_alterative.Base.{ℕ, ◌+◌, ◌-◌, ◌%◌, ◌^◌, ◌≤◌, ◌<◌, ◌≡◌, refl, List, [], ◌∷◌}
use pcan_alterative.Base.{◌++◌, Result, ok, err, Errno, length, length-append}
use pcan_alterative.Base.{arith, Bool-cases, inl, inr, ltb, slice, drop}
use pcan_alterative.Base.{◌==◌}
use pcan_alterative.Base.ByteOrder.{ByteOrder, ByteOrderLaws}
use native.Mathlib.Decide.{dec_le}
use pcan_alterative.Doip.Types.{
  Conn, doip_entity_logical_addr, doip_diag_ack_ok, doip_pt_diag_message,
  doip_pt_diag_message_pos_ack, doip_pt_diag_message_neg_ack, doip_vin,
}
use pcan_alterative.Doip.Message.{doip_parse_header, emit}
use pcan_alterative.Doip.Message.Header.{message, length-message, emit-fits}
use pcan_alterative.Doip.Message.Run.{
  AreMessages, end, Answers, sent, no_room, one-AreMessages, emit-enomem, emit-Answers,
  AreMessages-append, nack-Answers,
}
use pcan_alterative.Doip.Uds.{uds_dispatch}
use pcan_alterative.Doip.Udp.{bad_header}
use pcan_alterative.Doip.Tcp.{
  Answer, handle_routing_activation, ack_payload, diag_response, handle_diag_message, tcp_switch,
  tcp_message, doip_handle_tcp,
}

module _ (bo : ByteOrder) (laws : ByteOrderLaws bo) where
  -- No service writes more than 20 bytes, so the 64 bytes behind the addresses are never overrun.
  pub length-uds_dispatch :
      (conn : Conn) (uds : List ℕ) (n out_size : ℕ)
      → length (uds_dispatch bo conn uds n out_size).1 ≤ 20
  unfolding uds_dispatch
  length-uds_dispatch conn uds n out_size =
      let did = bo.get_be16 (slice uds 1 2) in
      ground (
        arith,
        length-append (bo.put_be16 did) doip_vin,
        length-append (bo.put_be16 did) (bo.put_be16 0 ++ bo.put_be32 0),
        length-append (bo.put_be16 0) (bo.put_be32 0),
        laws.be16.length_put did,
        laws.be16.length_put 0,
        laws.be16.length_put 1024,
        laws.be32.length_put 0,
      )

  pub length-ack_payload : (source target code : ℕ) → length (ack_payload bo source target code) ≡ 5
  unfolding ack_payload
  length-ack_payload source target code =
      let t : List ℕ = code ∷ [] in
      omega (
        arith,
        length-append (bo.put_be16 source) (bo.put_be16 target ++ t),
        length-append (bo.put_be16 target) t,
        laws.be16.length_put source,
        laws.be16.length_put target,
      )

  ack-Answers :
      (resp_size type source target code : ℕ)
      → type < 2 ^ 16
      → Answers bo resp_size (emit bo resp_size type (ack_payload bo source target code))
  ack-Answers resp_size type source target code h =
      emit-Answers bo laws resp_size type (ack_payload bo source target code) h
        (omega (arith, length-ack_payload source target code))

  length-two_addresses :
      (source target : ℕ) (rest : List ℕ)
      → length (bo.put_be16 source ++ (bo.put_be16 target ++ rest)) ≡ 4 + length rest
  length-two_addresses source target rest = omega (
    arith,
    length-append (bo.put_be16 source) (bo.put_be16 target ++ rest),
    length-append (bo.put_be16 target) rest,
    laws.be16.length_put source,
    laws.be16.length_put target,
  )

  routing-Answers :
      (conn : Conn) (pl : List ℕ) (plen resp_size : ℕ)
      → Answers bo resp_size (handle_routing_activation bo conn pl plen resp_size).1
  unfolding handle_routing_activation
  routing-Answers conn pl plen resp_size = elim (Bool-cases (ltb plen 7)) [
    | inl short ↦ rw short (nack-Answers bo laws resp_size 4)
    | inr long ↦ rw long (
        emit-Answers bo laws resp_size 6 _ (omega arith)
          (omega (arith, length-two_addresses (bo.get_be16 (slice pl 0 2)) 0x1234 _)))
  ]

  -- A diagnostic message of at most 24 bytes behind an acknowledgement of 13 bytes.
  behind-Answers :
      (resp_size : ℕ) (ack dm : List ℕ)
      → AreMessages bo ack
      → length ack ≡ 13
      → 13 ≤ resp_size
      → length dm ≤ 24
      → Answers bo resp_size
          (elim (emit bo (resp_size - length ack) doip_pt_diag_message dm)
            as (λ r. Result (List ℕ)) [ ok rest ↦ ok (ack ++ rest) | err e ↦ err e ])
  behind-Answers resp_size ack dm a e h hd =
      elim (dec_le (length dm + 8) (resp_size - length ack)) [
        | yes fits ↦
            let m = message bo doip_pt_diag_message dm in
            rw
              (emit-fits bo laws (resp_size - length ack) doip_pt_diag_message dm (omega arith)
                fits)
              (sent (ack ++ m) refl
                (AreMessages-append bo laws a
                  (one-AreMessages bo laws doip_pt_diag_message dm (omega arith) (omega arith)))
                (omega
                  (arith, length-append ack m, length-message bo laws doip_pt_diag_message dm)))
        | no small ↦
            rw
              (emit-enomem bo laws (resp_size - length ack) doip_pt_diag_message dm (omega arith)
                (omega arith))
              (no_room refl (omega arith))
      ]

  diag_response-Answers :
      (conn : Conn) (pl ack : List ℕ) (plen resp_size : ℕ)
      → AreMessages bo ack
      → length ack ≡ 13
      → 13 ≤ resp_size
      → Answers bo resp_size (diag_response bo conn pl plen ack resp_size).1
  unfolding diag_response
  diag_response-Answers conn pl ack plen resp_size a e h =
      let uds = (uds_dispatch bo conn (drop 4 pl) (plen - 4) 64).1 in
      let sa = bo.get_be16 (slice pl 0 2) in
      elim (Bool-cases (length uds == 0)) [
        | inl silent ↦ rw silent (sent ack refl a (omega arith))
        | inr spoken ↦ rw spoken (
            behind-Answers resp_size ack
              (bo.put_be16 doip_entity_logical_addr ++ (bo.put_be16 sa ++ uds)) a e h
              (omega (
                arith,
                length-two_addresses doip_entity_logical_addr sa uds,
                length-uds_dispatch conn (drop 4 pl) (plen - 4) 64,
              )))
      ]

  -- The acknowledgement, and what follows if it has been written.
  accept-Answers :
      (conn : Conn) (pl : List ℕ) (plen resp_size sa : ℕ)
      → Answers bo resp_size
          (elim (emit bo resp_size doip_pt_diag_message_pos_ack
              (ack_payload bo doip_entity_logical_addr sa doip_diag_ack_ok))
            as (λ r. Answer) [
              | ok ack ↦ diag_response bo conn pl plen ack resp_size
              | err e ↦ (conn, err e)
            ]).1
  accept-Answers conn pl plen resp_size sa =
      let p = ack_payload bo doip_entity_logical_addr sa doip_diag_ack_ok in
      let n = length-ack_payload doip_entity_logical_addr sa doip_diag_ack_ok in
      elim (dec_le (length p + 8) resp_size) [
        | yes fits ↦
            rw (emit-fits bo laws resp_size doip_pt_diag_message_pos_ack p (omega arith) fits) (
              diag_response-Answers conn pl (message bo doip_pt_diag_message_pos_ack p) plen
                resp_size
                (one-AreMessages bo laws doip_pt_diag_message_pos_ack p (omega arith) (omega arith))
                (omega (arith, length-message bo laws doip_pt_diag_message_pos_ack p))
                (omega arith))
        | no small ↦
            rw
              (emit-enomem bo laws resp_size doip_pt_diag_message_pos_ack p (omega arith)
                (omega arith))
              (no_room refl (omega arith))
      ]

  diag-Answers :
      (conn : Conn) (pl : List ℕ) (plen resp_size : ℕ)
      → Answers bo resp_size (handle_diag_message bo conn pl plen resp_size).1
  unfolding handle_diag_message
  diag-Answers conn pl plen resp_size =
      let sa = bo.get_be16 (slice pl 0 2) in
      let ta = bo.get_be16 (slice pl 2 2) in
      let refused =
        λ (code : ℕ). ack-Answers resp_size doip_pt_diag_message_neg_ack ta sa code (omega arith) in
      elim (Bool-cases (ltb plen 4)) [
        | inl short ↦ rw short (nack-Answers bo laws resp_size 4)
        | inr long ↦ elim (Bool-cases conn.routing_active) [
          | inr inactive ↦ rw (long, inactive) (refused 6)
          | inl active ↦ elim (Bool-cases (ta == doip_entity_logical_addr)) [
            | inl ours ↦ rw (long, active, ours) (accept-Answers conn pl plen resp_size sa)
            | inr other ↦ rw (long, active, other) (refused 3)
          ]
        ]
      ]

  switch-Answers :
      (conn : Conn) (type : ℕ) (pl : List ℕ) (plen resp_size : ℕ)
      → Answers bo resp_size (tcp_switch bo conn type pl plen resp_size).1
  unfolding tcp_switch
  switch-Answers conn type pl plen resp_size = elim (Bool-cases (type == 5)) [
    | inl routing ↦ rw routing (routing-Answers conn pl plen resp_size)
    | inr n1 ↦ elim (Bool-cases (type == 7)) [
      | inl alive ↦
          rw (n1, alive)
            (emit-Answers bo laws resp_size 8 (bo.put_be16 doip_entity_logical_addr) (omega arith)
              (omega (arith, laws.be16.length_put doip_entity_logical_addr)))
      | inr n2 ↦ elim (Bool-cases (type == doip_pt_diag_message)) [
        | inl diag ↦ rw (n1, n2, diag) (diag-Answers conn pl plen resp_size)
        | inr n3 ↦ rw (n1, n2, n3) (nack-Answers bo laws resp_size 1)
      ]
    ]
  ]

  pub bad_header-Answers :
      (e : Errno) (resp_size : ℕ) → Answers bo resp_size (bad_header bo e resp_size)
  unfolding bad_header
  bad_header-Answers Errno.ebadmsg resp_size = nack-Answers bo laws resp_size 0
  bad_header-Answers _ resp_size = sent [] refl end (omega arith)

  message-Answers :
      (conn : Conn) (msg : List ℕ) (resp_size : ℕ) (header : Result (ℕ × ℕ))
      → Answers bo resp_size (tcp_message bo conn msg resp_size header).1
  unfolding tcp_message
  message-Answers conn msg resp_size (err e) = bad_header-Answers e resp_size
  message-Answers conn msg resp_size (ok (type, plen)) =
      elim (Bool-cases (ltb (length msg) ((8 + plen) % 2 ^ 32))) [
        | inl short ↦ rw short (nack-Answers bo laws resp_size 4)
        | inr whole ↦ rw whole (switch-Answers conn type (slice msg 8 plen) plen resp_size)
      ]

  -- On any bytes and in any state `doip_handle_tcp` answers with a run of whole DoIP messages that
  -- fits the response buffer, and fails only on a buffer of less than 45 bytes.
  pub doip_handle_tcp-Answers :
      (conn : Conn) (msg : List ℕ) (resp_size : ℕ)
      → Answers bo resp_size (doip_handle_tcp bo conn msg resp_size).1
  unfolding doip_handle_tcp
  doip_handle_tcp-Answers conn msg resp_size =
      message-Answers conn msg resp_size (doip_parse_header bo msg)
