-- ===== src/Doip/Tcp/Activation.antt =====
-- Routing activation, and how a whole message reaches its handler.
use pcan_alterative.Base.{ℕ, ◌+◌, ◌%◌, ◌^◌, ◌≤◌, ◌<◌, ◌≡◌, ◌∙◌, List, ◌∷◌}
use pcan_alterative.Base.{◌++◌, ok, length, length-append, arith, true, inl}
use pcan_alterative.Base.{inr, Bool-cases, leb, ◌&&◌, slice, replicate, if◌then◌else◌}
use pcan_alterative.Base.{take-append_length, ge→ltb, slice-middle}
use pcan_alterative.Base.ByteOrder.{ByteOrder, ByteOrderLaws}
use pcan_alterative.Doip.Types.{
  Conn, doip_entity_logical_addr, doip_tester_addr_min, doip_tester_addr_max,
  doip_pt_routing_activation_req, doip_pt_routing_activation_resp, doip_ra_code_success,
  doip_ra_code_unknown_sa,
}
use pcan_alterative.Doip.Message.{emit}
use pcan_alterative.Doip.Message.Header.{
  message, length-message, emit-fits, parse_header-alone, message_payload,
}
use pcan_alterative.Doip.Tcp.{handle_routing_activation, tcp_switch, tcp_message, doip_handle_tcp}

module _ (bo : ByteOrder) (laws : ByteOrderLaws bo) where
  -- A whole message reaches the switch on its type with its payload.
  pub doip_handle_tcp-message :
      (conn : Conn) (type : ℕ) (payload : List ℕ) (resp_size : ℕ)
      → type < 2 ^ 16
      → length payload + 8 < 2 ^ 32
      → doip_handle_tcp bo conn (message bo type payload) resp_size
        ≡ tcp_switch bo conn type payload (length payload) resp_size
  unfolding doip_handle_tcp tcp_message
  doip_handle_tcp-message conn type payload resp_size ht hp =
      let m = message bo type payload in
      rw (parse_header-alone bo laws type payload ht (omega arith)) (
        rw (
          ge→ltb (length m) ((8 + length payload) % 2 ^ 32)
              (omega (arith, length-message bo laws type payload)),
          message_payload bo laws type payload ht (omega arith),
        ))

  pub source_read :
      (sa : ℕ) (rest : List ℕ) → sa < 2 ^ 16 → bo.get_be16 (slice (bo.put_be16 sa ++ rest) 0 2) ≡ sa
  source_read sa rest h =
      rw (take-append_length 2 (bo.put_be16 sa) rest (laws.be16.length_put sa))
        (laws.be16.get_put sa h)

  pub target_read :
      (sa ta : ℕ) (rest : List ℕ)
      → ta < 2 ^ 16
      → bo.get_be16 (slice (bo.put_be16 sa ++ (bo.put_be16 ta ++ rest)) 2 2) ≡ ta
  target_read sa ta rest h =
      rw
        (slice-middle 2 2 (bo.put_be16 sa) (bo.put_be16 ta) rest (laws.be16.length_put sa)
          (laws.be16.length_put ta))
        (laws.be16.get_put ta h)

  pub length-addressed :
      (sa ta : ℕ) (rest : List ℕ)
      → length (bo.put_be16 sa ++ (bo.put_be16 ta ++ rest)) ≡ 4 + length rest
  length-addressed sa ta rest = omega (
    arith,
    length-append (bo.put_be16 sa) (bo.put_be16 ta ++ rest),
    length-append (bo.put_be16 ta) rest,
    laws.be16.length_put sa,
    laws.be16.length_put ta,
  )

  -- The answer to a routing activation request.
  abbrev pub activation_resp : ℕ → ℕ → List ℕ
  activation_resp sa code =
      message bo doip_pt_routing_activation_resp
        (bo.put_be16 sa ++ (bo.put_be16 doip_entity_logical_addr ++ (code ∷ replicate 4 0)))

  activation-emit :
      (sa resp_size code : ℕ)
      → 17 ≤ resp_size
      → emit bo resp_size doip_pt_routing_activation_resp
          (bo.put_be16 sa ++ (bo.put_be16 doip_entity_logical_addr ++ (code ∷ replicate 4 0)))
        ≡ ok (activation_resp sa code)
  activation-emit sa resp_size code h =
      let n = length-addressed sa doip_entity_logical_addr (code ∷ replicate 4 0) in
      emit-fits bo laws resp_size doip_pt_routing_activation_resp _ (omega (arith, n))
        (omega (arith, n))

  -- A routing activation request of at least seven bytes from the address `sa`, with room for the
  -- answer: a tester of the accepted range is activated and told so, any other is refused and the
  -- connection is left as it was.
  pub routing_activation :
      (conn : Conn) (sa : ℕ) (rest : List ℕ) (resp_size : ℕ)
      → sa < 2 ^ 16
      → 5 ≤ length rest
      → length rest < 2 ^ 31
      → 17 ≤ resp_size
      → doip_handle_tcp bo conn
          (message bo doip_pt_routing_activation_req (bo.put_be16 sa ++ rest))
          resp_size
        ≡ (if leb doip_tester_addr_min sa && leb sa doip_tester_addr_max
            then (
              record conn { routing_active = true; tester_addr = sa },
              ok (activation_resp sa doip_ra_code_success),
            )
            else (conn, ok (activation_resp sa doip_ra_code_unknown_sa)))
  unfolding tcp_switch handle_routing_activation
  routing_activation conn sa rest resp_size hs h5 hr h17 =
      let pl = bo.put_be16 sa ++ rest in
      let n = length-append (bo.put_be16 sa) rest in
      let two = laws.be16.length_put sa in
      doip_handle_tcp-message conn doip_pt_routing_activation_req pl resp_size (omega arith)
        (omega (arith, n, two))
      ∙ rw (ge→ltb (length pl) 7 (omega (arith, n, two)), source_read sa rest hs)
          (elim (Bool-cases (leb doip_tester_addr_min sa && leb sa doip_tester_addr_max)) [
            | inl good ↦ rw (good, activation-emit sa resp_size 0x10 h17)
            | inr bad ↦ rw (bad, activation-emit sa resp_size 0x00 h17)
          ])
