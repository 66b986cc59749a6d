-- ===== src/Doip/Tcp/Lengths.antt =====
-- The length check of `doip_handle_tcp`, whose sum has the 32 bits of the target's `size_t`.
use pcan_alterative.Base.{
  ℕ, ◌+◌, ◌%◌, ◌^◌, ◌≤◌, ◌<◌, ◌≡◌, List, ok, ltb, length, length-take, slice, drop,
}
use pcan_alterative.Base.{length-drop, arith, ge→ltb, ap, ◌∙◌, ◌⊎◌, inl, inr, refl, Bool-cases}
use pcan_alterative.Base.ByteOrder.{ByteOrder}
use pcan_alterative.Doip.Types.{doip_header_size, Conn}
use pcan_alterative.Doip.Message.{doip_parse_header, emit_generic_nack}
use pcan_alterative.Doip.Tcp.{tcp_switch, tcp_message, doip_handle_tcp}

module _ (bo : ByteOrder) (conn : Conn) (msg : List ℕ) (type plen resp_size : ℕ) where
  -- A message shorter than its header says is refused, and one that is not reaches the switch with
  -- a payload of the stated length, provided that the stated length is at most 2^32 - 9.
  pub length_checked :
      doip_parse_header bo msg ≡ ok (type, plen)
      → plen + 8 < 2 ^ 32
      → ((length msg < plen + 8)
          × (doip_handle_tcp bo conn msg resp_size ≡ (conn, emit_generic_nack bo resp_size 4)))
        ⊎ ((plen + 8 ≤ length msg)
            × (doip_handle_tcp bo conn msg resp_size
                ≡ tcp_switch bo conn type (slice msg doip_header_size plen) plen resp_size)
            × (length (slice msg doip_header_size plen) ≡ plen))
  unfolding doip_handle_tcp tcp_message
  length_checked e h = elim (Bool-cases (ltb (length msg) ((8 + plen) % 2 ^ 32))) [
    | inl short ↦ inl (ground arith, ap (tcp_message bo conn msg resp_size) e ∙ rw short refl)
    | inr whole ↦ inr (
      ground arith,
      ap (tcp_message bo conn msg resp_size) e ∙ rw whole refl,
      ground (arith, length-take plen (drop 8 msg), length-drop 8 msg),
    )
  ]

  -- A header that states 2^32 - 8 bytes or more passes the check with a message of 8 to 2^31 - 1
  -- bytes: the sum wraps, and the handler runs with a length that the message does not have.
  pub length_check_wraps :
      doip_parse_header bo msg ≡ ok (type, plen)
      → 8 ≤ length msg
      → length msg < 2 ^ 31
      → 2 ^ 32 ≤ plen + 8
      → plen < 2 ^ 32
      → (doip_handle_tcp bo conn msg resp_size
          ≡ tcp_switch bo conn type (slice msg doip_header_size plen) plen resp_size)
        × (length (slice msg doip_header_size plen) < plen)
  unfolding doip_handle_tcp tcp_message
  length_check_wraps e h8 hm lo hi = (
    ap (tcp_message bo conn msg resp_size) e
        ∙ rw (ge→ltb (length msg) ((8 + plen) % 2 ^ 32) (omega arith)),
    omega (arith, length-take plen (drop 8 msg), length-drop 8 msg),
  )
