-- ===== src/Doip/Tcp/State.antt =====
-- The state of a connection: activation, the gate before diagnostics, and one whole session.
use pcan_alterative.Base.{ℕ, ◌+◌, ◌-◌, ◌%◌, ◌^◌, ◌≤◌, ◌≡◌, refl, ◌∙◌, List, [], ◌∷◌}
use pcan_alterative.Base.{Result, ok, err, length, arith, true, false, inl}
use pcan_alterative.Base.{inr, Bool-cases, ltb, leb, ◌==◌, ◌&&◌, slice, drop}
use pcan_alterative.Base.ByteOrder.{ByteOrder}
use pcan_alterative.Doip.Types.{
  Conn, doip_pt_diag_message, doip_tester_addr_min, doip_tester_addr_max,
}
use pcan_alterative.Doip.Message.{doip_parse_header}
use pcan_alterative.Doip.Uds.{uds_dispatch}
use pcan_alterative.Doip.Tcp.{
  handle_routing_activation, diag_response, handle_diag_message, tcp_switch, tcp_message,
  doip_handle_tcp,
}

-- A connection is not activated, or has a tester from the accepted range.
pub data IsConn (c : Conn) : Type 0 where
  inactive : c.routing_active ≡ false → IsConn c
  activated : doip_tester_addr_min ≤ c.tester_addr → c.tester_addr ≤ doip_tester_addr_max → IsConn c

-- `c'` is `c` but for the block counter, or `c` activated for a tester of the accepted range.
pub data Moves (c c' : Conn) : Type 0 where
  block : c'.routing_active ≡ c.routing_active → c'.tester_addr ≡ c.tester_addr → Moves c c'
  activate :
      c'.routing_active ≡ true
      → doip_tester_addr_min ≤ c'.tester_addr
      → c'.tester_addr ≤ doip_tester_addr_max
      → c'.block_seq ≡ c.block_seq
      → Moves c c'

module _ (bo : ByteOrder) where
  -- The UDS services change nothing of the connection but the block counter.
  uds_same :
      (conn : Conn) (uds : List ℕ) (n out_size : ℕ)
      → let conn' = (uds_dispatch bo conn uds n out_size).0 in
        (conn'.routing_active ≡ conn.routing_active) × (conn'.tester_addr ≡ conn.tester_addr)
  unfolding uds_dispatch
  uds_same conn uds n out_size = ground arith

  diag_same :
      (conn : Conn) (pl : List ℕ) (plen resp_size : ℕ)
      → let conn' = (handle_diag_message bo conn pl plen resp_size).0 in
        (conn'.routing_active ≡ conn.routing_active) × (conn'.tester_addr ≡ conn.tester_addr)
  unfolding handle_diag_message diag_response
  diag_same conn pl plen resp_size = ground (arith, uds_same conn (drop 4 pl) (plen - 4) 64)

  routing-Moves :
      (conn : Conn) (pl : List ℕ) (plen resp_size : ℕ)
      → Moves conn (handle_routing_activation bo conn pl plen resp_size).0
  unfolding handle_routing_activation
  routing-Moves conn pl plen resp_size = elim (Bool-cases (ltb plen 7)) [
    | inl short ↦ rw short (block refl refl)
    | inr long ↦
        elim (Bool-cases (
          leb doip_tester_addr_min (bo.get_be16 (slice pl 0 2))
          && leb (bo.get_be16 (slice pl 0 2)) doip_tester_addr_max)) [
            | inl good ↦ rw (long, good) (activate refl (ground arith) (ground arith) refl)
            | inr bad ↦ rw (long, bad) (block refl refl)
          ]
  ]

  switch-Moves :
      (conn : Conn) (type : ℕ) (pl : List ℕ) (plen resp_size : ℕ)
      → Moves conn (tcp_switch bo conn type pl plen resp_size).0
  unfolding tcp_switch
  switch-Moves conn type pl plen resp_size = elim (Bool-cases (type == 5)) [
    | inl routing ↦ rw routing (routing-Moves conn pl plen resp_size)
    | inr n1 ↦ elim (Bool-cases (type == 7)) [
      | inl alive ↦ rw (n1, alive) (block refl refl)
      | inr n2 ↦ elim (Bool-cases (type == doip_pt_diag_message)) [
        | inl diag ↦
            rw (n1, n2, diag)
              (let (active, tester) = diag_same conn pl plen resp_size in block active tester)
        | inr n3 ↦ rw (n1, n2, n3) (block refl refl)
      ]
    ]
  ]

  message-Moves :
      (conn : Conn) (msg : List ℕ) (resp_size : ℕ) (header : Result (ℕ × ℕ))
      → Moves conn (tcp_message bo conn msg resp_size header).0
  unfolding tcp_message
  message-Moves conn msg resp_size (err e) = block refl refl
  message-Moves conn msg resp_size (ok (type, plen)) =
      elim (Bool-cases (ltb (length msg) ((8 + plen) % 2 ^ 32))) [
        | inl short ↦ rw short (block refl refl)
        | inr whole ↦ rw whole (switch-Moves conn type (slice msg 8 plen) plen resp_size)
      ]

  -- On any bytes `doip_handle_tcp` keeps the tester and the activation, or activates the connection
  -- for a tester of the accepted range; nothing deactivates it.
  pub doip_handle_tcp-Moves :
      (conn : Conn) (msg : List ℕ) (resp_size : ℕ)
      → Moves conn (doip_handle_tcp bo conn msg resp_size).0
  unfolding doip_handle_tcp
  doip_handle_tcp-Moves conn msg resp_size =
      message-Moves conn msg resp_size (doip_parse_header bo msg)

Moves-IsConn : {c c' : Conn} → Moves c c' → IsConn c → IsConn c'
Moves-IsConn (block active tester) (inactive off) = inactive (active ∙ off)
Moves-IsConn (block active tester) (activated lo hi) =
    activated (omega (arith, tester)) (omega (arith, tester))
Moves-IsConn (activate active lo hi seq) v = activated lo hi

-- The messages of a connection, one after the other.
unfoldable pub conversation : ByteOrder → Conn → List (List ℕ) → ℕ → Conn
conversation bo conn [] resp_size = conn
conversation bo conn (msg ∷ msgs) resp_size =
    conversation bo (doip_handle_tcp bo conn msg resp_size).0 msgs resp_size

-- A connection that is not activated, or has a tester address of the accepted range, is such a
-- connection after whatever the peer sends.
pub conversation-IsConn :
    (bo : ByteOrder) (conn : Conn) (msgs : List (List ℕ)) (resp_size : ℕ)
    → IsConn conn
    → IsConn (conversation bo conn msgs resp_size)
unfolding conversation
conversation-IsConn bo conn [] resp_size v = v
conversation-IsConn bo conn (msg ∷ msgs) resp_size v =
    conversation-IsConn bo (doip_handle_tcp bo conn msg resp_size).0 msgs resp_size
      (Moves-IsConn (doip_handle_tcp-Moves bo conn msg resp_size) v)
