-- ===== src/Doip/Server.antt =====
-- apps/eth_doip/src/doip_server.c. The socket of a client is a parameter; what is sent is a list of
-- messages beside the result. Loops take fuel, and `none` is out of fuel.
pub mod Receive
pub mod Client
pub mod Framing
pub mod Output
use pcan_alterative.Base.{
  ℕ, zero, suc, ◌+◌, ◌-◌, Bool, List, [], ◌∷◌, ◌++◌, Option, none, some, Result,
}
use pcan_alterative.Base.{ok, err, ltb, ◌==◌, if◌then◌else◌, length, slice, ◌>>◌}
use pcan_alterative.Base.ByteOrder.{ByteOrder}
use pcan_alterative.Doip.Types.{doip_header_size, Conn, doip_conn_init}
use pcan_alterative.Doip.Tcp.{doip_handle_tcp}
use pcan_alterative.Doip.Udp.{doip_handle_udp}

abbrev pub msg_buf : ℕ
msg_buf = 600

abbrev pub resp_buf : ℕ
resp_buf = 600

-- `zsock_recv` on a connected socket, with the most bytes that it may give; `ok []` is the 0 of a
-- peer that has closed.
pub record Sockets : Type 1 where
  pub Sock : Type 0
  pub recv : Sock → ℕ → Sock × Result (List ℕ)

-- `rc > 0`: what is sent for the result of a handler.
unfoldable pub sent : Result (List ℕ) → List (List ℕ)
sent (ok []) = []
sent (ok (b ∷ bs)) = (b ∷ bs) ∷ []
sent (err e) = []

module _ (io : Sockets) where
  -- The loop of `recv_full`, with the bytes that it has. `rc` is the length of the result.
  unfoldable pub recv_loop : ℕ → io.Sock → ℕ → List ℕ → Option (io.Sock × Result (List ℕ))
  recv_loop zero s need got = none
  recv_loop (suc fuel) s need got =
      let more : Option (io.Sock × Result (List ℕ)) = elim (io.recv s (need - length got)).1 [
        | err e ↦ some ((io.recv s (need - length got)).0, err e)
        | ok [] ↦ some ((io.recv s (need - length got)).0, ok [])
        | ok (b ∷ bs) ↦ recv_loop fuel (io.recv s (need - length got)).0 need (got ++ (b ∷ bs))
      ] in
      if ltb (length got) need then more else some (s, ok got)

  -- A call of `zsock_recv` that is not the last gives at least one byte.
  unfoldable pub recv_full : io.Sock → ℕ → Option (io.Sock × Result (List ℕ))
  unfolding recv_loop
  recv_full s need = recv_loop (suc need) s need []

module _ (bo : ByteOrder) (io : Sockets) where
  -- How a round of the loop of `handle_tcp_client` ends: out of it, or with the answer sent.
  pub data Round : Type 0 where
    leaves : Round
    answers : io.Sock → Conn → List (List ℕ) → Round

  unfoldable pub answered : io.Sock → Conn → List ℕ → Round
  unfolding sent
  answered s conn msg =
      let (conn', result) = doip_handle_tcp bo conn msg resp_buf in answers s conn' (sent result)

  -- From the second `recv_full` on, with its result: the payload behind the header.
  unfoldable pub with_payload : Conn → List ℕ → Option (io.Sock × Result (List ℕ)) → Option Round
  unfolding answered
  with_payload conn header none = none
  with_payload conn header (some (s, err e)) = some leaves
  with_payload conn header (some (s, ok [])) = some leaves
  with_payload conn header (some (s, ok (b ∷ bs))) = some (answered s conn (header ++ (b ∷ bs)))

  -- From the first `recv_full` on, with its result: the header.
  unfoldable pub with_header : Conn → Option (io.Sock × Result (List ℕ)) → Option Round
  unfolding answered with_payload recv_full
  with_header conn none = none
  with_header conn (some (s, err e)) = some leaves
  with_header conn (some (s, ok [])) = some leaves
  with_header conn (some (s, ok (b ∷ bs))) =
      let header = b ∷ bs in
      let plen = bo.get_be32 (slice header 4 4) in
      if ltb (msg_buf - doip_header_size) plen
      then some leaves
      else if plen == 0
      then some (answered s conn header)
      else with_payload conn header (recv_full io s plen)

  unfoldable pub client_round : io.Sock → Conn → Option Round
  unfolding with_header recv_full
  client_round s conn = with_header conn (recv_full io s doip_header_size)

  -- The loop of `handle_tcp_client`: the connection in the end, and all messages sent.
  unfoldable pub client_loop : ℕ → io.Sock → Conn → Option (Conn × List (List ℕ))
  client_loop zero s conn = none
  client_loop (suc fuel) s conn = elim (client_round s conn) [
    | none ↦ none
    | some leaves ↦ some (conn, [])
    | some (answers s' conn' out) ↦ elim (client_loop fuel s' conn') [
      | none ↦ none
      | some (end, more) ↦ some (end, out ++ more)
    ]
  ]

  unfoldable pub handle_tcp_client : ℕ → io.Sock → Option (Conn × List (List ℕ))
  unfolding client_loop
  handle_tcp_client fuel s = client_loop fuel s doip_conn_init

-- The calls that open a socket of the server: `zsock_socket`, `zsock_bind` and, for TCP,
-- `zsock_listen`.
unfoldable pub udp_open : (socket bind : Result (Unit {0})) → Result (Unit {0})
udp_open socket bind = do socket; bind

unfoldable pub tcp_open : (socket bind listen : Result (Unit {0})) → Result (Unit {0})
tcp_open socket bind listen = do socket; bind; listen

module _ (bo : ByteOrder) where
  -- The loop of `udp_thread_fn` over what `zsock_recvfrom` gives, one round after the other: the
  -- answers to the senders of the datagrams.
  unfoldable pub udp_loop : List (Result (List ℕ)) → List (List (List ℕ))
  unfolding sent
  udp_loop [] = []
  udp_loop (err e ∷ rest) = [] ∷ udp_loop rest
  udp_loop (ok msg ∷ rest) = sent (doip_handle_udp bo msg resp_buf) ∷ udp_loop rest

module _ (bo : ByteOrder) (io : Sockets) where
  -- The loop of `tcp_thread_fn` over what `zsock_accept` gives, one client after the other.
  unfoldable pub tcp_loop : ℕ → List (Result io.Sock) → List (Option (Conn × List (List ℕ)))
  unfolding handle_tcp_client
  tcp_loop fuel [] = []
  tcp_loop fuel (err e ∷ rest) = tcp_loop fuel rest
  tcp_loop fuel (ok s ∷ rest) = handle_tcp_client bo io fuel s ∷ tcp_loop fuel rest

-- The threads that the server creates, each with the function that it runs.
pub data Thread : Type 0 where
  udp_thread tcp_thread : Thread

unfoldable pub doip_server_start : List Thread × Result (Unit {0})
doip_server_start = (udp_thread ∷ tcp_thread ∷ [], ok tt)
