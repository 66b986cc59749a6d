-- ===== src/Doip/Server/Framing.antt =====
-- A client's whole session: it depends on the bytes that the peer sends, not on how they arrive.
use pcan_alterative.Base.{
  ℕ, zero, suc, ◌^◌, ◌+◌, ◌≤◌, ◌<◌, ◌≡◌, refl, ◌∙◌, ap, true, false, List, [], ◌∷◌,
}
use pcan_alterative.Base.{◌++◌, some, length, take, drop, flatten, arith, All}
use pcan_alterative.Base.{
  length-append, length-drop, take-append_length, drop-append_length, slice-append_le,
}
use pcan_alterative.Base.ByteOrder.{ByteOrder, ByteOrderLaws}
use pcan_alterative.Doip.Types.{Conn, doip_conn_init}
use pcan_alterative.Doip.Message.Header.{message, length-message, parse_header-alone}
use pcan_alterative.Doip.Message.{doip_parse_header}
use pcan_alterative.Doip.Tcp.{doip_handle_tcp}
use pcan_alterative.Doip.Tcp.State.{conversation}
use pcan_alterative.Doip.Server.{
  Sockets, resp_buf, sent, answered, leaves, client_loop, client_round, handle_tcp_client,
}
use pcan_alterative.Doip.Server.Receive.{SocketLaws}
use pcan_alterative.Doip.Server.Client.{stated, is_whole, serve, stops, goes_on, round-RoundIs}

module _ (bo : ByteOrder) (io : Sockets) (laws : SocketLaws io) where
  open laws use {stream}

  is_whole-length : (bytes : List ℕ) → is_whole bo bytes ≡ true → 8 ≤ length bytes
  is_whole-length bytes h = ground arith

  stop_round :
      (fuel : ℕ) (s : io.Sock) (conn : Conn)
      → client_round bo io s conn ≡ some leaves
      → is_whole bo (stream s) ≡ false
      → client_loop bo io (suc fuel) s conn ≡ some (serve bo (suc fuel) conn (stream s))
  unfolding client_loop serve client_round doip_handle_tcp sent
  stop_round fuel s conn r part = rw (r, part) refl

  next_round :
      (fuel : ℕ) (s : io.Sock) (conn : Conn) (s' : io.Sock)
      → let first = take (8 + stated bo (stream s)) (stream s) in
        let conn' = (doip_handle_tcp bo conn first resp_buf).0 in
        client_round bo io s conn ≡ some (answered bo io s' conn first)
        → is_whole bo (stream s) ≡ true
        → stream s' ≡ drop (8 + stated bo (stream s)) (stream s)
        → client_loop bo io fuel s' conn' ≡ some (serve bo fuel conn' (stream s'))
        → client_loop bo io (suc fuel) s conn ≡ some (serve bo (suc fuel) conn (stream s))
  unfolding client_loop serve answered client_round doip_handle_tcp
  next_round fuel s conn s' r whole rest ih = rw (r, whole, ih, rest) refl

  loop-serve :
      (fuel : ℕ) (s : io.Sock) (conn : Conn)
      → length (stream s) < fuel
      → client_loop bo io fuel s conn ≡ some (serve bo fuel conn (stream s))
  loop-serve zero s conn h = absurd (omega arith)
  loop-serve (suc fuel) s conn h = elim (round-RoundIs bo io laws s conn) [
    | stops r part ↦ stop_round fuel s conn r part
    | goes_on s' r whole rest ↦ next_round fuel s conn s' r whole rest (
        loop-serve fuel s'
          (doip_handle_tcp bo conn (take (8 + stated bo (stream s)) (stream s)) resp_buf).0
          (omega (
            arith,
            ap length rest,
            length-drop (8 + stated bo (stream s)) (stream s),
            is_whole-length (stream s) whole,
          )))
  ]

  -- A client is served by the bytes that its peer sends before the end, and only by them: with one
  -- more round of fuel than there are bytes, `handle_tcp_client` comes to an end, and its connection
  -- and the messages that it has sent are those of the messages in the stream, handled one after the
  -- other, however the socket cuts the stream up.
  pub handle_tcp_client-serve :
      (fuel : ℕ) (s : io.Sock)
      → length (stream s) < fuel
      → handle_tcp_client bo io fuel s ≡ some (serve bo fuel doip_conn_init (stream s))
  unfolding handle_tcp_client
  handle_tcp_client-serve fuel s h = loop-serve fuel s doip_conn_init h

-- The messages sent in answer to some messages, one after the other.
unfoldable pub replies : ByteOrder → Conn → List (List ℕ) → List (List ℕ)
unfolding sent
replies bo conn [] = []
replies bo conn (m ∷ ms) =
    let (conn', result) = doip_handle_tcp bo conn m resp_buf in sent result ++ replies bo conn' ms

-- A message with a header of its own length, of at most 592 bytes of payload.
pub record IsRequest (bo : ByteOrder) (m : List ℕ) : Type 0 where
  pub has_header : 8 ≤ length m
  pub exact : length m ≡ 8 + stated bo m
  pub small : stated bo m ≤ 592

module _ (bo : ByteOrder) where
  first-request :
      (m rest : List ℕ)
      → IsRequest bo m
      → (is_whole bo (m ++ rest) ≡ true)
        × (take (8 + stated bo (m ++ rest)) (m ++ rest) ≡ m)
        × (drop (8 + stated bo (m ++ rest)) (m ++ rest) ≡ rest)
  first-request m rest q =
      let e : stated bo (m ++ rest) ≡ stated bo m =
        ap bo.get_be32 (slice-append_le 4 4 m rest (omega (arith, q.has_header))) in
      let size : length m ≡ 8 + stated bo (m ++ rest) = omega (arith, q.exact, e) in
      (
        ground (arith, length-append m rest, e, q),
        take-append_length (8 + stated bo (m ++ rest)) m rest size,
        drop-append_length (8 + stated bo (m ++ rest)) m rest size,
      )

  serve-requests :
      (ms : List (List ℕ)) (fuel : ℕ) (conn : Conn)
      → length ms < fuel
      → All (IsRequest bo) ms
      → serve bo fuel conn (flatten ms) ≡ (conversation bo conn ms resp_buf, replies bo conn ms)
  unfolding serve conversation replies
  serve-requests ms zero conn h q = absurd (omega arith)
  serve-requests [] (suc fuel) conn h q = refl
  serve-requests (m ∷ ms) (suc fuel) conn h (q, qs) =
      let (whole, first, rest) = first-request m (flatten ms) q in
      rw
        (
          whole,
          first,
          rest,
          serve-requests ms fuel (doip_handle_tcp bo conn m resp_buf).0 (omega arith) qs,
        )
        refl

  -- A message built by the rules is a request, if its payload is small enough.
  pub message-IsRequest :
      (laws : ByteOrderLaws bo) (type : ℕ) (payload : List ℕ)
      → type < 2 ^ 16
      → length payload ≤ 592
      → IsRequest bo (message bo type payload)
  unfolding doip_parse_header
  message-IsRequest laws type payload ht hp =
      let n = length-message bo laws type payload in
      let e = parse_header-alone bo laws type payload ht (omega arith) in
      let st : stated bo (message bo type payload) ≡ length payload = ground (arith, e, n) in
      record {
        has_header = omega (arith, n);
        exact = omega (arith, n, st);
        small = omega (arith, st);
      }

  length-flatten_requests :
      (ms : List (List ℕ)) → All (IsRequest bo) ms → length ms ≤ length (flatten ms)
  length-flatten_requests [] q = omega arith
  length-flatten_requests (m ∷ ms) (q, qs) =
      omega (arith, length-append m (flatten ms), q.has_header, length-flatten_requests ms qs)

-- A peer that sends requests, whole and of at most 592 bytes of payload each, in whatever pieces
-- they arrive: with enough fuel, `handle_tcp_client` comes to an end, each request has been handled
-- in turn on the connection, and the answers have been sent in that order.
pub requests_served :
    (bo : ByteOrder) (io : Sockets) (laws : SocketLaws io) (fuel : ℕ) (s : io.Sock)
    (ms : List (List ℕ))
    → laws.stream s ≡ flatten ms
    → All (IsRequest bo) ms
    → length (flatten ms) < fuel
    → handle_tcp_client bo io fuel s
      ≡ some (conversation bo doip_conn_init ms resp_buf, replies bo doip_conn_init ms)
requests_served bo io laws fuel s ms e q h =
    handle_tcp_client-serve bo io laws fuel s (omega (arith, ap length e))
    ∙ ap (λ t. some (serve bo fuel doip_conn_init t)) e
    ∙ ap some (
        serve-requests bo ms fuel doip_conn_init (omega (arith, length-flatten_requests bo ms q)) q)
