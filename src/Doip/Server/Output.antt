-- ===== src/Doip/Server/Output.antt =====
-- What the server puts on its sockets.
use pcan_alterative.Base.{
  ℕ, zero, suc, ◌+◌, ◌≤◌, ◌<◌, ◌≡◌, refl, List, [], ◌∷◌, Result, ok, err, length, take,
}
use pcan_alterative.Base.{drop, All, All-append, arith, Bool-cases, inl, inr}
use pcan_alterative.Base.ByteOrder.{ByteOrder, ByteOrderLaws}
use pcan_alterative.Doip.Types.{Conn}
use pcan_alterative.Doip.Message.Run.{AreMessages, Answers, no_room}
use pcan_alterative.Doip.Message.Run
use pcan_alterative.Doip.Tcp.{doip_handle_tcp}
use pcan_alterative.Doip.Tcp.Response.{doip_handle_tcp-Answers}
use pcan_alterative.Doip.Udp.{doip_handle_udp}
use pcan_alterative.Doip.Udp.Discovery.{doip_handle_udp-Answers}
use pcan_alterative.Base.{some, ◌<◌}
use pcan_alterative.Doip.Types.{doip_conn_init}
use pcan_alterative.Doip.Server.{Sockets, resp_buf, sent, udp_loop, handle_tcp_client}
use pcan_alterative.Doip.Server.Receive.{SocketLaws}
use pcan_alterative.Doip.Server.Framing.{handle_tcp_client-serve}
use pcan_alterative.Doip.Server.Client.{stated, is_whole, serve}

-- A send is a run of whole DoIP messages, is not empty, and comes out of the response buffer.
pub record IsSend (bo : ByteOrder) (bytes : List ℕ) : Type 0 where
  pub messages : AreMessages bo bytes
  pub some_bytes : 0 < length bytes
  pub fits : length bytes ≤ resp_buf

module _ (bo : ByteOrder) (laws : ByteOrderLaws bo) where
  ok-IsSend :
      (bytes : List ℕ)
      → AreMessages bo bytes
      → length bytes ≤ resp_buf
      → All (IsSend bo) (sent (ok bytes))
  unfolding sent
  ok-IsSend [] m h = tt
  ok-IsSend (b ∷ bs) m h = (record { messages = m; some_bytes = omega arith; fits = h }, tt)

  sent-IsSend : (r : Result (List ℕ)) → Answers bo resp_buf r → All (IsSend bo) (sent r)
  sent-IsSend r (Run.sent bytes e m h) = rw e (ok-IsSend bytes m h)
  sent-IsSend r (no_room e h) = absurd (omega arith)

  -- Whatever bytes a peer sends to the TCP server, each message sent back is a run of whole DoIP
  -- messages that is not empty and fits the response buffer: the handler never fails there.
  pub serve-IsSend :
      (fuel : ℕ) (conn : Conn) (bytes : List ℕ) → All (IsSend bo) (serve bo fuel conn bytes).1
  unfolding serve
  serve-IsSend zero conn bytes = tt
  serve-IsSend (suc fuel) conn bytes =
      let size = 8 + stated bo bytes in
      let (conn', result) = doip_handle_tcp bo conn (take size bytes) resp_buf in
      elim (Bool-cases (is_whole bo bytes)) [
        | inl whole ↦ rw whole (
            All-append (IsSend bo) (sent result) (serve bo fuel conn' (drop size bytes)).1
              (sent-IsSend result (doip_handle_tcp-Answers bo laws conn (take size bytes) resp_buf))
              (serve-IsSend fuel conn' (drop size bytes)))
        | inr part ↦ rw part tt
      ]

  -- The UDP server goes on whatever arrives, with one entry for each result of `zsock_recvfrom`;
  -- each datagram sent back is a run of whole DoIP messages that is not empty and fits the buffer.
  pub udp_loop-IsSend :
      (rs : List (Result (List ℕ)))
      → (length (udp_loop bo rs) ≡ length rs) × All (All (IsSend bo)) (udp_loop bo rs)
  unfolding udp_loop
  udp_loop-IsSend [] = (refl, tt)
  udp_loop-IsSend (err e ∷ rs) = let (n, all) = udp_loop-IsSend rs in (omega (arith, n), (tt, all))
  udp_loop-IsSend (ok msg ∷ rs) =
      let (n, all) = udp_loop-IsSend rs in
      (
        omega (arith, n),
        (
          sent-IsSend (doip_handle_udp bo msg resp_buf)
              (doip_handle_udp-Answers bo laws msg resp_buf),
          all,
        ),
      )

-- Whatever a peer sends to the TCP server, and however the socket cuts it up: with one more round of
-- fuel than there are bytes, `handle_tcp_client` comes to an end, and each message that it has sent
-- is a run of whole DoIP messages that is not empty and fits the response buffer.
pub handle_tcp_client-IsSend :
    (bo : ByteOrder) (laws : ByteOrderLaws bo) (io : Sockets) (sl : SocketLaws io) (fuel : ℕ)
    (s : io.Sock)
    → length (sl.stream s) < fuel
    → (conn : Conn) × (out : List (List ℕ)) × (handle_tcp_client bo io fuel s ≡ some (conn, out))
      × All (IsSend bo) out
handle_tcp_client-IsSend bo laws io sl fuel s h =
    let (conn, out) = serve bo fuel doip_conn_init (sl.stream s) in
    (
      conn,
      out,
      handle_tcp_client-serve bo io sl fuel s h,
      serve-IsSend bo laws fuel doip_conn_init (sl.stream s),
    )
