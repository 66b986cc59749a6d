-- ===== src/Examples/ServerRuns.antt =====
-- The theorems on the DoIP server, at a socket that gives a few bytes at a time.
use pcan_alterative.Base.{
  ℕ, ◌≡◌, refl, true, replicate, List, [], ◌∷◌, ◌++◌, arith, some, flatten, All, length-append,
}
use pcan_alterative.Doip.Types.{
  Conn, doip_conn_init, doip_pt_routing_activation_req, doip_pt_diag_message,
}
use pcan_alterative.Doip.Message.Header.{message, length-message}
use pcan_alterative.Doip.Tcp.State.{conversation}
use pcan_alterative.Doip.Server.{resp_buf, handle_tcp_client}
use pcan_alterative.Doip.Server.Client.{serve}
use pcan_alterative.Doip.Server.Framing.{
  IsRequest, message-IsRequest, replies, handle_tcp_client-serve, requests_served,
}
use pcan_alterative.Doip.Server.Output.{IsSend, handle_tcp_client-IsSend}
use pcan_alterative.Doip.Server.{udp_thread, tcp_thread}
use pcan_alterative.Doip.SelfTest.{doip_selftest, main}
use pcan_alterative.Doip.SelfTest.Verdict.{main_serves}
use pcan_alterative.Examples.Bytes.{order, order_laws}
use pcan_alterative.Examples.Kernel.{sockets, sockets_laws}

abbrev payload : List ℕ
payload = 0x0e ∷ 0 ∷ 0 ∷ 0 ∷ 0 ∷ 0 ∷ 0 ∷ []

abbrev question : List ℕ
question = 0x0e ∷ 0 ∷ 0x10 ∷ 0 ∷ 0x3e ∷ 0 ∷ []

-- A routing activation, and a diagnostic message.
abbrev activation : List ℕ
activation = message order doip_pt_routing_activation_req payload

abbrev diagnosis : List ℕ
diagnosis = message order doip_pt_diag_message question

activation-IsRequest : IsRequest order activation
activation-IsRequest =
    message-IsRequest order order_laws doip_pt_routing_activation_req payload (omega arith)
      (omega arith)

diagnosis-IsRequest : IsRequest order diagnosis
diagnosis-IsRequest =
    message-IsRequest order order_laws doip_pt_diag_message question (omega arith) (omega arith)

handle_tcp_client-serve_example :
    handle_tcp_client order sockets 100 activation
    ≡ some (serve order 100 doip_conn_init activation)
handle_tcp_client-serve_example =
    handle_tcp_client-serve order sockets sockets_laws 100 activation
      (omega (arith, length-message order order_laws doip_pt_routing_activation_req payload))

requests_served_example :
    let ms : List (List ℕ) = activation ∷ diagnosis ∷ [] in
    handle_tcp_client order sockets 100 (flatten ms)
    ≡ some (conversation order doip_conn_init ms resp_buf, replies order doip_conn_init ms)
requests_served_example =
    requests_served order sockets sockets_laws 100 (flatten (activation ∷ diagnosis ∷ []))
      (activation ∷ diagnosis ∷ []) refl (activation-IsRequest, (diagnosis-IsRequest, tt))
      (omega (
        arith,
        length-append activation (diagnosis ++ []),
        length-append diagnosis [],
        length-message order order_laws doip_pt_routing_activation_req payload,
        length-message order order_laws doip_pt_diag_message question,
      ))

handle_tcp_client-IsSend_example :
    (conn : Conn) × (out : List (List ℕ)) × (handle_tcp_client order sockets 100 activation
      ≡ some (conn, out))
    × All (IsSend order) out
handle_tcp_client-IsSend_example =
    handle_tcp_client-IsSend order order_laws sockets sockets_laws 100 activation
      (omega (arith, length-message order order_laws doip_pt_routing_activation_req payload))

main_serves_example :
    (doip_selftest order (replicate 256 0xaa) ≡ true)
    × (main order (replicate 256 0xaa) ≡ udp_thread ∷ tcp_thread ∷ [])
main_serves_example = main_serves order order_laws (replicate 256 0xaa)
