-- ===== src/Logger/App/Host.antt =====
-- The way of the host's requests: the receive thread of the UART link (src/clp_uart.c) with
-- `on_tx_request` (src/main.c) as its handler. The handler touches the outgoing side of the link and
-- the thread the incoming side, so the requests of a round are handled after it.
use pcan_alterative.Base.{
  ℕ, ◌<◌, ◌≡◌, refl, ◌∙◌, ap, ap₂, true, false, List, [], ◌∷◌, Option, none, some, Result, All, map,
  length, arith, suc, ok, ◌-◌, to_i16, to_u16, take, replicate, length-append, length-take,
  length-replicate,
}
use pcan_alterative.Zephyr.{Wire, WireLaws}
use pcan_alterative.Zephyr.RingBuf.{RingBuf, RingBufLaws}
use pcan_alterative.Zephyr.Can.{CanApi, MsgQueue}
use pcan_alterative.Clp.Types.{can_tx, CanFrame, TxAck, IsCanFrame, data_count}
use pcan_alterative.Clp.Encode.{can_payload}
use pcan_alterative.Clp.Decode.RoundTrip.{
  clip, decode-can_payload, length-can_payload, data_count-le,
}
use pcan_alterative.Clp.Parser.{clp_parser_feed}
use pcan_alterative.Clp.Parser.Stream.{IsIdle, Outgoing, FitsWire, received, wires, feed-wires}
use pcan_alterative.Link.Uart.{State, on_clp_frame, on_clp_frames, rx_drain}
use pcan_alterative.Link.Uart.Channel.{tx_ack_of}
use pcan_alterative.Link.Uart.Receive.{rx_drain-Drained}
use pcan_alterative.Link.Sender.{run_events}
use pcan_alterative.Link.Uart.Refine.{Event, sending, run, step}
use pcan_alterative.Logger.CanIface.{CanlogFrame, DriverFrame}
use pcan_alterative.Logger.Wanted.{driver_frame, sent-driver_frame}
use pcan_alterative.Logger.App.{AppState, Answer, tx_ack, on_tx_request}

-- A request as the host sends it, with its sequence number.
abbrev pub asked : Wire → ℕ × CanFrame → Outgoing
asked w (seq, f) = record { type = can_tx; seq = seq; payload = can_payload w f }

abbrev pub IsRequest : ℕ × CanFrame → Type 0
IsRequest (seq, f) = IsCanFrame f

-- The frame of a request as the handler sees it.
abbrev pub request : ℕ × CanFrame → CanFrame
request (seq, f) = clip f

module _ (w : Wire) (rb : RingBuf) (mq : MsgQueue CanlogFrame) (api : CanApi) where
  -- Requests handled one after the other. `answer` is what the driver returns in each call of
  -- `can_send`, the first being call 0, and the time.
  unfoldable pub on_tx_requests :
      AppState w rb mq api
      → List CanFrame
      → (ℕ → Answer)
      → AppState w rb mq api × List (Result DriverFrame)
  unfolding on_tx_request
  on_tx_requests app [] answer = (app, [])
  on_tx_requests app (req ∷ reqs) answer =
      let (app', handed) = on_tx_request w rb mq api app req (answer 0) in
      let (app'', more) = on_tx_requests app' reqs (λ n. answer (suc n)) in (app'', handed ∷ more)

  abbrev pub handled :
      AppState w rb mq api
      → (ℕ → Answer)
      → Option (State w rb × List CanFrame)
      → Option (AppState w rb mq api × List (Result DriverFrame))
  handled app answer none = none
  handled app answer (some (u, reqs)) = some (on_tx_requests (record app { uart = u }) reqs answer)

  -- One round of the loop of `rx_thread`; `none` is out of fuel.
  unfoldable pub rx_round :
      ℕ
      → AppState w rb mq api
      → (ℕ → Answer)
      → Option (AppState w rb mq api × List (Result DriverFrame))
  unfolding on_tx_requests rx_drain
  rx_round fuel app answer =
      handled app answer (rx_drain w rb fuel (record app.uart { rx_sem = false }))

  -- The driver's frames of some requests, and the acknowledgements that the host is owed: the tag of
  -- the request, what the driver has returned for it as an `int16_t`, and the time.
  abbrev pub to_driver : CanFrame → Result DriverFrame
  to_driver req = ok (driver_frame api req)

  abbrev pub acked : (ℕ → Answer) → List CanFrame → List Event
  acked answer [] = []
  acked answer (req ∷ reqs) =
      let a = answer 0 in
      let ack : TxAck = record {
        tag = req.tag;
        status = to_i16 (to_u16 a.ret);
        timestamp = a.ticks;
      } in
      sending (tx_ack_of ack) ∷ acked (λ n. answer (suc n)) reqs

  on_tx_requests-driver :
      (reqs : List CanFrame) (app : AppState w rb mq api) (answer : ℕ → Answer)
      → All (λ req. length req.bytes ≡ 64) reqs
      → (on_tx_requests app reqs answer).1 ≡ map to_driver reqs
  unfolding on_tx_requests on_tx_request
  on_tx_requests-driver [] app answer h = refl
  on_tx_requests-driver (req ∷ reqs) app answer (h, hs) =
      ap₂ (λ x xs. x ∷ xs) (sent-driver_frame api req h)
        (on_tx_requests-driver reqs (on_tx_request w rb mq api app req (answer 0)).0
          (λ n. answer (suc n)) hs)

  on_tx_requests-acks :
      (reqs : List CanFrame) (app : AppState w rb mq api) (answer : ℕ → Answer)
      → (on_tx_requests app reqs answer).0.uart ≡ (run w rb app.uart (acked answer reqs)).0
  unfolding on_tx_requests on_tx_request run_events step tx_ack
  on_tx_requests-acks [] app answer = refl
  on_tx_requests-acks (req ∷ reqs) app answer =
      on_tx_requests-acks reqs (on_tx_request w rb mq api app req (answer 0)).0
        (λ n. answer (suc n))

length-clip : (f : CanFrame) → length f.bytes ≡ 64 → length (clip f).bytes ≡ 64
length-clip f h =
    let n = data_count f.flags f.dlc in
    omega (
      arith,
      length-append (take n f.bytes) (replicate (64 - n) 0),
      length-take n f.bytes,
      length-replicate {A = ℕ} (64 - n) 0,
      data_count-le f.flags f.dlc,
      h,
    )

requests-whole :
    (rs : List (ℕ × CanFrame))
    → All IsRequest rs
    → All (λ req. length req.bytes ≡ 64) (map request rs)
requests-whole [] h = tt
requests-whole ((seq, f) ∷ rs) (v, vs) = (length-clip f v.bytes_64, requests-whole rs vs)

module _ (w : Wire) (wl : WireLaws w) where
  requests_found :
      (rs : List (ℕ × CanFrame))
      → All IsRequest rs
      → on_clp_frames w true (map received (map (asked w) rs)) ≡ map request rs
  unfolding on_clp_frames on_clp_frame
  requests_found [] h = refl
  requests_found ((seq, f) ∷ rs) (v, vs) =
      rw (decode-can_payload w wl.order_laws f v, requests_found rs vs) refl

  requests-FitsWire :
      (rs : List (ℕ × CanFrame)) → All IsRequest rs → All FitsWire (map (asked w) rs)
  requests-FitsWire [] h = tt
  requests-FitsWire ((seq, f) ∷ rs) (v, vs) = (
    omega (arith, length-can_payload w wl.order_laws f v, data_count-le f.flags f.dlc),
    requests-FitsWire rs vs,
  )

module _ (w : Wire) (rb : RingBuf) (mq : MsgQueue CanlogFrame) (api : CanApi) (wl : WireLaws w)
    (rl : RingBufLaws rb) where
  open rl use {contents}

  -- The round has ended with the incoming ring empty and the outgoing side of the link as it was;
  -- then the driver was given the frames of the requests, and the link the acknowledgements.
  pub record Served (app : AppState w rb mq api) (answer : ℕ → Answer) (reqs : List CanFrame)
      (result : Option (AppState w rb mq api × List (Result DriverFrame))) : Type 0 where
    pub link : State w rb
    pub app' : AppState w rb mq api
    pub ends : result ≡ some (app', map (to_driver w rb mq api) reqs)
    pub drained : contents link.rx_rb ≡ []
    pub same_tx : (link.tx_rb ≡ app.uart.tx_rb) × (link.tx_seq ≡ app.uart.tx_seq)
    pub acks : app'.uart ≡ (run w rb link (acked w rb mq api answer reqs)).0

  -- From the host to the CAN driver: when the incoming ring holds CAN_TX messages of valid frames,
  -- the parser is idle and the handler registered, then with as much fuel as there are bytes and
  -- one a round of the receive thread comes to an end. The driver has been given the frames of
  -- exactly these requests, in their order: identifier and DLC as they were, the flags each as the
  -- driver's, and the data bytes that the DLC counts (none with RTR), zeros behind. An acknowledgement of each
  -- was handed to the link in that order, with the tag of the request, what the driver returned for
  -- it as an `int16_t`, and the time. The incoming ring is empty before the acknowledgements, and the
  -- outgoing one as it was.
  pub rx_round-Served :
      (fuel : ℕ) (app : AppState w rb mq api) (answer : ℕ → Answer) (rs : List (ℕ × CanFrame))
      → All IsRequest rs
      → contents app.uart.rx_rb ≡ wires w wl (map (asked w) rs)
      → IsIdle w app.uart.parser
      → app.uart.has_tx_req_cb ≡ true
      → length (contents app.uart.rx_rb) < fuel
      → Served app answer (map request rs) (rx_round w rb mq api fuel app answer)
  unfolding rx_round
  rx_round-Served fuel app answer rs valid queued idle set enough =
      let u : State w rb = record app.uart { rx_sem = false } in
      let d = rx_drain-Drained w rb rl fuel u enough in
      let (p, ms) = clp_parser_feed w app.uart.parser (contents app.uart.rx_rb) in
      let found : on_clp_frames w app.uart.has_tx_req_cb ms ≡ map request rs =
        ap₂ (λ b xs. on_clp_frames w b xs) set
          (ap (λ bytes. (clp_parser_feed w app.uart.parser bytes).1) queued
            ∙ (feed-wires w wl (map (asked w) rs) app.uart.parser idle
                (requests-FitsWire w wl rs valid)).0)
        ∙ requests_found w wl rs valid in
      let link : State w rb = record u { rx_rb = d.ring; parser = p } in
      let reqs = map request rs in
      record {
        link = link;
        app' = (on_tx_requests w rb mq api (record app { uart = link }) reqs answer).0;
        ends =
            ap (handled w rb mq api app answer) (d.ends ∙ ap (λ xs. some (link, xs)) found)
            ∙ ap
                (λ t.
                  some ((on_tx_requests w rb mq api (record app { uart = link }) reqs answer).0, t))
                (on_tx_requests-driver w rb mq api reqs (record app { uart = link }) answer
                  (requests-whole rs valid));
        drained = d.empty;
        same_tx = (refl, refl);
        acks = on_tx_requests-acks w rb mq api reqs (record app { uart = link }) answer;
      }
