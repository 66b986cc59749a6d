-- ===== src/Logger/App/Actions.antt =====
-- The logger at work: what can happen, in any order, and what it makes of the UART link.
use pcan_alterative.Base.{ℕ, ◌-◌, ◌%◌, ◌≡◌, refl, ◌∙◌, ap, sym, List, [], ◌∷◌, ◌++◌}
use pcan_alterative.Base.{
  Option, none, some, leb, ◌==◌, if◌then◌else◌, append-nil, Bool-cases, inl, inr,
}
use pcan_alterative.Base.Kept.{cons_some}
use pcan_alterative.Zephyr.{Wire}
use pcan_alterative.Zephyr.RingBuf.{RingBuf}
use pcan_alterative.Zephyr.Can.{CanApi, MsgQueue}
use pcan_alterative.Clp.Types.{CanFrame}
use pcan_alterative.Clp.Parser.{inc32}
use pcan_alterative.Link.Uart.{Pass, uart_isr}
use pcan_alterative.Link.Uart.Channel.{can_rx_of, tx_ack_of, status_of, hello_now}
use pcan_alterative.Link.Sender.{run_events, run_events-append}
use pcan_alterative.Link.Uart.Refine.{Event, sending, interrupt, run, step, uart_sender}
use pcan_alterative.Logger.CanIface.{CanlogFrame, DriverFrame, CanIface, can_iface_rx_isr}
use pcan_alterative.Logger.App.{
  AppState, Answer, Moment, tx_ack, rx_message, on_can_rx, bus_frame, on_tx_request, current_status,
  send_status, pump_frame, announce, pump_status, pump_round,
}

-- A frame from the bus with the time of its interrupt, a round of the pump thread, a request of the
-- host with the driver's answer, and an interrupt of the UART.
pub data Happening : Type 0 where
  arrives : DriverFrame → ℕ → Happening
  pumps : Moment → Happening
  requests : CanFrame → Answer → Happening
  uart_ready : List Pass → Happening

module _ (w : Wire) (rb : RingBuf) (mq : MsgQueue CanlogFrame) (api : CanApi) (c : CanIface) where
  -- The frame that the handler is called with.
  abbrev pub arrival : Happening → Option CanlogFrame
  arrival (arrives frame ticks) = can_iface_rx_isr api c frame ticks
  arrival (pumps t) = none
  arrival (requests req a) = none
  arrival (uart_ready ps) = none

  -- The new state, the bytes sent on the UART, and the frame taken from the queue.
  unfoldable pub happen :
      AppState w rb mq api → Happening → AppState w rb mq api × List ℕ × Option CanlogFrame
  unfolding bus_frame on_tx_request pump_round
  happen app (arrives frame ticks) = (bus_frame w rb mq api c app frame ticks, [], none)
  happen app (pumps t) = let (app', got) = pump_round w rb mq api app t in (app', [], got)
  happen app (requests req a) = ((on_tx_request w rb mq api app req a).0, [], none)
  happen app (uart_ready ps) =
      let (u, sent) = uart_isr w rb app.uart ps in (record app { uart = u }, sent, none)

  -- The same over a list, with the frames that `k_msgq_get` has given.
  unfoldable pub work :
      AppState w rb mq api → List Happening → AppState w rb mq api × List ℕ × List CanlogFrame
  unfolding happen
  work app [] = (app, [], [])
  work app (h ∷ hs) =
      let (app', sent, got) = happen app h in
      let (app'', more, handed) = work app' hs in (app'', sent ++ more, cons_some got handed)

  -- The link's events, one after the other.
  abbrev pub relayed : Option CanlogFrame → List Event
  relayed none = []
  relayed (some f) = sending (can_rx_of (rx_message api f)) ∷ []

  abbrev pub announced : AppState w rb mq api → List Event
  announced app = if inc32 app.status_ticks % 5 == 0 then sending hello_now ∷ [] else []

  abbrev pub reported : AppState w rb mq api → Moment → List Event
  reported app t =
      if leb 1000 (t.now - app.last_status)
      then sending (status_of (current_status w rb mq api app t.bus)) ∷ announced app
      else []

  abbrev pub actions : AppState w rb mq api → Happening → List Event
  actions app (arrives frame ticks) = []
  actions app (pumps t) =
      let (q, got) = mq.get app.can_rx_msgq in
      relayed got ++ reported (pump_frame w rb mq api (record app { can_rx_msgq = q }) got) t
  actions app (requests req a) = sending (tx_ack_of (tx_ack req a)) ∷ []
  actions app (uart_ready ps) = interrupt ps ∷ []

  abbrev pub all_actions : AppState w rb mq api → List Happening → List Event
  all_actions app [] = []
  all_actions app (h ∷ hs) = actions app h ++ all_actions (happen app h).0 hs

  run-relayed :
      (app : AppState w rb mq api) (got : Option CanlogFrame)
      → run w rb app.uart (relayed got) ≡ ((pump_frame w rb mq api app got).uart, [])
  unfolding run_events step pump_frame
  run-relayed app none = refl
  run-relayed app (some f) = refl

  run-reported :
      (app : AppState w rb mq api) (t : Moment)
      → run w rb app.uart (reported app t) ≡ ((pump_status w rb mq api app t).uart, [])
  unfolding run_events step pump_status send_status announce
  run-reported app t = elim (Bool-cases (leb 1000 (t.now - app.last_status))) [
    | inr early ↦ rw early refl
    | inl due ↦ rw due (elim (Bool-cases (inc32 app.status_ticks % 5 == 0)) [
      | inl fifth ↦ rw fifth refl
      | inr other ↦ rw other refl
    ])
  ]

  bus_frame-uart :
      (app : AppState w rb mq api) (frame : DriverFrame) (ticks : ℕ)
      → (bus_frame w rb mq api c app frame ticks).uart ≡ app.uart
  unfolding bus_frame can_iface_rx_isr on_can_rx
  bus_frame-uart app frame ticks = elim (Bool-cases c.has_handler) [
    | inl set ↦ rw set refl
    | inr unset ↦ rw unset refl
  ]

  happen-run :
      (app : AppState w rb mq api) (h : Happening)
      → run w rb app.uart (actions app h) ≡ ((happen app h).0.uart, (happen app h).1)
  unfolding happen run_events step on_tx_request pump_round
  happen-run app (arrives frame ticks) = ap (λ u. (u, [])) (sym (bus_frame-uart app frame ticks))
  happen-run app (pumps t) =
      let (q, got) = mq.get app.can_rx_msgq in
      let app' : AppState w rb mq api = record app { can_rx_msgq = q } in
      let next = pump_frame w rb mq api app' got in
      run_events-append (uart_sender w rb) (relayed got) (reported next t) app.uart
      ∙ ap (λ r. let (u, more) = run w rb r.0 (reported next t) in (u, r.1 ++ more))
          (run-relayed app' got)
      ∙ run-reported next t
  happen-run app (requests req a) = refl
  happen-run app (uart_ready ps) =
      let (u, sent) = uart_isr w rb app.uart ps in ap (λ t. (u, t)) (append-nil sent)

  -- The logger uses the UART link as the link is meant to be used: for any sequence of frames from
  -- the bus, rounds of the pump, requests of the host and interrupts of the UART, the link's state
  -- and the bytes sent are those of the sends and interrupts that the logger's functions make of
  -- them, in the same order.
  pub work-run :
      (hs : List Happening) (app : AppState w rb mq api)
      → run w rb app.uart (all_actions app hs) ≡ ((work app hs).0.uart, (work app hs).1)
  unfolding work
  work-run [] app = unfold run_events in refl
  work-run (h ∷ hs) app =
      let (app', sent, got) = happen app h in
      run_events-append (uart_sender w rb) (actions app h) (all_actions app' hs) app.uart
      ∙ ap (λ r. let (u, more) = run w rb r.0 (all_actions app' hs) in (u, r.1 ++ more))
          (happen-run app h)
      ∙ ap (λ r. (r.0, sent ++ r.1)) (work-run hs app')
