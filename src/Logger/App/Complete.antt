-- ===== src/Logger/App/Complete.antt =====
-- What the drop counters say of the way from the CAN bus to the host.
use pcan_alterative.Base.{
  ℕ, ◌+◌, ◌-◌, ◌*◌, ◌%◌, ◌^◌, ◌<◌, ◌≤◌, ◌≡◌, refl, ◌∙◌, ap, sym, subst, List, [], ◌∷◌, ◌++◌,
}
use pcan_alterative.Base.{
  Option, none, some, All, map, length, length-append, leb, true, ◌==◌, Bool-cases, inl, inr, arith,
}
use pcan_alterative.Base.Kept.{collect, collect-somes, Kept-le, Kept-whole, length-collect_le}
use pcan_alterative.Zephyr.{Wire, WireLaws}
use pcan_alterative.Zephyr.RingBuf.{RingBuf, RingBufLaws}
use pcan_alterative.Zephyr.Can.{CanApi, MsgQueue, MsgQueueLaws}
use pcan_alterative.Clp.Parser.{Parser, inc32, clp_parser_feed}
use pcan_alterative.Clp.Parser.Stream.{IsIdle}
use pcan_alterative.Link.Uart.Refine.{Event, sending, interrupt, offered}
use pcan_alterative.Logger.CanIface.{CanlogFrame, CanIface}
use pcan_alterative.Logger.App.{AppState, Moment, pump_frame}
use pcan_alterative.Logger.App.Actions.{
  Happening, arrives, pumps, requests, uart_ready, arrival, happen, work, relayed, reported,
  actions, all_actions, work-run,
}
use pcan_alterative.Logger.App.Queue.{work-Accounts}
use pcan_alterative.Logger.Wanted.{seen}
use pcan_alterative.Logger.App.Frames.{IsProper, frame_in, sent_of, arrived_seen}
use pcan_alterative.Logger.App.OnBus.{on_bus, arrivals-on_bus}
use pcan_alterative.Logger.App.Capture.{in_message, delivery, found_by, offered_frames}

length-offered_le :
    (w : Wire) (rb : RingBuf) (es : List Event) (seq : ℕ) → length (offered w rb seq es) ≤ length es
length-offered_le w rb [] seq = omega arith
length-offered_le w rb (sending s ∷ es) seq =
    omega (arith, length-offered_le w rb es ((seq + 1) % 256))
length-offered_le w rb (interrupt ps ∷ es) seq = omega (arith, length-offered_le w rb es seq)

All-front {ℓ κ} : {A : Type ℓ} (P : A → Type κ) (xs ys : List A) → All P (xs ++ ys) → All P xs
All-front P [] ys h = tt
All-front P (x ∷ xs) ys (h, hs) = (h, All-front P xs ys hs)

map-append {ℓ κ} :
    {A : Type ℓ} {B : Type κ} (f : A → B) (xs ys : List A) → map f (xs ++ ys) ≡ map f xs ++ map f ys
map-append f [] ys = refl
map-append f (x ∷ xs) ys = ap (λ t. f x ∷ t) (map-append f xs ys)

module _ (w : Wire) (rb : RingBuf) (mq : MsgQueue CanlogFrame) (api : CanApi) (c : CanIface) where
  abbrev St : Type 0
  St = AppState w rb mq api

  length-relayed : (got : Option CanlogFrame) → length (relayed w rb mq api c got) ≤ 1
  length-relayed none = omega arith
  length-relayed (some f) = omega arith

  length-reported : (app : St) (t : Moment) → length (reported w rb mq api c app t) ≤ 2
  length-reported app t = elim (Bool-cases (leb 1000 (t.now - app.last_status))) [
    | inr early ↦ rw early (omega arith)
    | inl due ↦ rw due (elim (Bool-cases (inc32 app.status_ticks % 5 == 0)) [
      | inl fifth ↦ rw fifth (omega arith)
      | inr other ↦ rw other (omega arith)
    ])
  ]

  length-actions : (app : St) (h : Happening) → length (actions w rb mq api c app h) ≤ 3
  length-actions app (arrives frame ticks) = omega arith
  length-actions app (pumps t) =
      let (q, got) = mq.get app.can_rx_msgq in
      let next = pump_frame w rb mq api (record app { can_rx_msgq = q }) got in
      omega (
        arith,
        length-append (relayed w rb mq api c got) (reported w rb mq api c next t),
        length-relayed got,
        length-reported next t,
      )
  length-actions app (requests req a) = omega arith
  length-actions app (uart_ready ps) = omega arith

  length-all_actions :
      (hs : List Happening) (app : St) → length (all_actions w rb mq api c app hs) ≤ 3 * length hs
  length-all_actions [] app = omega arith
  length-all_actions (h ∷ hs) app =
      let app' = (happen w rb mq api c app h).0 in
      omega (
        arith,
        length-append (actions w rb mq api c app h) (all_actions w rb mq api c app' hs),
        length-actions app h,
        length-all_actions hs app',
      )

module _ (w : Wire) (rb : RingBuf) (mq : MsgQueue CanlogFrame) (api : CanApi) (c : CanIface)
    (wl : WireLaws w) (rl : RingBufLaws rb) (ql : MsgQueueLaws mq) where
  -- The drop counters tell the truth: from a logger with nothing queued and a handler registered,
  -- over fewer than 2 ^ 32 / 3 happenings after which both drop counters are as they were, the CAN
  -- frames that a host finds in what its idle parser delivers, of the bytes sent and then those still
  -- queued for the UART, followed by the frames that still wait for the pump, are all the frames
  -- that were on the bus, in their order, each as `Wanted.seen` tells it. The counters are below
  -- 2 ^ 32, the frames within their C types, and the FIFO takes whole chunks.
  pub counters_tell_losses :
      (hs : List Happening) (app : AppState w rb mq api) (host : Parser w.Decoder)
      → All IsProper hs
      → 3 * length hs < 2 ^ 32
      → app.stat_rx_msgq_drops < 2 ^ 32
      → app.uart.stat_tx_drops < 2 ^ 32
      → c.has_handler ≡ true
      → ql.queued app.can_rx_msgq ≡ []
      → rl.contents app.uart.tx_rb ≡ []
      → IsIdle w host
      → (work w rb mq api c app hs).0.stat_rx_msgq_drops ≡ app.stat_rx_msgq_drops
      → (work w rb mq api c app hs).0.uart.stat_tx_drops ≡ app.uart.stat_tx_drops
      → let (app', sent, handed) = work w rb mq api c app hs in
        let (host', delivered) = clp_parser_feed w host (sent ++ rl.contents app'.uart.tx_rb) in
        collect (frame_in w) delivered ++ map (seen api) (ql.queued app'.can_rx_msgq)
        ≡ map (seen api) (collect (on_bus api) hs)
  counters_tell_losses hs app host proper few small small' set empty before idle same same' =
      let es = all_actions w rb mq api c app hs in
      let (app', sent, handed) = work w rb mq api c app hs in
      let q = ql.queued app'.can_rx_msgq in
      let arrived = collect (arrival w rb mq api c) hs in
      let a = work-Accounts w rb mq api c ql hs app small in
      let d = delivery w rb mq api c wl rl ql hs app host proper small' before idle in
      let taken : a.accepted ≡ arrived = Kept-whole a.from_bus (
        omega (
          arith,
          a.counted,
          same,
          Kept-le a.from_bus,
          length-collect_le (arrival w rb mq api c) hs,
        )) in
      let all : handed ++ q ≡ arrived = a.in_order ∙ ap (λ t. t ++ a.accepted) empty ∙ taken in
      let counted : app'.uart.stat_tx_drops ≡ (app.uart.stat_tx_drops + d.lost) % 2 ^ 32 =
        ap (λ r. r.0.stat_tx_drops) (sym (work-run w rb mq api c hs app)) ∙ d.counted in
      let logged : d.log ≡ offered w rb app.uart.tx_seq es = Kept-whole d.from_offered (
        omega (
          arith,
          counted,
          same',
          Kept-le d.from_offered,
          length-offered_le w rb es app.uart.tx_seq,
          length-all_actions w rb mq api c hs app,
        )) in
      let good =
        subst (All (λ f. sent_of w api f ≡ some (seen api f))) (sym all)
          (arrived_seen w rb mq api c wl hs proper) in
      let delivered =
        found_by w rb mq api c wl rl ql (frame_in w) hs app host d
        ∙ ap (collect (in_message w rb mq api c wl rl ql)) logged
        ∙ offered_frames w rb mq api c wl rl ql hs app
        ∙ collect-somes (sent_of w api) (seen api) handed (All-front _ handed q good) in
      ap (λ t. t ++ map (seen api) q) delivered
      ∙ sym (map-append (seen api) handed q)
      ∙ ap (map (seen api)) (all ∙ arrivals-on_bus w rb mq api c hs set proper)
