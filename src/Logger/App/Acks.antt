-- ===== src/Logger/App/Acks.antt =====
-- From the host's requests back to the host: the acknowledgements that it finds.
use pcan_alterative.Base.{
  ℕ, ◌+◌, ◌-◌, ◌%◌, ◌^◌, ◌<◌, ◌≡◌, refl, ◌∙◌, ap, ap₂, sym, subst, List, [], ◌∷◌, ◌++◌,
}
use pcan_alterative.Base.{Option, none, some, Result, ok, err, All, leb, ◌==◌, if◌then◌else◌}
use pcan_alterative.Base.{Bool-cases, inl, inr, IsI16, to_i16-to_u16}
use pcan_alterative.Base.Kept.{
  IsSublist, collect, cons_some, cons_some-append, collect-append, collect-IsSublist,
}
use pcan_alterative.Zephyr.{Wire, WireLaws}
use pcan_alterative.Zephyr.RingBuf.{RingBuf, RingBufLaws}
use pcan_alterative.Zephyr.Can.{CanApi, MsgQueue, MsgQueueLaws}
use pcan_alterative.Clp.Types.{can_tx_ack, code, CanFrame, TxAck}
use pcan_alterative.Clp.Encode.{tx_ack_payload}
use pcan_alterative.Clp.Decode.{clp_decode_tx_ack}
use pcan_alterative.Clp.Decode.RoundTrip.{decode-tx_ack_payload}
use pcan_alterative.Clp.Parser.{Message, Parser, clp_parser_feed, inc32}
use pcan_alterative.Clp.Parser.Stream.{IsIdle, received}
use pcan_alterative.Link.Uart.Channel.{can_rx_of, tx_ack_of, status_of, hello_now}
use pcan_alterative.Link.Uart.Refine.{Event, sending, interrupt, offered}
use pcan_alterative.Logger.CanIface.{CanlogFrame, CanIface}
use pcan_alterative.Logger.App.{AppState, Answer, Moment, tx_ack, pump_frame}
use pcan_alterative.Logger.App.Actions.{
  Happening, arrives, pumps, requests, uart_ready, happen, work, relayed, reported, actions,
  all_actions,
}
use pcan_alterative.Logger.App.Frames.{IsProper}
use pcan_alterative.Logger.App.Capture.{delivery, found_by}

-- The acknowledgement in a message, for a host that decodes its payload.
abbrev pub ack_of : Result TxAck → Option TxAck
ack_of (ok a) = some a
ack_of (err e) = none

abbrev pub ack_in : Wire → Message → Option TxAck
ack_in w m = if m.type == code can_tx_ack then ack_of (clp_decode_tx_ack w m.payload) else none

-- The acknowledgement that a request is owed: its tag, what the driver returned, and the time.
abbrev pub owed : Happening → Option TxAck
owed (arrives frame ticks) = none
owed (pumps t) = none
owed (requests req a) = some (record { tag = req.tag; status = a.ret; timestamp = a.ticks })
owed (uart_ready ps) = none

-- Tags, results and times within their C types.
abbrev pub IsProperRequest : Happening → Type 0
IsProperRequest (arrives frame ticks) = Unit
IsProperRequest (pumps t) = Unit
IsProperRequest (requests req a) = (req.tag < 2 ^ 16) × IsI16 a.ret × (a.ticks < 2 ^ 64)
IsProperRequest (uart_ready ps) = Unit

-- What an event sends back to the host.
abbrev ack_by : Wire → Event → Option TxAck
ack_by w (sending (can_rx_of f)) = none
ack_by w (sending (tx_ack_of a)) = ack_of (clp_decode_tx_ack w (tx_ack_payload w a))
ack_by w (sending (status_of s)) = none
ack_by w (sending hello_now) = none
ack_by w (interrupt ps) = none

acks_offered :
    (w : Wire) (rb : RingBuf) (es : List Event) (seq : ℕ)
    → collect (λ o. ack_in w (received o)) (offered w rb seq es) ≡ collect (ack_by w) es
acks_offered w rb [] seq = refl
acks_offered w rb (sending (can_rx_of f) ∷ es) seq = acks_offered w rb es ((seq + 1) % 256)
acks_offered w rb (sending (tx_ack_of a) ∷ es) seq =
    ap (cons_some (ack_of (clp_decode_tx_ack w (tx_ack_payload w a))))
      (acks_offered w rb es ((seq + 1) % 256))
acks_offered w rb (sending (status_of s) ∷ es) seq = acks_offered w rb es ((seq + 1) % 256)
acks_offered w rb (sending hello_now ∷ es) seq = acks_offered w rb es ((seq + 1) % 256)
acks_offered w rb (interrupt ps ∷ es) seq = acks_offered w rb es seq

module _ (w : Wire) (rb : RingBuf) (mq : MsgQueue CanlogFrame) (api : CanApi) (c : CanIface)
    (wl : WireLaws w) where
  relayed_none : (got : Option CanlogFrame) → collect (ack_by w) (relayed w rb mq api c got) ≡ []
  relayed_none none = refl
  relayed_none (some f) = refl

  reported_none :
      (app : AppState w rb mq api) (t : Moment)
      → collect (ack_by w) (reported w rb mq api c app t) ≡ []
  reported_none app t = elim (Bool-cases (leb 1000 (t.now - app.last_status))) [
    | inr early ↦ rw early refl
    | inl due ↦ rw due (elim (Bool-cases (inc32 app.status_ticks % 5 == 0)) [
      | inl fifth ↦ rw fifth refl
      | inr other ↦ rw other refl
    ])
  ]

  abbrev owed_for : CanFrame → Answer → TxAck
  owed_for req a = record { tag = req.tag; status = a.ret; timestamp = a.ticks }

  tx_ack-read :
      (req : CanFrame) (a : Answer)
      → req.tag < 2 ^ 16
      → IsI16 a.ret
      → a.ticks < 2 ^ 64
      → clp_decode_tx_ack w (tx_ack_payload w (tx_ack req a)) ≡ ok (owed_for req a)
  unfolding tx_ack
  tx_ack-read req a tag ret ticks = rw (to_i16-to_u16 a.ret ret) (
      decode-tx_ack_payload w wl.order_laws (owed_for req a)
        (record { tag_u16 = tag; status_i16 = ret; timestamp_u64 = ticks }))

  action_acks :
      (app : AppState w rb mq api) (h : Happening)
      → IsProperRequest h
      → collect (ack_by w) (actions w rb mq api c app h) ≡ cons_some (owed h) []
  action_acks app (arrives frame ticks) p = refl
  action_acks app (pumps t) p =
      let (q, got) = mq.get app.can_rx_msgq in
      let next = pump_frame w rb mq api (record app { can_rx_msgq = q }) got in
      collect-append (ack_by w) (relayed w rb mq api c got) (reported w rb mq api c next t)
      ∙ ap₂ (λ xs ys. xs ++ ys) (relayed_none got) (reported_none next t)
  action_acks app (requests req a) (tag, ret, ticks) =
      ap (λ r. cons_some (ack_of r) []) (tx_ack-read req a tag ret ticks)
  action_acks app (uart_ready ps) p = refl

  collect-acks :
      (hs : List Happening) (app : AppState w rb mq api)
      → All IsProperRequest hs
      → collect (ack_by w) (all_actions w rb mq api c app hs) ≡ collect owed hs
  collect-acks [] app p = refl
  collect-acks (h ∷ hs) app (p, ps) =
      let app' = (happen w rb mq api c app h).0 in
      collect-append (ack_by w) (actions w rb mq api c app h) (all_actions w rb mq api c app' hs)
      ∙ ap₂ (λ xs ys. xs ++ ys) (action_acks app h p) (collect-acks hs app' ps)
      ∙ cons_some-append (owed h) (collect owed hs)

module _ (w : Wire) (rb : RingBuf) (mq : MsgQueue CanlogFrame) (api : CanApi) (c : CanIface)
    (wl : WireLaws w) (rl : RingBufLaws rb) (ql : MsgQueueLaws mq) where
  -- From the host's requests back to the host. From a logger with an empty outgoing ring and a drop
  -- counter below 2 ^ 32, however bus frames, interrupts, the pump and requests interleave: the
  -- acknowledgements that the host finds in what its idle parser delivers are a sublist of those owed
  -- to its requests, in the order of the requests, each with the tag of its request, what the driver
  -- returned for it, and the time. Tags, results, times and frames are within their C types, and the
  -- FIFO takes whole chunks.
  pub acks_seen_by_host :
      (hs : List Happening) (app : AppState w rb mq api) (host : Parser w.Decoder)
      → All IsProper hs
      → All IsProperRequest hs
      → app.uart.stat_tx_drops < 2 ^ 32
      → rl.contents app.uart.tx_rb ≡ []
      → IsIdle w host
      → let (app', sent, handed) = work w rb mq api c app hs in
        let (host', delivered) = clp_parser_feed w host (sent ++ rl.contents app'.uart.tx_rb) in
        IsSublist (collect (ack_in w) delivered) (collect owed hs)
  acks_seen_by_host hs app host proper requested small before idle =
      let es = all_actions w rb mq api c app hs in
      let d = delivery w rb mq api c wl rl ql hs app host proper small before idle in
      let among : IsSublist (collect (λ o. ack_in w (received o)) d.log)
          (collect (λ o. ack_in w (received o)) (offered w rb app.uart.tx_seq es)) =
        collect-IsSublist (λ o. ack_in w (received o)) d.from_offered in
      subst (λ xs. IsSublist xs (collect owed hs))
        (sym (found_by w rb mq api c wl rl ql (ack_in w) hs app host d))
        (subst (IsSublist (collect (λ o. ack_in w (received o)) d.log))
          (acks_offered w rb es app.uart.tx_seq ∙ collect-acks w rb mq api c wl hs app requested)
          among)
