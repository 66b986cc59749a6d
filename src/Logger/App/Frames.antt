-- ===== src/Logger/App/Frames.antt =====
-- The CAN frames among the messages that the logger sends, and the frames that arrive.
use pcan_alterative.Base.{
  ℕ, ◌+◌, ◌-◌, ◌%◌, ◌^◌, ◌<◌, ◌≡◌, refl, ◌∙◌, ap, ap₂, append-nil, sym, subst, List, [], ◌∷◌, ◌++◌,
}
use pcan_alterative.Base.{
  Option, none, some, Result, ok, err, All, AreBytes, leb, ◌==◌, if◌then◌else◌, Bool-cases, inl,
  inr, arith, length, take, replicate, min, length-append, length-take, length-replicate,
  All-append, All-take, All-replicate,
}
use pcan_alterative.Base.Kept.{collect, cons_some, cons_some-append, collect-append}
use pcan_alterative.Zephyr.{Wire, WireLaws}
use pcan_alterative.Zephyr.RingBuf.{RingBuf}
use pcan_alterative.Zephyr.Can.{CanApi, MsgQueue}
use pcan_alterative.Clp.Types.{can_rx, code, CanFrame, IsCanFrame}
use pcan_alterative.Clp.Encode.{can_payload}
use pcan_alterative.Clp.Decode.{clp_decode_can_frame}
use pcan_alterative.Clp.Decode.RoundTrip.{decode-can_payload}
use pcan_alterative.Clp.Parser.{Message, inc32}
use pcan_alterative.Clp.Parser.Stream.{received}
use pcan_alterative.Link.Uart.Channel.{can_rx_of, tx_ack_of, status_of, hello_now}
use pcan_alterative.Link.Uart.Service.{TakesChunk}
use pcan_alterative.Link.Uart.Refine.{Event, sending, interrupt, InChunks, offered}
use pcan_alterative.Logger.CanIface.{
  CanlogFrame, DriverFrame, CanIface, can_max_dlen, copied, can_iface_rx_isr,
}
use pcan_alterative.Logger.Flags.{clp_flags_from_can-lt}
use pcan_alterative.Logger.Wanted.{seen, clip-seen}
use pcan_alterative.Logger.App.{AppState, Moment, rx_message, pump_frame, pump_round}
use pcan_alterative.Logger.App.Actions.{
  Happening, arrives, pumps, requests, uart_ready, arrival, happen, work, relayed, reported,
  actions, all_actions,
}

-- A frame of the driver within its C types, and what the handler is called with.
pub record IsDriverFrame (f : DriverFrame) : Type 0 where
  pub id_u32 : f.id < 2 ^ 32
  pub dlc_u8 : f.dlc < 256
  pub flags_u8 : f.flags < 256
  pub bytes_64 : length f.bytes ≡ 64
  pub bytes_u8 : AreBytes f.bytes

-- Frames and times within their C types, and interrupts at which the FIFO takes whole chunks.
abbrev pub IsProper : Happening → Type 0
IsProper (arrives frame ticks) = IsDriverFrame frame × (ticks < 2 ^ 64)
IsProper (pumps t) = Unit
IsProper (requests req a) = Unit
IsProper (uart_ready ps) = All TakesChunk ps

-- The CAN frame in a message, for a host that decodes its payload.
abbrev pub decoded : Result CanFrame → Option CanFrame
decoded (ok f) = some f
decoded (err e) = none

abbrev pub frame_in : Wire → Message → Option CanFrame
frame_in w m = if m.type == code can_rx then decoded (clp_decode_can_frame w m.payload) else none

-- What there is to find in the CAN_RX message that an event sends, if it sends one.
abbrev pub can_rx_by {ℓ} : {X : Type ℓ} → (CanFrame → Option X) → Event → Option X
can_rx_by find (sending (can_rx_of f)) = find f
can_rx_by find (sending (tx_ack_of a)) = none
can_rx_by find (sending (status_of s)) = none
can_rx_by find (sending hello_now) = none
can_rx_by find (interrupt ps) = none

-- What an event sends of the bus, for a host that decodes its payload.
abbrev pub frame_of : Wire → Event → Option CanFrame
frame_of w = can_rx_by (λ f. decoded (clp_decode_can_frame w (can_payload w f)))

pub frames_offered :
    (w : Wire) (rb : RingBuf) (es : List Event) (seq : ℕ)
    → collect (λ o. frame_in w (received o)) (offered w rb seq es) ≡ collect (frame_of w) es
frames_offered w rb [] seq = refl
frames_offered w rb (sending (can_rx_of f) ∷ es) seq =
    ap (cons_some (decoded (clp_decode_can_frame w (can_payload w f))))
      (frames_offered w rb es ((seq + 1) % 256))
frames_offered w rb (sending (tx_ack_of a) ∷ es) seq = frames_offered w rb es ((seq + 1) % 256)
frames_offered w rb (sending (status_of s) ∷ es) seq = frames_offered w rb es ((seq + 1) % 256)
frames_offered w rb (sending hello_now ∷ es) seq = frames_offered w rb es ((seq + 1) % 256)
frames_offered w rb (interrupt ps ∷ es) seq = frames_offered w rb es seq

-- What the host makes of the CAN_RX message of a frame.
abbrev pub sent_of : Wire → CanApi → CanlogFrame → Option CanFrame
sent_of w api f = decoded (clp_decode_can_frame w (can_payload w (rx_message api f)))

module _ (w : Wire) (wl : WireLaws w) (api : CanApi) (c : CanIface) where
  length-copied :
      (dlc : ℕ) (bytes : List ℕ) → length bytes ≡ 64 → length (copied api dlc bytes) ≡ 64
  unfolding copied
  length-copied dlc bytes h =
      let n = min (api.can_dlc_to_bytes dlc) can_max_dlen in
      omega (
        arith,
        length-append (take n bytes) (replicate (can_max_dlen - n) 0),
        length-take n bytes,
        length-replicate (can_max_dlen - n) (let z : ℕ = 0 in z),
      )

  copied-AreBytes : (dlc : ℕ) (bytes : List ℕ) → AreBytes bytes → AreBytes (copied api dlc bytes)
  unfolding copied
  copied-AreBytes dlc bytes h =
      let n = min (api.can_dlc_to_bytes dlc) can_max_dlen in
      All-append _ (take n bytes) (replicate (can_max_dlen - n) 0) (All-take _ n bytes h)
        (All-replicate _ (can_max_dlen - n) 0 (omega arith))

  seen_lem : (f : CanlogFrame) → IsCanFrame (rx_message api f) → sent_of w api f ≡ some (seen api f)
  unfolding rx_message
  seen_lem f v =
      ap decoded (decode-can_payload w wl.order_laws (rx_message api f) v)
      ∙ ap some (clip-seen api f v.bytes_64)

  isr_frame :
      (frame : DriverFrame) (ticks : ℕ)
      → IsDriverFrame frame
      → ticks < 2 ^ 64
      → All
          (λ f. sent_of w api f ≡ some (seen api f))
          (cons_some (can_iface_rx_isr api c frame ticks) [])
  unfolding can_iface_rx_isr rx_message
  isr_frame frame ticks v t = elim (Bool-cases c.has_handler) [
    | inr unset ↦ rw unset tt
    | inl set ↦ rw set (
      seen_lem _ (record {
        id_u32 = v.id_u32;
        flags_u8 = clp_flags_from_can-lt api frame.flags;
        dlc_u8 = v.dlc_u8;
        tag_u16 = omega arith;
        timestamp_u64 = t;
        bytes_64 = length-copied frame.dlc frame.bytes v.bytes_64;
        bytes_u8 = copied-AreBytes frame.dlc frame.bytes v.bytes_u8;
      }),
      tt,
    )
  ]

module _ (w : Wire) (rb : RingBuf) (mq : MsgQueue CanlogFrame) (api : CanApi) (c : CanIface) where
  abbrev St : Type 0
  St = AppState w rb mq api

  module _ {ℓ} {X : Type ℓ} (find : CanFrame → Option X) where
    reported_none :
        (app : St) (t : Moment) → collect (can_rx_by find) (reported w rb mq api c app t) ≡ []
    reported_none app t = elim (Bool-cases (leb 1000 (t.now - app.last_status))) [
      | inr early ↦ rw early refl
      | inl due ↦ rw due (elim (Bool-cases (inc32 app.status_ticks % 5 == 0)) [
        | inl fifth ↦ rw fifth refl
        | inr other ↦ rw other refl
      ])
    ]

    relayed_one :
        (got : Option CanlogFrame)
        → collect (can_rx_by find) (relayed w rb mq api c got)
          ≡ collect (λ f. find (rx_message api f)) (cons_some got [])
    relayed_one none = refl
    relayed_one (some f) = refl

    action_frames :
        (app : St) (h : Happening)
        → collect (can_rx_by find) (actions w rb mq api c app h)
          ≡ collect (λ f. find (rx_message api f)) (cons_some (happen w rb mq api c app h).2 [])
    unfolding happen pump_round
    action_frames app (arrives frame ticks) = refl
    action_frames app (pumps t) =
        let (q, got) = mq.get app.can_rx_msgq in
        let next = pump_frame w rb mq api (record app { can_rx_msgq = q }) got in
        collect-append (can_rx_by find) (relayed w rb mq api c got) (reported w rb mq api c next t)
        ∙ ap₂ (λ xs ys. xs ++ ys) (relayed_one got) (reported_none next t)
        ∙ append-nil (collect (λ f. find (rx_message api f)) (cons_some got []))
    action_frames app (requests req a) = refl
    action_frames app (uart_ready ps) = refl

    pub all_frames :
        (hs : List Happening) (app : St)
        → collect (can_rx_by find) (all_actions w rb mq api c app hs)
          ≡ collect (λ f. find (rx_message api f)) (work w rb mq api c app hs).2
    unfolding work
    all_frames [] app = refl
    all_frames (h ∷ hs) app =
        let g : CanlogFrame → Option X = λ f. find (rx_message api f) in
        let (app', sent, got) = happen w rb mq api c app h in
        let (app'', more, handed) = work w rb mq api c app' hs in
        collect-append (can_rx_by find) (actions w rb mq api c app h)
          (all_actions w rb mq api c app' hs)
        ∙ ap₂ (λ xs ys. xs ++ ys) (action_frames app h) (all_frames hs app')
        ∙ sym (collect-append g (cons_some got []) handed)
        ∙ ap (collect g) (cons_some-append got handed)

  pub arrived_seen :
      (wl : WireLaws w) (hs : List Happening)
      → All IsProper hs
      → All (λ f. sent_of w api f ≡ some (seen api f)) (collect (arrival w rb mq api c) hs)
  arrived_seen wl [] p = tt
  arrived_seen wl (arrives frame ticks ∷ hs) ((v, t), ps) =
      let P : CanlogFrame → Type 0 = λ f. sent_of w api f ≡ some (seen api f) in
      let one = cons_some (can_iface_rx_isr api c frame ticks) [] in
      let more = collect (arrival w rb mq api c) hs in
      subst (All P) (cons_some-append (can_iface_rx_isr api c frame ticks) more)
        (All-append P one more (isr_frame w wl api c frame ticks v t) (arrived_seen wl hs ps))
  arrived_seen wl (pumps t ∷ hs) (p, ps) = arrived_seen wl hs ps
  arrived_seen wl (requests req a ∷ hs) (p, ps) = arrived_seen wl hs ps
  arrived_seen wl (uart_ready u ∷ hs) (p, ps) = arrived_seen wl hs ps

  reported-InChunks : (app : St) (t : Moment) → All InChunks (reported w rb mq api c app t)
  reported-InChunks app t = elim (Bool-cases (leb 1000 (t.now - app.last_status))) [
    | inr early ↦ rw early tt
    | inl due ↦ rw due (elim (Bool-cases (inc32 app.status_ticks % 5 == 0)) [
      | inl fifth ↦ rw fifth (tt, (tt, tt))
      | inr other ↦ rw other (tt, tt)
    ])
  ]

  relayed-InChunks : (got : Option CanlogFrame) → All InChunks (relayed w rb mq api c got)
  relayed-InChunks none = tt
  relayed-InChunks (some f) = (tt, tt)

  actions-InChunks :
      (app : St) (h : Happening) → IsProper h → All InChunks (actions w rb mq api c app h)
  actions-InChunks app (arrives frame ticks) p = tt
  actions-InChunks app (pumps t) p =
      let (q, got) = mq.get app.can_rx_msgq in
      let next = pump_frame w rb mq api (record app { can_rx_msgq = q }) got in
      All-append InChunks (relayed w rb mq api c got) (reported w rb mq api c next t)
        (relayed-InChunks got) (reported-InChunks next t)
  actions-InChunks app (requests req a) p = (tt, tt)
  actions-InChunks app (uart_ready ps) p = (p, tt)

  pub all_actions-InChunks :
      (hs : List Happening) (app : St)
      → All IsProper hs
      → All InChunks (all_actions w rb mq api c app hs)
  all_actions-InChunks [] app p = tt
  all_actions-InChunks (h ∷ hs) app (p, ps) =
      let app' = (happen w rb mq api c app h).0 in
      All-append InChunks (actions w rb mq api c app h) (all_actions w rb mq api c app' hs)
        (actions-InChunks app h p) (all_actions-InChunks hs app' ps)
