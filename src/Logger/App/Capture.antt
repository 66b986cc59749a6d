-- ===== src/Logger/App/Capture.antt =====
-- From the CAN bus to the host: what the host's parser delivers of what arrived.
use pcan_alterative.Base.{◌^◌, ◌<◌, ◌≡◌, ◌∙◌, ap, sym, subst, List, [], ◌++◌}
use pcan_alterative.Base.{Option, All, map}
use pcan_alterative.Base.Kept.{
  IsSublist, IsSublist-trans, collect, collect-IsSublist, collect-map, collect-somes, Kept-prefix,
  map-IsSublist,
}
use pcan_alterative.Zephyr.{Wire, WireLaws}
use pcan_alterative.Zephyr.RingBuf.{RingBuf, RingBufLaws}
use pcan_alterative.Zephyr.Can.{CanApi, MsgQueue, MsgQueueLaws}
use pcan_alterative.Clp.Types.{CanFrame}
use pcan_alterative.Clp.Encode.{can_payload}
use pcan_alterative.Clp.Decode.{clp_decode_can_frame}
use pcan_alterative.Clp.Parser.{Message, Parser, clp_parser_feed}
use pcan_alterative.Clp.Parser.Stream.{IsIdle, Outgoing, received}
use pcan_alterative.Link.Uart.Refine.{Delivered, offered, run-Delivered}
use pcan_alterative.Logger.CanIface.{CanlogFrame, CanIface}
use pcan_alterative.Logger.App.{AppState}
use pcan_alterative.Logger.App.Actions.{Happening, arrival, work, all_actions, work-run}
use pcan_alterative.Logger.App.Queue.{work-Accounts}
use pcan_alterative.Logger.Wanted.{seen}
use pcan_alterative.Logger.App.Frames.{
  IsProper, decoded, frame_in, sent_of, frames_offered, all_frames, arrived_seen,
  all_actions-InChunks,
}
use pcan_alterative.Logger.App.OnBus.{on_bus, arrivals-IsSublist}

module _ (w : Wire) (rb : RingBuf) (mq : MsgQueue CanlogFrame) (api : CanApi) (c : CanIface)
    (wl : WireLaws w) (rl : RingBufLaws rb) (ql : MsgQueueLaws mq) where
  -- The frames taken from the queue are among those that have arrived, in their order.
  handed-IsSublist :
      (hs : List Happening) (app : AppState w rb mq api)
      → app.stat_rx_msgq_drops < 2 ^ 32
      → ql.queued app.can_rx_msgq ≡ []
      → IsSublist (work w rb mq api c app hs).2 (collect (arrival w rb mq api c) hs)
  handed-IsSublist hs app small empty =
      let (app', sent, handed) = work w rb mq api c app hs in
      let a = work-Accounts w rb mq api c ql hs app small in
      let all : handed ++ ql.queued app'.can_rx_msgq ≡ a.accepted =
        a.in_order ∙ ap (λ q. q ++ a.accepted) empty in
      IsSublist-trans (a.lost, a.from_bus)
        (subst (IsSublist handed) all (_, Kept-prefix handed (ql.queued app'.can_rx_msgq)))

  -- The CAN frame in a message of the logger.
  abbrev pub in_message : Outgoing → Option CanFrame
  in_message o = frame_in w (received o)

  -- What a host's parser makes of all that comes out of the UART.
  pub delivery :
      (hs : List Happening) (app : AppState w rb mq api) (host : Parser w.Decoder)
      → All IsProper hs
      → app.uart.stat_tx_drops < 2 ^ 32
      → rl.contents app.uart.tx_rb ≡ []
      → IsIdle w host
      → Delivered w rb wl rl app.uart (all_actions w rb mq api c app hs) host
  delivery hs app host proper small before idle =
      run-Delivered w rb wl rl (all_actions w rb mq api c app hs) app.uart host small
        (all_actions-InChunks w rb mq api c hs app proper) before idle

  -- What a host finds among the messages that come out, by any way to look at a message, is what
  -- there is to find among those that the link has taken.
  pub found_by {ℓ} :
      {X : Type ℓ} (find : Message → Option X) (hs : List Happening) (app : AppState w rb mq api)
      (host : Parser w.Decoder)
      → (d : Delivered w rb wl rl app.uart (all_actions w rb mq api c app hs) host)
      → let (app', sent, handed) = work w rb mq api c app hs in
        collect find (clp_parser_feed w host (sent ++ rl.contents app'.uart.tx_rb)).1
        ≡ collect (λ o. find (received o)) d.log
  found_by find hs app host d =
      ap (λ r. collect find (clp_parser_feed w host (r.1 ++ rl.contents r.0.tx_rb)).1)
        (sym (work-run w rb mq api c hs app))
      ∙ ap (collect find) d.all_of
      ∙ collect-map find received d.log

  pub offered_frames :
      (hs : List Happening) (app : AppState w rb mq api)
      → collect in_message (offered w rb app.uart.tx_seq (all_actions w rb mq api c app hs))
        ≡ collect (sent_of w api) (work w rb mq api c app hs).2
  offered_frames hs app =
      frames_offered w rb (all_actions w rb mq api c app hs) app.uart.tx_seq
      ∙ all_frames w rb mq api c (λ f. decoded (clp_decode_can_frame w (can_payload w f))) hs app

  -- From the CAN bus to the host's screen. From a logger with nothing queued, whatever frames
  -- are on the bus, and however the interrupts, the pump, the host's requests and the status reports
  -- interleave: the CAN frames that a host finds in the messages which its idle parser delivers, of
  -- the bytes sent and then those still queued for the UART, are a sublist of the frames on the bus,
  -- in their order, each as `Wanted.seen` tells it: identifier, DLC and time as they were, the flags
  -- as the bits of the wire, and the data bytes that the DLC counts (none with RTR) with zeros behind.
  -- The drop counters are below 2 ^ 32, the frames within their C types, and the FIFO takes whole
  -- chunks.
  pub work-seen_by_host :
      (hs : List Happening) (app : AppState w rb mq api) (host : Parser w.Decoder)
      → All IsProper hs
      → app.stat_rx_msgq_drops < 2 ^ 32
      → app.uart.stat_tx_drops < 2 ^ 32
      → ql.queued app.can_rx_msgq ≡ []
      → rl.contents app.uart.tx_rb ≡ []
      → IsIdle w host
      → let (app', sent, handed) = work w rb mq api c app hs in
        let (host', delivered) = clp_parser_feed w host (sent ++ rl.contents app'.uart.tx_rb) in
        IsSublist (collect (frame_in w) delivered) (map (seen api) (collect (on_bus api) hs))
  work-seen_by_host hs app host proper small small' empty before idle =
      let arrived = collect (arrival w rb mq api c) hs in
      let d = delivery hs app host proper small' before idle in
      let through_link = collect-IsSublist in_message d.from_offered in
      let through_queue =
        collect-IsSublist (sent_of w api) (handed-IsSublist hs app small empty).1 in
      let among : IsSublist (collect in_message d.log) (map (seen api) arrived) =
        subst (IsSublist (collect in_message d.log))
          (collect-somes (sent_of w api) (seen api) arrived
            (arrived_seen w rb mq api c wl hs proper))
          (IsSublist-trans
            (subst (λ xs. IsSublist xs (collect (sent_of w api) arrived))
              (sym (offered_frames hs app)) through_queue)
            through_link) in
      subst (λ xs. IsSublist xs (map (seen api) (collect (on_bus api) hs)))
        (sym (found_by (frame_in w) hs app host d))
        (IsSublist-trans (map-IsSublist (seen api) (arrivals-IsSublist w rb mq api c hs proper))
          among)
