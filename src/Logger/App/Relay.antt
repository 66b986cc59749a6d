-- ===== src/Logger/App/Relay.antt =====
-- From the bus through the queue and the pump to the UART link: what the link is made to send.
use pcan_alterative.Base.{
  ℕ, ◌≤◌, ◌<◌, ◌^◌, ◌≡◌, refl, ◌∙◌, ap₂, subst, true, List, [], ◌∷◌, map, length,
}
use pcan_alterative.Base.{Option, some, All}
use pcan_alterative.Base.Kept.{collect}
use pcan_alterative.Zephyr.{Wire, WireLaws}
use pcan_alterative.Zephyr.RingBuf.{RingBuf}
use pcan_alterative.Zephyr.Can.{CanApi, MsgQueue, MsgQueueLaws}
use pcan_alterative.Clp.Types.{CanFrame}
use pcan_alterative.Link.Uart.Refine.{Event, run}
use pcan_alterative.Logger.CanIface.{CanlogFrame, CanIface}
use pcan_alterative.Logger.Wanted.{relayed_frame, rx_message-relayed_frame}
use pcan_alterative.Logger.App.{AppState, Moment, rx_message}
use pcan_alterative.Logger.App.Actions.{Happening, pumps, work, all_actions, work-run}
use pcan_alterative.Logger.App.Frames.{IsProper, can_rx_by, all_frames}
use pcan_alterative.Logger.App.OnBus.{on_bus, arrivals-on_bus}
use pcan_alterative.Logger.App.Queue.{Account, Accounts, work-Accounts, pumps-empty}

-- The frames that a sequence of sends and interrupts gives to `clp_uart_send_can_rx`.
abbrev pub can_rx_sent : List Event → List CanFrame
can_rx_sent es = collect (can_rx_by some) es

relayed_all :
    (api : CanApi) (fs : List CanlogFrame)
    → collect (λ f. let o : Option CanFrame = some (rx_message api f) in o) fs
      ≡ map (relayed_frame api) fs
relayed_all api [] = refl
relayed_all api (f ∷ fs) =
    ap₂ (λ x xs. x ∷ xs) (rx_message-relayed_frame api f) (relayed_all api fs)

module _ (w : Wire) (rb : RingBuf) (mq : MsgQueue CanlogFrame) (api : CanApi) (c : CanIface)
    (wl : WireLaws w) (ql : MsgQueueLaws mq) where
  open ql use {queued}

  -- The link has come from `app` to `result` by the sends and interrupts `events`, and the frames of
  -- its CAN_RX sends are `frames`.
  pub record Sends (app : AppState w rb mq api) (frames : List CanlogFrame)
      (result : AppState w rb mq api × List ℕ × List CanlogFrame) : Type 0 where
    pub events : List Event
    pub by_link : run w rb app.uart events ≡ (result.0.uart, result.1)
    pub can_rx : can_rx_sent events ≡ map (relayed_frame api) frames

  work-Sends :
      (hs : List Happening) (app : AppState w rb mq api)
      → let result = work w rb mq api c app hs in Sends app result.2 result
  work-Sends hs app = record {
    events = all_actions w rb mq api c app hs;
    by_link = work-run w rb mq api c hs app;
    can_rx = all_frames w rb mq api c some hs app ∙ relayed_all api (work w rb mq api c app hs).2;
  }

  -- `sent_on` are the frames that the link was made to send.
  pub record Relayed (app : AppState w rb mq api) (hs : List Happening)
      (result : AppState w rb mq api × List ℕ × List CanlogFrame) : Type 0 where
    pub sent_on : List CanlogFrame
    pub link : Sends app sent_on result
    pub account :
        Account
          (collect (on_bus api) hs)
          (queued app.can_rx_msgq)
          app.stat_rx_msgq_drops
          sent_on
          (queued result.0.can_rx_msgq)
          result.0.stat_rx_msgq_drops

  -- From the bus to the link no frame is lost unseen, none is changed and none changes its place.
  -- With a handler registered, for any sequence of frames from the bus, rounds of the pump, requests
  -- and interrupts: the link's state and the bytes sent are those of a sequence of sends and
  -- interrupts. The frames of its CAN_RX sends, as `Wanted.relayed_frame` tells them, followed by
  -- those still queued, are the frames that were queued, followed by the frames on the bus, as
  -- `Wanted.kept_frame` tells them, that were accepted. Those that were not accepted are as many as
  -- the drop counter, below 2 ^ 32, has grown by, modulo 2 ^ 32. Frames are within their C types,
  -- and the FIFO takes whole chunks.
  pub work-Relayed :
      (hs : List Happening) (app : AppState w rb mq api)
      → All IsProper hs
      → c.has_handler ≡ true
      → app.stat_rx_msgq_drops < 2 ^ 32
      → Relayed app hs (work w rb mq api c app hs)
  work-Relayed hs app proper set small =
      let (app', sent, handed) = work w rb mq api c app hs in
      record {
        sent_on = handed;
        link = work-Sends hs app;
        account =
            subst (λ arrived. Accounts w rb mq api c ql app arrived app' handed)
              (arrivals-on_bus w rb mq api c hs set proper)
              (work-Accounts w rb mq api c ql hs app small);
      }

  -- The pump catches up: when no frame arrives meanwhile, after as many rounds as there are frames
  -- queued the queue is empty, and the link's state is that of a sequence of sends, of which the
  -- CAN_RX ones are those of all the frames that were queued, in their order, as
  -- `Wanted.relayed_frame` tells them.
  pub pumps-Sends :
      (ts : List Moment) (app : AppState w rb mq api)
      → length (queued app.can_rx_msgq) ≤ length ts
      → let result = work w rb mq api c app (map pumps ts) in
        Sends app (queued app.can_rx_msgq) result × (queued result.0.can_rx_msgq ≡ [])
  pumps-Sends ts app enough =
      let (all, empty) = pumps-empty w rb mq api c ql ts app enough in
      (
        subst (λ fs. Sends app fs (work w rb mq api c app (map pumps ts))) all
            (work-Sends (map pumps ts) app),
        empty,
      )
