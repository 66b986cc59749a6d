-- ===== src/Logger/App/Report.antt =====
-- What the status report of the CAN logger says of its past.
use pcan_alterative.Base.{ℕ, ◌+◌, ◌%◌, ◌^◌, ◌≡◌, List, [], ◌∷◌, ◌++◌}
use pcan_alterative.Base.{if◌then◌else◌}
use pcan_alterative.Base.Kept.{Kept, collect}
use pcan_alterative.Zephyr.{Wire, WireLaws}
use pcan_alterative.Zephyr.RingBuf.{RingBuf, RingBufLaws}
use pcan_alterative.Zephyr.Can.{CanApi, MsgQueue, MsgQueueLaws}
use pcan_alterative.Clp.Types.{Status}
use pcan_alterative.Clp.Parser.Stream.{Outgoing, wires}
use pcan_alterative.Link.Uart.Refine.{offered}
use pcan_alterative.Logger.CanIface.{CanlogFrame, CanIface}
use pcan_alterative.Logger.App.{AppState, is_zero}
use pcan_alterative.Logger.App.Actions.{
  Happening, arrives, pumps, requests, uart_ready, arrival, all_actions,
}

-- How many requests the driver has taken.
abbrev pub taken_by : Happening → ℕ
taken_by (arrives frame ticks) = 0
taken_by (pumps t) = 0
taken_by (requests req a) = if is_zero a.ret then 1 else 0
taken_by (uart_ready ps) = 0

abbrev pub requests_taken : List Happening → ℕ
requests_taken [] = 0
requests_taken (h ∷ hs) = taken_by h + requests_taken hs

module _ (w : Wire) (rb : RingBuf) (mq : MsgQueue CanlogFrame) (api : CanApi) (c : CanIface)
    (wl : WireLaws w) (rl : RingBufLaws rb) (ql : MsgQueueLaws mq) where
  -- What a report `st` says after `hs`. `log` is the messages that the link took, and `accepted`
  -- the frames that the queue took; `rx_drops` has grown by the messages and the frames missing.
  pub record Told (app : AppState w rb mq api) (hs : List Happening)
      (result : AppState w rb mq api × List ℕ × List CanlogFrame) (st : Status) : Type 0 where
    pub log : List Outgoing
    pub lost_in_link : ℕ
    pub from_offered :
        Kept (offered w rb app.uart.tx_seq (all_actions w rb mq api c app hs)) log lost_in_link
    pub bytes :
        result.1 ++ rl.contents result.0.uart.tx_rb ≡ rl.contents app.uart.tx_rb ++ wires w wl log
    pub accepted : List CanlogFrame
    pub lost_at_queue : ℕ
    pub from_bus : Kept (collect (arrival w rb mq api c) hs) accepted lost_at_queue
    pub in_order :
        result.2 ++ ql.queued result.0.can_rx_msgq ≡ ql.queued app.can_rx_msgq ++ accepted
    pub drops :
        st.rx_drops
        ≡ (app.uart.stat_tx_drops + app.stat_rx_msgq_drops + lost_in_link + lost_at_queue) % 2 ^ 32
    pub requests_made : st.tx_frames % 2 ^ 32 ≡ (app.stat_tx_requests + requests_taken hs) % 2 ^ 32
