-- ===== src/Examples/CaptureRuns.antt =====
-- The theorems on what a host sees of the CAN logger, in one story.
use pcan_alterative.Base.{◌∙◌, ◌≡◌, refl, List, [], ◌∷◌, ◌++◌, arith, map}
use pcan_alterative.Base.Kept.{IsSublist, collect}
use pcan_alterative.Clp.Parser.{clp_parser_feed}
use pcan_alterative.Link.Uart.Channel.{can_rx_of}
use pcan_alterative.Logger.CanIface.{CanlogFrame, copied}
use pcan_alterative.Logger.App.Actions.{Happening, arrives, pumps, uart_ready, work}
use pcan_alterative.Logger.Wanted.{seen}
use pcan_alterative.Logger.App.Frames.{frame_in}
use pcan_alterative.Logger.App.OnBus.{on_bus}
use pcan_alterative.Logger.App.Capture.{work-seen_by_host}
use pcan_alterative.Logger.App.Complete.{counters_tell_losses}
use pcan_alterative.Examples.ClpRuns.{zeros, host, host-IsIdle}
use pcan_alterative.Clp.Types.{can_rx}
use pcan_alterative.Clp.Encode.{can_payload}
use pcan_alterative.Clp.Encode.Framing.{length-wire_of}
use pcan_alterative.Link.Uart.Channel.{send, message-FitsWire, queued, dropped, send-Sent}
use pcan_alterative.Link.Uart.Service.{uart_isr-SameSender}
use pcan_alterative.Logger.App.{rx_message}
use pcan_alterative.Examples.Codec.{wire, wire_laws}
use pcan_alterative.Examples.Store.{ring, ring_laws}
use pcan_alterative.Examples.Kernel.{msgq, msgq_laws, can_api}
use pcan_alterative.Logger.App.Acks.{ack_in, owed, acks_seen_by_host}
use pcan_alterative.Examples.Stage.{
  link, logger, can, frame, frame-IsDriverFrame, chunk, early, story, story-IsProper,
}

work-seen_by_host_example :
    let (app', sent, handed) = work wire ring msgq can_api can logger story in
    let (host', delivered) = clp_parser_feed wire host (sent ++ app'.uart.tx_rb.items) in
    IsSublist
      (collect (frame_in wire) delivered)
      (map (seen can_api) (collect (on_bus can_api) story))
work-seen_by_host_example =
    work-seen_by_host wire ring msgq can_api can wire_laws ring_laws msgq_laws story logger host
      story-IsProper (omega arith) (omega arith) refl refl host-IsIdle

-- One frame, taken by the pump and partly sent.
abbrev quiet_story : List Happening
quiet_story = arrives frame 5 ∷ pumps early ∷ uart_ready (chunk ∷ []) ∷ []

none_refused : (work wire ring msgq can_api can logger quiet_story).0.stat_rx_msgq_drops ≡ 0
unfolding work
none_refused = refl

abbrev taken_frame : CanlogFrame
taken_frame = record {
  id = 0x123;
  dlc = 9;
  flags = 5;
  bytes = copied can_api 9 zeros;
  timestamp = 5;
}

sent_not_dropped :
    (send wire ring link (can_rx_of (rx_message can_api taken_frame))).stat_tx_drops ≡ 0
sent_not_dropped =
    let f = rx_message can_api taken_frame in
    elim (send-Sent wire ring wire_laws ring_laws link (can_rx_of f)) [
      | queued more same seq ↦ same
      | dropped full more inc seq ↦ absurd (
          omega (
            arith,
            full,
            length-wire_of wire wire_laws can_rx 0 (can_payload wire f)
                (message-FitsWire wire wire_laws 0 (can_rx_of f)),
          ))
    ]

none_dropped : (work wire ring msgq can_api can logger quiet_story).0.uart.stat_tx_drops ≡ 0
unfolding work
none_dropped =
    (uart_isr-SameSender wire ring ring_laws (chunk ∷ [])
      (send wire ring link (can_rx_of (rx_message can_api taken_frame)))).drops
    ∙ sent_not_dropped

counters_tell_losses_example :
    let (app', sent, handed) = work wire ring msgq can_api can logger quiet_story in
    let (host', delivered) = clp_parser_feed wire host (sent ++ app'.uart.tx_rb.items) in
    collect (frame_in wire) delivered ++ map (seen can_api) app'.can_rx_msgq
    ≡ map (seen can_api) (collect (on_bus can_api) quiet_story)
counters_tell_losses_example =
    counters_tell_losses wire ring msgq can_api can wire_laws ring_laws msgq_laws quiet_story logger
      host ((frame-IsDriverFrame, omega arith), (tt, ((omega arith, tt), tt))) (omega arith)
      (omega arith) (omega arith) refl refl refl host-IsIdle none_refused none_dropped

acks_seen_by_host_example :
    let (app', sent, handed) = work wire ring msgq can_api can logger story in
    let (host', delivered) = clp_parser_feed wire host (sent ++ app'.uart.tx_rb.items) in
    IsSublist (collect (ack_in wire) delivered) (collect owed story)
acks_seen_by_host_example =
    acks_seen_by_host wire ring msgq can_api can wire_laws ring_laws msgq_laws story logger host
      story-IsProper (tt, (tt, (tt, ((omega arith, omega arith, omega arith), (tt, (tt, tt))))))
      (omega arith) refl host-IsIdle
