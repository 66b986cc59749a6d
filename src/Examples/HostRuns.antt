-- ===== src/Examples/HostRuns.antt =====
-- The theorem on the host's requests, at the logger of Examples.Stage.
use pcan_alterative.Base.{ℕ, ◌≤◌, refl, List, [], ◌∷◌, length, length-append, arith, map, pos}
use pcan_alterative.Clp.Types.{can_tx, CanFrame}
use pcan_alterative.Clp.Encode.{can_payload}
use pcan_alterative.Clp.Encode.Framing.{wire_of, length-wire_of}
use pcan_alterative.Clp.Parser.Stream.{wires}
use pcan_alterative.Link.Uart.{Uart}
use pcan_alterative.Link.Uart.Channel.{can_rx_of, message-FitsWire}
use pcan_alterative.Logger.CanIface.{CanlogFrame}
use pcan_alterative.Logger.App.{App, Answer}
use pcan_alterative.Logger.App.Host.{asked, request, rx_round, Served, rx_round-Served}
use pcan_alterative.Examples.ClpRuns.{fd_frame, fd_frame-IsCanFrame, host-IsIdle}
use pcan_alterative.Examples.Codec.{State, wire, wire_laws}
use pcan_alterative.Examples.Store.{Bytes, ring, ring_laws}
use pcan_alterative.Examples.Kernel.{msgq, can_api}
use pcan_alterative.Examples.Stage.{link, logger}

-- One request in the incoming ring.
abbrev asking : List (ℕ × CanFrame)
asking = (3, fd_frame) ∷ []

abbrev incoming : List ℕ
incoming = wires wire wire_laws (map (asked wire) asking)

short_incoming : length incoming ≤ 89
short_incoming =
    let bytes = wire_of wire wire_laws can_tx 3 (can_payload wire fd_frame) in
    omega (
      arith,
      length-append bytes [],
      length-wire_of wire wire_laws can_tx 3 (can_payload wire fd_frame)
          (message-FitsWire wire wire_laws 3 (can_rx_of fd_frame)),
    )

abbrev asked_logger : App (Uart Bytes State) (List CanlogFrame)
asked_logger = record logger {
  uart = record link {
    rx_rb = record { cap = 512; items = incoming; held = omega (arith, short_incoming) };
  };
}

abbrev accepted : ℕ → Answer
accepted n = record { ret = pos 0; ticks = 40 }

rx_round-Served_example :
    Served wire ring msgq can_api wire_laws ring_laws asked_logger accepted
      (map request asking)
      (rx_round wire ring msgq can_api 100 asked_logger accepted)
rx_round-Served_example =
    rx_round-Served wire ring msgq can_api wire_laws ring_laws 100 asked_logger accepted asking
      (fd_frame-IsCanFrame, tt) refl host-IsIdle refl (omega (arith, short_incoming))
