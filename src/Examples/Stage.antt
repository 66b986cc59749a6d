-- ===== src/Examples/Stage.antt =====
-- A logger at rest, and a story of what happens to it.
use pcan_alterative.Base.{All, refl, List, [], ◌∷◌, arith, some, none, true, false, negsuc}
use pcan_alterative.Clp.Parser.{clp_parser_init}
use pcan_alterative.Link.Uart.{Uart, Pass}
use pcan_alterative.Logger.CanIface.{DriverFrame, CanlogFrame, CanIface}
use pcan_alterative.Logger.App.{App, Moment}
use pcan_alterative.Logger.App.Actions.{Happening, arrives, pumps, requests, uart_ready}
use pcan_alterative.Logger.App.Frames.{IsDriverFrame, IsProper}
use pcan_alterative.Examples.ClpRuns.{zeros, fd_frame, fd_frame-IsCanFrame}
use pcan_alterative.Examples.Codec.{State, wire}
use pcan_alterative.Examples.Store.{Bytes, fresh}

abbrev pub link : Uart Bytes State
link = record {
  tx_rb = fresh 2048;
  rx_rb = fresh 256;
  rx_sem = false;
  tx_irq = false;
  rx_irq = true;
  parser = clp_parser_init wire true;
  has_tx_req_cb = true;
  tx_seq = 0;
  stat_tx_frames = 0;
  stat_tx_drops = 0;
}

abbrev pub logger : App (Uart Bytes State) (List CanlogFrame)
logger = record {
  uart = link;
  can_rx_msgq = [];
  stat_rx_msgq_drops = 0;
  stat_tx_requests = 0;
  last_status = 0;
  status_ticks = 0;
}

abbrev pub can : CanIface
can = record { has_handler = true; rx_filter_ids = [] }

-- An extended FD frame of twelve bytes.
abbrev pub frame : DriverFrame
frame = record { id = 0x123; dlc = 9; flags = 5; bytes = zeros }

pub frame-IsDriverFrame : IsDriverFrame frame
frame-IsDriverFrame = record {
  id_u32 = omega arith;
  dlc_u8 = omega arith;
  flags_u8 = omega arith;
  bytes_64 = refl;
  bytes_u8 = fd_frame-IsCanFrame.bytes_u8;
}

abbrev pub chunk : Pass
chunk = record { rx_ready = none; tx_ready = some 64 }

abbrev pub moment : Moment
moment = record {
  now = 1500;
  later = 1500;
  bus = record { bus_state = 0; tx_err_cnt = 0; rx_err_cnt = 0 };
}

abbrev pub early : Moment
early = record moment { now = 900 }

abbrev pub story : List Happening
story =
    arrives frame 5
    ∷ arrives frame 6
    ∷ pumps moment
    ∷ requests fd_frame (record { ret = negsuc 4; ticks = 9 })
    ∷ pumps moment
    ∷ uart_ready (chunk ∷ chunk ∷ chunk ∷ [])
    ∷ []

pub story-IsProper : All IsProper story
story-IsProper = (
  (frame-IsDriverFrame, omega arith),
  (
    (frame-IsDriverFrame, omega arith),
    (tt, (tt, (tt, ((omega arith, (omega arith, (omega arith, tt))), tt)))),
  ),
)
